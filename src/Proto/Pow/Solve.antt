-- ===== src/Proto/Pow/Solve.antt =====
-- The client's brute-force search for a proof of work.
use rosette.Prelude.{
  ℕ, zero, suc, ◌+◌, ◌%◌, ◌^◌, ◌≤◌, ◌<◌, List, ◌≡◌, refl, true, false, some, arith, Bool,
  Bool-cases, inl, inr, ◌≢◌, ◌∙◌, subst, sym, ℕ_discrete,
}
use rosette.Proto.Pow.{PowChallenge, PowSolution, verify, solve_from, solve}

differ : {b : Bool} → b ≡ false → b ≡ true → ⊥
differ e v = cc

module _ (sha256 : List ℕ → List ℕ) where
  abbrev pub solution_at : PowChallenge → ℕ → PowSolution
  solution_at c n = record { challenge = c.challenge; nonce = n }

  -- `m` is the first nonce from `start` on that solves the challenge.
  pub record IsFirst (c : PowChallenge) (start m : ℕ) : Type 0 where
    pub from_start : start ≤ m
    pub solves : verify sha256 c (solution_at c m) ≡ true
    pub before : (k : ℕ) → start ≤ k → k < m → verify sha256 c (solution_at c k) ≡ false

  solve_from_step :
      (c : PowChallenge) (fuel start : ℕ)
      → start + 1 < 2 ^ 64
      → verify sha256 c (solution_at c start) ≡ false
      → solve_from sha256 (suc fuel) c start ≡ solve_from sha256 fuel c (start + 1)
  unfolding solve_from
  solve_from_step c fuel start h e =
      let next : (start + 1) % 2 ^ 64 ≡ start + 1 = omega arith in rw (e, solve_from, next) refl

  solve_from-IsFirst :
      (c : PowChallenge) (fuel start n : ℕ)
      → start ≤ n
      → n < start + fuel
      → n < 2 ^ 64
      → verify sha256 c (solution_at c n) ≡ true
      → (m : ℕ) × (m ≤ n)
        × IsFirst c start m
        × (solve_from sha256 fuel c start ≡ some (solution_at c m))
  unfolding solve_from
  solve_from-IsFirst c zero start n h k w v = absurd (omega arith)
  solve_from-IsFirst c (suc fuel) start n h k w v =
      elim (Bool-cases (verify sha256 c (solution_at c start))) [
        | inl e ↦ (
          start,
          h,
          record { from_start = omega arith; solves = e; before = λ j p q. absurd (omega arith) },
          rw (e, solve_from) refl,
        )
        | inr e ↦
            let ne : start ≢ n = (λ p.
              absurd
                (differ e (subst (λ k. verify sha256 c (solution_at c k) ≡ true) (sym p) v))) in
            let past : start + 1 ≤ n = omega arith in
            let (m, le, first, run) =
              solve_from-IsFirst c fuel (start + 1) n past (omega arith) w v in
            (
              m,
              le,
              record {
                from_start = omega (arith, first.from_start);
                solves = first.solves;
                before = λ j p q. elim (ℕ_discrete start j) [
                  | yes same ↦ subst (λ k. verify sha256 c (solution_at c k) ≡ false) same e
                  | no other ↦ first.before j (omega arith) q
                ];
              },
              solve_from_step c fuel start (omega arith) e ∙ run,
            )
      ]

  -- If some nonce of 64 bits solves a challenge, the search with fuel above it ends, and returns the
  -- least nonce that does.
  pub solve_least :
      (c : PowChallenge) (fuel n : ℕ)
      → n < fuel
      → n < 2 ^ 64
      → verify sha256 c (solution_at c n) ≡ true
      → (m : ℕ) × (m ≤ n) × IsFirst c 0 m × (solve sha256 fuel c ≡ some (solution_at c m))
  unfolding solve
  solve_least c fuel n h w v = solve_from-IsFirst c fuel 0 n (omega arith) (omega arith) w v
