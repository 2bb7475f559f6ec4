-- ===== src/Directory/Username/Slots.antt =====
-- The discriminator that a claim gets.
use rosette.Prelude.{
  ℕ, zero, suc, ◌+◌, ◌≤◌, ◌<◌, List, none, some, ◌≡◌, refl, arith, true, false, inl, inr, ◌⊎◌,
  Bool-cases, contains, ℕ_discrete, subst,
}
use rosette.Directory.Username.{
  discriminator_space_exhausted, slot_count, find_free, first_free_slot, choose_slot,
}

-- `v` is the first number from `start` on, before `stop`, that is not taken.
pub record IsFirstFree (taken : List ℕ) (start stop v : ℕ) : Type 0 where
  pub from_start : start ≤ v
  pub below : v < stop
  pub is_free : contains v taken ≡ false
  pub before : (k : ℕ) → start ≤ k → k < v → contains k taken ≡ true

abbrev pub AllTaken : List ℕ → ℕ → ℕ → Type 0
AllTaken taken start stop = (k : ℕ) → start ≤ k → k < stop → contains k taken ≡ true

at_start :
    (taken : List ℕ) (start k : ℕ)
    → contains start taken ≡ true
    → start ≡ k
    → contains k taken ≡ true
at_start taken start k h e = subst (λ i. contains i taken ≡ true) e h

find_free_cases :
    (taken : List ℕ) (n start stop : ℕ)
    → start + n ≡ stop
    → ((find_free taken n start ≡ none) × AllTaken taken start stop)
      ⊎ ((v : ℕ) × (find_free taken n start ≡ some v) × IsFirstFree taken start stop v)
unfolding find_free
find_free_cases taken zero start stop e = inl (refl, λ k a b. absurd (omega arith))
find_free_cases taken (suc n) start stop e = elim (Bool-cases (contains start taken)) [
  | inr free ↦ inr (
    start,
    rw free,
    record {
      from_start = omega arith;
      below = omega arith;
      is_free = free;
      before = λ k a b. absurd (omega arith);
    },
  )
  | inl used ↦ elim (find_free_cases taken n (start + 1) stop (omega arith)) [
    | inl (run, all) ↦ inl (
      rw used run,
      λ k a b. elim (ℕ_discrete start k) [
        | yes same ↦ at_start taken start k used same
        | no other ↦ all k (omega arith) b
      ],
    )
    | inr (v, run, f) ↦ inr (
      v,
      rw used run,
      record {
        from_start = omega (arith, f.from_start);
        below = f.below;
        is_free = f.is_free;
        before = λ k a b. elim (ℕ_discrete start k) [
          | yes same ↦ at_start taken start k used same
          | no other ↦ f.before k (omega arith) b
        ];
      },
    )
  ]
]

-- At a width the first slot of `1..=slot_count(width)` that is not taken is chosen; the space is
-- reported as exhausted exactly when all of them are taken.
pub first_free_slot_lem :
    (taken : List ℕ) (width : ℕ)
    → ((first_free_slot taken width ≡ inl discriminator_space_exhausted)
        × AllTaken taken 1 (1 + slot_count width))
      ⊎ ((v : ℕ) × (first_free_slot taken width ≡ inr v)
          × IsFirstFree taken 1 (1 + slot_count width) v)
unfolding first_free_slot
first_free_slot_lem taken width =
    elim (find_free_cases taken (slot_count width) 1 (1 + slot_count width) refl) [
      | inl (run, all) ↦ inl (rw (run, first_free_slot), all)
      | inr (v, run, f) ↦ inr (v, rw (run, first_free_slot), f)
    ]

-- A claim that succeeds from a width gets the first free slot of the narrowest width, from that one
-- on, that has a free slot; a claim that fails has found every width taken up to the last, and fails
-- for that reason.
pub choose_slot_narrowest :
    (rounds : ℕ) (taken : List ℕ) (width last : ℕ)
    → width + rounds ≡ last
    → ((choose_slot rounds taken width ≡ inl discriminator_space_exhausted)
        × ((w : ℕ) → width ≤ w → w ≤ last → AllTaken taken 1 (1 + slot_count w)))
      ⊎ ((slot : ℕ) × (chosen : ℕ) × (choose_slot rounds taken width ≡ inr (slot, chosen))
          × (width ≤ chosen)
          × (chosen ≤ last)
          × IsFirstFree taken 1 (1 + slot_count chosen) slot
          × ((w : ℕ) → width ≤ w → w < chosen → AllTaken taken 1 (1 + slot_count w)))
unfolding choose_slot
choose_slot_narrowest zero taken width last e = elim (first_free_slot_lem taken width) [
  | inl (run, all) ↦ inl (
    rw (run, choose_slot),
    λ w a b. subst (λ i. AllTaken taken 1 (1 + slot_count i)) (omega arith) all,
  )
  | inr (v, run, f) ↦
      inr (
        v,
        width,
        rw (run, choose_slot),
        omega arith,
        omega arith,
        f,
        λ w a b. absurd (omega arith),
      )
]
choose_slot_narrowest (suc rounds) taken width last e = elim (first_free_slot_lem taken width) [
  | inr (v, run, f) ↦
      inr (
        v,
        width,
        rw (run, choose_slot),
        omega arith,
        omega arith,
        f,
        λ w a b. absurd (omega arith),
      )
  | inl (run, all) ↦ elim (choose_slot_narrowest rounds taken (width + 1) last (omega arith)) [
    | inl (fail, more) ↦ inl (rw (run, choose_slot) fail, also all more)
    | inr (v, c, ok, lo, hi, f, more) ↦
        inr (v, c, rw (run, choose_slot) ok, omega arith, hi, f, also all more)
  ]
]
  where
    also :
        {P : ℕ → Type 0}
        → AllTaken taken 1 (1 + slot_count width)
        → ((w : ℕ) → width + 1 ≤ w → P w → AllTaken taken 1 (1 + slot_count w))
        → (w : ℕ) → width ≤ w
        → P w
        → AllTaken taken 1 (1 + slot_count w)
    also all more w a b = elim (ℕ_discrete width w) [
      | yes same ↦ subst (λ i. AllTaken taken 1 (1 + slot_count i)) same all
      | no other ↦ more w (omega arith) b
    ]
