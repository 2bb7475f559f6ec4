-- ===== src/Core/Phrase/Typed.antt =====
-- A recovery phrase as the user types it, for `normalize_phrase` of core/src/backup.rs.
use rosette.Prelude.{
  append_nil, List, [], ◌∷◌, ◌++◌, map, true, false, ◌≡◌, ◌≢◌, refl, ap, ◌∙◌, sym, All, ◌⊎◌, inl,
  inr,
}
use rosette.Prelude.Text.{is_whitespace, Text}
use rosette.Core.Phrase.{end_word, split, join, normalize_phrase}

abbrev pub IsBlank : Text → Type 0
IsBlank = All (λ c. is_whitespace c ≡ true)

-- A word: not empty, and without white space.
abbrev pub IsSolid : Text → Type 0
IsSolid word = (word ≢ []) × All (λ c. is_whitespace c ≡ false) word

-- Each word with the gap in front of it, then what is behind the last.
unfoldable pub spell : List (Text × Text) → Text → Text
spell [] trailing = trailing
spell ((gap, word) ∷ rest) trailing = gap ++ (word ++ spell rest trailing)

abbrev AreParted : List (Text × Text) → Type 0
AreParted = All (λ typed. (typed.0 ≢ []) × IsBlank typed.0 × IsSolid typed.1)

-- Blank gaps, of which only the first may be empty, and solid words.
abbrev pub AreTyped : List (Text × Text) → Type 0
AreTyped [] = Unit
AreTyped ((gap, word) ∷ rest) = IsBlank gap × IsSolid word × AreParted rest

abbrev pub words_of : List (Text × Text) → List Text
words_of = map (λ typed. typed.1)

split-at_blank :
    (word : Text) (c : _) (cs : Text)
    → is_whitespace c ≡ true
    → split word (c ∷ cs) ≡ end_word word (split [] cs)
unfolding split
split-at_blank word c cs h = rw (h, split) refl

split-at_letter :
    (word : Text) (c : _) (cs : Text)
    → is_whitespace c ≡ false
    → split word (c ∷ cs) ≡ split (word ++ c ∷ []) cs
unfolding split
split-at_letter word c cs h = rw (h, split) refl

split-blank : (gap rest : Text) → IsBlank gap → split [] (gap ++ rest) ≡ split [] rest
split-blank [] rest h = refl
split-blank (c ∷ gap) rest h = split-at_blank [] c (gap ++ rest) h.0 ∙ split-blank gap rest h.1

append_assoc : (xs ys zs : Text) → (xs ++ ys) ++ zs ≡ xs ++ (ys ++ zs)
append_assoc [] ys zs = refl
append_assoc (x ∷ xs) ys zs = ap (x ∷◌) (append_assoc xs ys zs)

split-solid :
    (read word rest : Text)
    → All (λ c. is_whitespace c ≡ false) word
    → split read (word ++ rest) ≡ split (read ++ word) rest
split-solid read [] rest h = ap (λ w. split w rest) (sym (append_nil read))
split-solid read (c ∷ word) rest h =
    split-at_letter read c (word ++ rest) h.0
    ∙ split-solid (read ++ c ∷ []) word rest h.1
    ∙ ap (λ w. split w rest) (append_assoc read (c ∷ []) word)

end_word-solid : (word : Text) (words : List Text) → word ≢ [] → end_word word words ≡ word ∷ words
end_word-solid [] words h = absurd (h refl)
end_word-solid (c ∷ word) words h = refl

-- A word ends at the end of the text or at a blank.
split-end :
    (word rest : Text)
    → word ≢ []
    → (rest ≡ []) ⊎ ((c : _) × (cs : Text) × (rest ≡ c ∷ cs) × (is_whitespace c ≡ true))
    → split word rest ≡ word ∷ split [] rest
unfolding split
split-end word rest h (inl e) = rw e (end_word-solid word [] h)
split-end word rest h (inr (c, cs, e, blank)) = rw e (
    split-at_blank word c cs blank
    ∙ end_word-solid word (split [] cs) h
    ∙ ap (word ∷◌) (sym (split-at_blank [] c cs blank)))

spell-blank :
    (typed : List (Text × Text)) (trailing : Text)
    → AreParted typed
    → IsBlank trailing
    → (spell typed trailing ≡ [])
      ⊎ ((c : _) × (cs : Text) × (spell typed trailing ≡ c ∷ cs) × (is_whitespace c ≡ true))
unfolding spell
spell-blank [] [] h k = inl refl
spell-blank [] (c ∷ cs) h k = inr (c, cs, refl, k.0)
spell-blank (([], word) ∷ typed) trailing h k = absurd (h.0.0 refl)
spell-blank ((c ∷ gap, word) ∷ typed) trailing h k = inr (c, _, refl, h.0.1.0)

split-trailing : (trailing : Text) → IsBlank trailing → split [] trailing ≡ []
unfolding split
split-trailing [] h = refl
split-trailing (c ∷ cs) h = split-at_blank [] c cs h.0 ∙ split-trailing cs h.1

split-first :
    (gap word : Text) (typed : List (Text × Text)) (trailing : Text)
    → IsBlank gap
    → IsSolid word
    → AreParted typed
    → IsBlank trailing
    → split [] (gap ++ (word ++ spell typed trailing)) ≡ word ∷ split [] (spell typed trailing)
split-first gap word typed trailing blank solid parted end =
    split-blank gap (word ++ spell typed trailing) blank
    ∙ split-solid [] word (spell typed trailing) solid.1
    ∙ split-end word (spell typed trailing) solid.0 (spell-blank typed trailing parted end)

split-spell :
    (gap word : Text) (typed : List (Text × Text)) (trailing : Text)
    → IsBlank gap
    → IsSolid word
    → AreParted typed
    → IsBlank trailing
    → split [] (gap ++ (word ++ spell typed trailing)) ≡ word ∷ words_of typed
unfolding spell
split-spell gap word [] trailing blank solid parted end =
    split-first gap word [] trailing blank solid parted end
    ∙ ap (word ∷◌) (split-trailing trailing end)
split-spell gap word ((gap', word') ∷ typed) trailing blank solid parted end =
    split-first gap word ((gap', word') ∷ typed) trailing blank solid parted end
    ∙ ap (word ∷◌) (split-spell gap' word' typed trailing parted.0.1 parted.0.2 parted.1 end)

-- However the words are spaced and in whatever case they are typed, the phrase becomes the words in
-- lower case with one blank between two.
pub normalize_phrase-typed :
    (lowercase : Text → Text) (typed : List (Text × Text)) (trailing : Text) (words : List Text)
    → AreTyped typed
    → IsBlank trailing
    → map lowercase (words_of typed) ≡ words
    → normalize_phrase lowercase (spell typed trailing) ≡ join words
unfolding normalize_phrase spell
normalize_phrase-typed lowercase [] trailing words h k e =
    ap (λ ws. join (map lowercase ws)) (split-trailing trailing k) ∙ ap join e
normalize_phrase-typed lowercase ((gap, word) ∷ typed) trailing words h k e =
    ap (λ ws. join (map lowercase ws)) (split-spell gap word typed trailing h.0 h.1 h.2 k)
    ∙ ap join e
