-- ===== src/Core/Phrase.antt =====
-- The recovery phrase of core/src/backup.rs. The table of lower-case letters is a parameter, and so
-- are the word list and what the generator draws.
pub mod Typed
use rosette.Prelude.{
  ℕ, zero, suc, List, [], ◌∷◌, ◌++◌, map, Bool, true, false, ◌&&◌, ◌||◌, ◌==◌, leb, Option, none,
  some,
}
use rosette.Prelude.Text.{is_whitespace, Text}
use rosette.Core.Outcome.{Outcome, ok, panicked, expect, ◌>>=◌}

abbrev pub end_word : Text → List Text → List Text
end_word [] words = words
end_word (c ∷ cs) words = (c ∷ cs) ∷ words

-- The words of a text, of which `word` has been read.
unfoldable pub split : Text → Text → List Text
split word [] = end_word word []
split word (c ∷ cs) = elim (is_whitespace c) [
  | true ↦ end_word word (split [] cs)
  | false ↦ split (word ++ c ∷ []) cs
]

abbrev pub split_whitespace : Text → List Text
split_whitespace = split []

-- `join(" ")`
unfoldable pub join : List Text → Text
join [] = []
join (word ∷ []) = word
join (word ∷ next ∷ words) = word ++ 32 ∷ join (next ∷ words)

unfoldable pub normalize_phrase : (Text → Text) → Text → Text
normalize_phrase lowercase input = join (map lowercase (split_whitespace input))

abbrev pub phrase_words : ℕ
phrase_words = 5

unfoldable pub word_at : List Text → ℕ → Option Text
word_at [] i = none
word_at (word ∷ words) zero = some word
word_at (word ∷ words) (suc i) = word_at words i

-- The words at the next `count` draws, which are below the length of the list.
unfoldable pub draw_words : {E : Type 0} → List Text → (ℕ → ℕ) → ℕ → Outcome E (List Text)
draw_words words draws zero = ok []
draw_words words draws (suc count) = do
  word ← expect (word_at words (draws count))
  rest ← draw_words words draws count
  ok (word ∷ rest)

unfoldable pub generate_phrase : {E : Type 0} → List Text → (ℕ → ℕ) → Outcome E Text
generate_phrase words draws = do drawn ← draw_words words draws phrase_words; ok (join drawn)
