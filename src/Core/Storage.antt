-- ===== src/Core/Storage.antt =====
-- The encrypted store of core/src/storage.rs: its two tables, with an id of 16 bytes as a number.
-- SQLCipher, the file and the errors of the database are not modelled.
use rosette.Prelude.{ℕ, List, [], ◌∷◌, ◌++◌, Option, contains, if◌then◌else◌}
use rosette.Prelude.Text.{Text, TextMap, put}
use rosette.Prelude.Text as Rows

pub record Store : Type 0 where
  pub kv : TextMap (List ℕ)
  pub seen : List ℕ

abbrev pub new_store : Store
new_store = record { kv = []; seen = [] }

unfoldable pub get : Text → Store → Option (List ℕ)
get k s = Rows.get k s.kv

abbrev pub seen_ids : Store → List ℕ
seen_ids s = s.seen

-- `INSERT INTO kv .. ON CONFLICT DO UPDATE`, for each entry
unfoldable pub write_all : List (Text × List ℕ) → TextMap (List ℕ) → TextMap (List ℕ)
write_all [] kv = kv
write_all ((k, v) ∷ entries) kv = write_all entries (put k v kv)

-- `INSERT OR IGNORE INTO seen`, for each id
unfoldable pub mark_all : List ℕ → List ℕ → List ℕ
mark_all [] seen = seen
mark_all (id ∷ ids) seen = mark_all ids (if contains id seen then seen else seen ++ id ∷ [])

unfoldable pub commit : List (Text × List ℕ) → List ℕ → Store → Store
unfolding write_all mark_all
commit entries ids s = record { kv = write_all entries s.kv; seen = mark_all ids s.seen }
