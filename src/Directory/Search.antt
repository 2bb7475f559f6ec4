-- ===== src/Directory/Search.antt =====
-- directory/src/search.rs: what a search by a prefix of a hash returns, from any index.
use rosette.Prelude.{ℕ, List, [], ◌∷◌, ◌++◌, Option, none, some}
use rosette.Prelude.Text.{Text, TextMap, get, put}
use rosette.Directory.Store.{Store}
use rosette.Directory.Store.Users.{PhoneEntry, hash_prefix, bucket}

-- The trait `PrefixIndex`
pub record PrefixIndex : Type 0 where
  pub bucket : Text → List PhoneEntry

unfoldable pub search_by_prefix : PrefixIndex → Text → List PhoneEntry
search_by_prefix index prefix = index.bucket prefix

-- `InMemoryIndex`
abbrev pub InMemoryIndex : Type 0
InMemoryIndex = TextMap (List PhoneEntry)

abbrev or_empty : Option (List PhoneEntry) → List PhoneEntry
or_empty none = []
or_empty (some entries) = entries

unfoldable pub insert : Text → ℕ → InMemoryIndex → InMemoryIndex
unfolding hash_prefix
insert phone_hash user_id index =
    let prefix = hash_prefix phone_hash in
    put prefix
      (or_empty (get prefix index) ++ record { phone_hash = phone_hash; user_id = user_id } ∷ [])
      index

unfoldable pub in_memory_index : InMemoryIndex → PrefixIndex
in_memory_index index = record { bucket = λ prefix. or_empty (get prefix index) }

-- `impl PrefixIndex for DirectoryStore`
unfoldable pub store_index : Store → PrefixIndex
unfolding bucket
store_index s = record { bucket = λ prefix. bucket prefix s }
