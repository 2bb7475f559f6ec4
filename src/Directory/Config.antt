-- ===== src/Directory/Config.antt =====
-- directory/src/config.rs. The environment is a parameter: a variable's value, or `none` where it is
-- not set or is no text.
use rosette.Prelude.{◌∷◌, [], Bool, true, ◌||◌, Option, none, some}
use rosette.Prelude.Text.{Text, text_eq}

pub data Variable : Type 0 where
  accounts_enabled search_enabled : Variable

abbrev one : Text
one = b'1' ∷ []

abbrev lower_true : Text
lower_true = b't' ∷ b'r' ∷ b'u' ∷ b'e' ∷ []

abbrev upper_true : Text
upper_true = b'T' ∷ b'R' ∷ b'U' ∷ b'E' ∷ []

abbrev yes : Text
yes = b'y' ∷ b'e' ∷ b's' ∷ []

unfoldable pub env_flag : Option Text → Bool → Bool
env_flag none default = default
env_flag (some v) default =
    text_eq v one || text_eq v lower_true || text_eq v upper_true || text_eq v yes

pub record DirectoryConfig : Type 0 where
  pub accounts_enabled : Bool
  pub search_enabled : Bool

-- `DirectoryConfig::from_env`
unfoldable pub from_env : (Variable → Option Text) → DirectoryConfig
unfolding env_flag
from_env env = record {
  accounts_enabled = env_flag (env accounts_enabled) true;
  search_enabled = env_flag (env search_enabled) true;
}
