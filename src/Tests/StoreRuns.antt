-- ===== src/Tests/StoreRuns.antt =====
-- Theorems on the directory's tables at concrete inputs.
use rosette.Prelude.{some, ◌≡◌, refl, inr, arith, true}
use rosette.Prelude.Text.{get, put}
use rosette.Prelude.Map.{lookup, insert}
use rosette.Directory.Username.{
  validate_nickname, is_allowed_char, find_disallowed, len_utf8, choose_slot, first_free_slot,
  find_free, slot_count,
}
use rosette.Directory.Store.{Store}
use rosette.Directory.Store.Users.{
  find_or_create_pending_user, find_where, pending_user, update_user, is_phone_in_cooldown,
}
use rosette.Directory.Store.Handles.{
  claim_username, current_width, taken_discriminators, find_user_by_handle,
}
use rosette.Directory.Store.Sessions.{create_session}
use rosette.Directory.Store.Erasure.{erase_user}
use rosette.Directory.Store.Calls.{run, run_all}
use rosette.Directory.Store.Holders.{claim_username-find_user_by_handle}
use rosette.Directory.Store.Cooling.{erased_number_cools}
use rosette.Tests.Accounts.{hash, nickname, signed_in, calls}
use rosette.Tests.ApiRuns.{signed_in-IsWellFormed}

signed_in-row : lookup 1 signed_in.users ≡ some (pending_user 0 hash)
unfolding run_all run find_or_create_pending_user find_where create_session get put insert lookup
signed_in-row = refl

erased_number_cools_example :
    is_phone_in_cooldown 86402 hash (run_all calls (erase_user 3 1 signed_in)) ≡ true
erased_number_cools_example =
    erased_number_cools 3 86402 1 (pending_user 0 hash) calls signed_in signed_in-row (omega arith)

abbrev claimed : Store
claimed = (claim_username 1 nickname signed_in).0

claims : claim_username 1 nickname signed_in ≡ (claimed, inr (1, 2))
unfolding claim_username run_all run find_or_create_pending_user find_where create_session get put
    insert lookup current_width taken_discriminators update_user validate_nickname is_allowed_char
    find_disallowed len_utf8 choose_slot first_free_slot find_free slot_count
claims = refl

claim_username-find_user_by_handle_example : find_user_by_handle nickname 1 claimed ≡ some 1
claim_username-find_user_by_handle_example =
    claim_username-find_user_by_handle 1 nickname (pending_user 0 hash) 1 2 signed_in claimed
      signed_in-IsWellFormed signed_in-row refl claims
