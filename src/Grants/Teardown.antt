-- ===== src/Grants/Teardown.antt =====
-- `_run`, `_lock_out_and_terminate` and `_teardown`.
use vault_db_access.Prelude.{
  ℕ, zero, suc, ◌+◌, Bool, Option, none, some, List, [], ◌∷◌, ◌++◌, ◌==◌, eq_Text, eq_ℕ, ltb,
  if◌then◌else◌, fromkeys, Text, codes, Exn, runtime_error, backends_alive, accounts_left,
  is_exception, value_error, busy, not_found, vault_unavailable, permission_error, forbidden,
  invalid_request, invalid_path, vault_down, other_vault_error, os_error, integrity_error,
  http_exception, not_authenticated, too_large, validation_error, invalid_model, other_exception,
  base_exception,
}
use vault_db_access.Models.{
  DbType, postgres, clickhouse, Status, revoking, issuing, active, revoked, expired, failed,
}
use vault_db_access.Rows.{Grant, set_status, set_last_error}
use vault_db_access.Statements.{sorted, lockout_statements, terminate_statements, drop_statements}
use vault_db_access.Effects.{
  M, token_hex, sleep, ask, time, lift, pure, raise, out_of_rounds, try_else, for_each, seconds,
  ◌>>=◌, ◌>>◌,
}
use vault_db_access.Store.{get_grant, update_grant, audit}
use vault_db_access.Vault.{
  run_as_manager, find_token_accessors, list_leases, revoke_lease, revoke_accessor, delete_role,
}
use vault_db_access.Introspect.{find_accounts, pg_backends}

-- `_run`
unfoldable pub run_statements : DbType → Text → List Text → M (Unit {0})
run_statements db grant_id [] = pure tt
run_statements db grant_id (s ∷ ss) = do
  digits ← ask (token_hex 2)
  run_as_manager db (grant_id ++ (codes "_h" ++ digits)) (s ∷ ss)

-- The `while` of `_lock_out_and_terminate`, on a number of rounds.
unfoldable pub terminate_loop : ℕ → ℕ → Text → Text → M (Unit {0})
terminate_loop zero deadline account grant_id = out_of_rounds
terminate_loop (suc rounds) deadline account grant_id = do
  alive ← pg_backends account
  if alive == 0 then pure tt else (do
    now ← time
    if ltb deadline now then raise (runtime_error (backends_alive account)) else (do
      statements ← lift (terminate_statements postgres account)
      run_statements postgres grant_id statements
      ask sleep
      terminate_loop rounds deadline account grant_id))

-- Each round sleeps 3 tenths of a second and the deadline is 200 of them away.
abbrev pub rounds_enough : ℕ
rounds_enough = 68

unfoldable pub lock_out_and_terminate : DbType → Text → Text → M (Unit {0})
unfolding run_statements terminate_loop
lock_out_and_terminate clickhouse account grant_id = pure tt
lock_out_and_terminate postgres account grant_id = do
  statements ← lift (lockout_statements postgres account)
  run_statements postgres grant_id statements
  now ← time
  terminate_loop rounds_enough (now + seconds 20) account grant_id

-- `{x} if x else set()`, and the `|=` under the same test
abbrev pub accessors_of : Text → Option Text → M (List Text)
accessors_of grant_id none = do found ← find_token_accessors grant_id; pure (fromkeys found)
accessors_of grant_id (some []) = do found ← find_token_accessors grant_id; pure (fromkeys found)
accessors_of grant_id (some (c ∷ s)) = pure ((c ∷ s) ∷ [])

abbrev pub set_or_none : Option Text → List Text
set_or_none none = []
set_or_none (some []) = []
set_or_none (some (c ∷ s)) = (c ∷ s) ∷ []

unfoldable pub drop_account : DbType → Text → Text → M (Unit {0})
unfolding lock_out_and_terminate run_statements
drop_account db grant_id account = do
  lock_out_and_terminate db account grant_id
  statements ← lift (drop_statements db account)
  run_statements db grant_id statements

abbrev pub finish_gone : Text → List Text → List Text → M (Unit {0})
finish_gone grant_id accessors [] = for_each accessors revoke_accessor >> delete_role grant_id
finish_gone grant_id accessors (a ∷ as') = raise (runtime_error (accounts_left (a ∷ as')))

-- The last part of the `try`: every account must be gone before the token and the role are removed.
unfoldable pub confirm_gone : DbType → Text → List Text → M (Unit {0})
confirm_gone db grant_id accessors = do
  left ← find_accounts db grant_id
  finish_gone grant_id accessors left

-- The body of the `try` of `_teardown`.
unfoldable pub teardown_steps : Text → Grant → M (Unit {0})
unfolding confirm_gone drop_account lock_out_and_terminate
teardown_steps grant_id g = do
  accessors ← accessors_of grant_id g.token_accessor
  accounts ← find_accounts g.db_type grant_id
  for_each accounts (λ account. lock_out_and_terminate g.db_type account grant_id)
  listed ← list_leases grant_id
  for_each (sorted (fromkeys (listed ++ set_or_none g.lease_id))) revoke_lease
  again ← find_accounts g.db_type grant_id
  for_each again (drop_account g.db_type grant_id)
  confirm_gone g.db_type grant_id accessors

-- `type(exc).__name__`
unfoldable pub type_name : Exn → Text
type_name (value_error _) = codes "ValueError"
type_name (runtime_error _) = codes "RuntimeError"
type_name busy = codes "Busy"
type_name not_found = codes "NotFound"
type_name vault_unavailable = codes "VaultUnavailable"
type_name permission_error = codes "PermissionError"
type_name (forbidden _) = codes "Forbidden"
type_name (invalid_request _) = codes "InvalidRequest"
type_name (invalid_path _) = codes "InvalidPath"
type_name (vault_down _) = codes "VaultDown"
type_name (other_vault_error _) = codes "VaultError"
type_name os_error = codes "OSError"
type_name integrity_error = codes "IntegrityError"
type_name (http_exception _ _) = codes "HTTPException"
type_name not_authenticated = codes "NotAuthenticated"
type_name too_large = codes "TooLarge"
type_name (validation_error _) = codes "RequestValidationError"
type_name invalid_model = codes "ValidationError"
type_name (other_exception name) = name
type_name (base_exception name) = name

abbrev pub status_value : Status → Text
status_value issuing = codes "issuing"
status_value active = codes "active"
status_value revoking = codes "revoking"
status_value revoked = codes "revoked"
status_value expired = codes "expired"
status_value failed = codes "failed"

-- The `except` of `_teardown`.
unfoldable pub teardown_failed : Text → Option Text → Text → Bool → Exn → M (Unit {0})
unfolding type_name
teardown_failed grant_id request_id actor raise_errors e =
    if is_exception e
    then (do
      update_grant grant_id (set_status revoking ∷ set_last_error (some (type_name e)) ∷ [])
      audit request_id (some grant_id) actor (codes "teardown") (codes "error") (type_name e)
      if raise_errors then raise e else pure tt)
    else raise e

unfoldable pub teardown_done : Text → Status → Option Text → Text → M (Unit {0})
teardown_done grant_id final request_id actor = do
  update_grant grant_id (set_status final ∷ set_last_error none ∷ [])
  audit request_id (some grant_id) actor (codes "teardown") (status_value final) []

unfoldable pub teardown_row :
    Option Grant → Text → Status → Option Text → Text → Bool → M (Unit {0})
unfolding teardown_steps teardown_failed teardown_done
teardown_row none grant_id final request_id actor raise_errors = pure tt
teardown_row (some g) grant_id final request_id actor raise_errors =
    try_else (teardown_steps grant_id g) (teardown_failed grant_id request_id actor raise_errors)
      (λ _. teardown_done grant_id final request_id actor)

-- `_teardown`
unfoldable pub teardown : Text → Status → Option Text → Text → Bool → M (Unit {0})
unfolding teardown_row
teardown grant_id final request_id actor raise_errors = do
  g ← get_grant grant_id
  teardown_row g grant_id final request_id actor raise_errors
