-- ===== src/Vault/Service.antt =====
-- The class `Service`: the AppRole client that logs in again when its token is old or refused.
use vault_db_access.Prelude.{
  ℕ, ◌+◌, Bool, true, false, Option, none, some, ltb, if◌then◌else◌, Text, Exn, forbidden,
  invalid_request, invalid_path, vault_down, other_vault_error, os_error, vault_unavailable,
}
use vault_db_access.Effects.{
  M, read_approle, approle_login, vault, VaultRequest, VaultReply, revoke_self, ask, time, gets,
  modify, pure, raise, try_catch, quietly, seconds, ◌>>=◌, ◌>>◌,
}

-- `RELOGIN_AFTER`
abbrev pub relogin_after : ℕ
relogin_after = seconds 2700

-- `vexc.VaultError`
abbrev pub is_vault_error : Exn → Bool
is_vault_error (forbidden _) = true
is_vault_error (invalid_request _) = true
is_vault_error (invalid_path _) = true
is_vault_error (vault_down _) = true
is_vault_error (other_vault_error _) = true
is_vault_error _ = false

-- `except (vexc.VaultError, OSError)`
unfoldable pub vault_or_os_error : Exn → Bool
vault_or_os_error os_error = true
vault_or_os_error e = is_vault_error e

-- `except (vexc.VaultDown, OSError)`
unfoldable pub down_or_os_error : Exn → Bool
down_or_os_error os_error = true
down_or_os_error (vault_down _) = true
down_or_os_error _ = false

-- `except …: raise VaultUnavailable(…) from exc`, where the clause catches what passes the test
unfoldable pub unavailable_if : {A : Type 0} → (Exn → Bool) → M A → M A
unavailable_if test m = try_catch m λ e. if test e then raise vault_unavailable else raise e

abbrev is_os_error : Exn → Bool
is_os_error os_error = true
is_os_error _ = false

-- `_read_approle`
unfoldable pub read_approle_files : M (Text × Text)
unfolding unavailable_if
read_approle_files = unavailable_if is_os_error (ask read_approle)

unfoldable pub revoke_old : Option Text → M (Unit {0})
revoke_old none = pure tt
revoke_old (some old) = quietly (ask (vault old revoke_self))

-- `Service._login`
unfoldable pub login : M Text
unfolding read_approle_files vault_or_os_error revoke_old
login = do
  (role_id, secret_id) ← read_approle_files
  c ← unavailable_if vault_or_os_error (ask (approle_login role_id secret_id))
  old ← gets (λ w. w.service.client_token)
  now ← time
  modify (λ w. record w { service = record { client_token = some c; logged_in_at = now } })
  revoke_old old
  pure c

-- `Service.client`
unfoldable pub client_or_login : Option Text → M Text
unfolding login
client_or_login none = login
client_or_login (some c) = do
  now ← time
  since ← gets (λ w. w.service.logged_in_at)
  if ltb (since + relogin_after) now then login else pure c

unfoldable pub client : M Text
unfolding client_or_login
client = do c ← gets (λ w. w.service.client_token); client_or_login c

-- The two `except` clauses of `Service.call`.
unfoldable pub retry : (r : VaultRequest) → Exn → M (VaultReply r)
unfolding login down_or_os_error
retry r (forbidden _) = do c ← login; ask (vault c r)
retry r e = if down_or_os_error e then raise vault_unavailable else raise e

-- `Service.call`; what the program passes to it is one request of the client.
unfoldable pub call : (r : VaultRequest) → M (VaultReply r)
unfolding client retry
call r = try_catch (do c ← client; ask (vault c r)) (retry r)
