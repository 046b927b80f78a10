-- ===== src/Vault/Client.antt =====
-- The functions of vault_client.py that issue, revoke, reconcile and the sessions use.
use vault_db_access.Prelude.{
  ℕ, Bool, true, false, ◌&&◌, ◌||◌, Option, none, some, List, [], ◌∷◌, ◌++◌, map, ltb, leb, ◌==◌,
  eq_ℕ, eq_Text, if◌then◌else◌, length, all, contains, Text, codes, has_part, lower, Exn, forbidden,
  invalid_request, invalid_path, runtime_error, permission_error, vault_unavailable,
  too_many_tokens, empty_credentials,
}
use vault_db_access.Prelude.Int.{ℤ, pos, ◌+ℤ◌}
use vault_db_access.Models.{DbType, db_value}
use vault_db_access.Effects.{
  M, Credentials, userpass, vault, write_role_at, delete_role_at, create_token, list_accessors,
  lookup_accessor, revoke_accessor_at, read_creds, list_leases_at, revoke_lease_at, rotate_root_at,
  read_user, read_introspect_secret, lookup_self, revoke_self, ask, pure, raise, try_catch,
  try_else, on_error, quietly, ◌>>=◌, ◌>>◌,
}
use vault_db_access.Vault.Service.{call, vault_or_os_error}

unfoldable pub write_role : Text → DbType → List Text → List Text → ℤ → M (Unit {0})
write_role role db creation revocation ttl =
    call (write_role_at role (db_value db) creation revocation ttl)

unfoldable pub delete_role : Text → M (Unit {0})
delete_role role = call (delete_role_at role)

-- `config.TOKEN_GRACE_SECONDS` is 120
unfoldable pub create_grant_token : ℤ → Text → M (Text × Text)
create_grant_token ttl label = call (create_token (ttl +ℤ pos 120) label)

-- `_gone`
unfoldable pub gone : Exn → Bool
gone (invalid_request s) = has_part (codes "invalid accessor") (lower s)
gone (invalid_path s) = has_part (codes "invalid accessor") (lower s)
gone _ = false

unfoldable pub dashed : Text → Text
dashed = map (λ c. if c == b'_' then b'-' else c)

-- `info["data"].get("display_name") in (wanted, "token-" + label, label)`
unfoldable pub names_label : Text → Option Text → Bool
unfolding dashed
names_label label none = false
names_label label (some name) =
    contains ((codes "token-" ++ dashed label) ∷ (codes "token-" ++ label) ∷ label ∷ []) name

-- The loop over the accessors; the tail of the result is that of the later rounds.
unfoldable pub scan_accessors : Text → List Text → M (List Text)
unfolding names_label gone
scan_accessors label [] = pure []
scan_accessors label (acc ∷ keys) =
    try_else (call (lookup_accessor acc))
      (λ e. if gone e then scan_accessors label keys else raise e)
      (λ name. do
        found ← scan_accessors label keys
        pure (if names_label label name then acc ∷ found else found))

-- `(resp or {}).get("data", {}).get("keys", [])`
abbrev pub keys_of : Option (List Text) → List Text
keys_of none = []
keys_of (some keys) = keys

unfoldable pub find_token_accessors : Text → M (List Text)
unfolding scan_accessors
find_token_accessors label = do
  resp ← call list_accessors
  let keys = keys_of resp
  if ltb 20000 (length keys)
      then raise (runtime_error (too_many_tokens (length keys)))
      else scan_accessors label keys

unfoldable pub or_empty_reply : Option Credentials → M Credentials
or_empty_reply none = raise (runtime_error empty_credentials)
or_empty_reply (some c) = pure c

unfoldable pub read_credentials : Text → Text → M Credentials
unfolding or_empty_reply
read_credentials grant_token role = do
  resp ← ask (vault grant_token (read_creds role))
  or_empty_reply resp

unfoldable pub list_leases : Text → M (List Text)
list_leases role = do
  resp ← call (list_leases_at role)
  pure (map (λ (k : Text). codes "database/creds/" ++ (role ++ (codes "/" ++ k))) (keys_of resp))

unfoldable pub lease_gone : Exn → Bool
lease_gone (invalid_path s) =
    has_part (codes "not found") (lower s) || has_part (codes "invalid lease") (lower s)
lease_gone (invalid_request s) =
    has_part (codes "not found") (lower s) || has_part (codes "invalid lease") (lower s)
lease_gone _ = false

unfoldable pub revoke_lease : Text → M (Unit {0})
unfolding lease_gone
revoke_lease lease_id =
    try_catch (call (revoke_lease_at lease_id)) λ e. if lease_gone e then pure tt else raise e

unfoldable pub accessor_gone : Exn → Bool
accessor_gone (forbidden s) = has_part (codes "invalid accessor") (lower s)
accessor_gone e = gone e

unfoldable pub revoke_accessor : Text → M (Unit {0})
unfolding accessor_gone
revoke_accessor accessor =
    try_catch (call (revoke_accessor_at accessor)) λ e. if accessor_gone e then pure tt else raise e

-- `if arg`: neither None nor empty
abbrev pub truthy : Option Text → Bool
truthy none = false
truthy (some []) = false
truthy (some (c ∷ s)) = true

abbrev pub when_set : Option Text → (Text → M (Unit {0})) → M (Unit {0})
when_set none f = pure tt
when_set (some []) f = pure tt
when_set (some (c ∷ s)) f = f (c ∷ s)

-- The `finally` of `run_as_manager`; its third entry always runs.
unfoldable pub discard_helper : Option Text → Option Text → Text → M (Unit {0})
unfolding revoke_lease revoke_accessor delete_role
discard_helper lease accessor role = do
  when_set lease (λ l. quietly (revoke_lease l))
  when_set accessor (λ a. quietly (revoke_accessor a))
  quietly (delete_role role)

-- `run_as_manager`; `config.HELPER_TTL_SECONDS` is 60. What the cleanup knows is what was assigned
-- before the step that raised.
unfoldable pub run_as_manager : DbType → Text → List Text → M (Unit {0})
unfolding write_role create_grant_token read_credentials discard_helper
run_as_manager db role statements = do
  on_error (write_role role db statements (codes "SELECT 1" ∷ []) (pos 60))
      (discard_helper none none role)
  (token, accessor) ← on_error (create_grant_token (pos 60) role) (discard_helper none none role)
  creds ← on_error (read_credentials token role) (discard_helper none (some accessor) role)
  discard_helper (some creds.lease_id) (some accessor) role

unfoldable pub rotate_root : DbType → M (Unit {0})
rotate_root db = call (rotate_root_at (db_value db))

unfoldable pub introspect_credentials : DbType → M (Text × Text)
introspect_credentials db = call (read_introspect_secret (db_value db))

unfoldable pub login_error : {A : Type 0} → Exn → M A
login_error (invalid_request _) = raise permission_error
login_error e = if vault_or_os_error e then raise vault_unavailable else raise e

unfoldable pub userpass_login : Text → Text → M (Text × List Text)
unfolding login_error
userpass_login username password = try_catch (ask (userpass username password)) login_error

-- `[A-Za-z0-9_.@-]{1,128}`
unfoldable pub is_user_char : ℕ → Bool
is_user_char c =
    (leb b'A' c && leb c b'Z')
    || (leb b'a' c && leb c b'z')
    || (leb b'0' c && leb c b'9')
    || contains (b'_' ∷ b'.' ∷ b'@' ∷ b'-' ∷ []) c

unfoldable pub matches_user : Text → Bool
unfolding is_user_char
matches_user s = leb 1 (length s) && leb (length s) 128 && all is_user_char s

abbrev pub missing_user : Exn → M (Option (List Text))
missing_user (invalid_path _) = pure none
missing_user e = raise e

unfoldable pub user_policies : Text → M (Option (List Text))
unfolding matches_user
user_policies username =
    if matches_user username then try_catch (call (read_user username)) missing_user else pure none

abbrev pub dead_token : Exn → M (Option (List Text))
dead_token (forbidden _) = pure none
dead_token e = if vault_or_os_error e then raise vault_unavailable else raise e

unfoldable pub token_policies : Text → M (Option (List Text))
token_policies token =
    try_catch (do policies ← ask (vault token lookup_self); pure (some policies)) dead_token

unfoldable pub revoke_token_quietly : Text → M (Unit {0})
revoke_token_quietly token = quietly (ask (vault token revoke_self))
