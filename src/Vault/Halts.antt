-- ===== src/Vault/Halts.antt =====
-- The calls of vault_client.py that a helper account is made and removed by end, where Vault's own
-- answers do.
use vault_db_access.Prelude.Int.{ℤ}
use vault_db_access.Prelude.{
  if◌then◌else◌, Bool, Option, none, some, List, [], ◌∷◌, Text, Exn, forbidden,
}
use vault_db_access.Models.{DbType, db_value}
use vault_db_access.Effects.{
  lookup_accessor, list_accessors, list_leases_at, pure, raise, try_catch, M, Env, VaultRequest,
  Credentials, vault, revoke_self, read_approle, approle_login, write_role_at, delete_role_at,
  revoke_lease_at, revoke_accessor_at, read_creds, create_token, read_introspect_secret,
}
use vault_db_access.Effects.Halts.{
  Halts-try_else, RunsOn, Halts, Halts-pure, Halts-raise, Halts-gets, Halts-if, Halts-modify,
  Halts-ask, Halts-time, Halts-bind, Halts-then, Halts-try_catch, Halts-on_error, Halts-quietly,
  halting,
}
use vault_db_access.Vault.Service.{
  unavailable_if, read_approle_files, revoke_old, login, client_or_login, client, retry, call,
}
use vault_db_access.Vault.Client.{
  revoke_token_quietly, scan_accessors, find_token_accessors, list_leases, write_role, delete_role,
  create_grant_token, read_credentials, or_empty_reply, revoke_lease, revoke_accessor, when_set,
  discard_helper, run_as_manager, introspect_credentials,
}

module _ {env : Env} (on : RunsOn env) where
  Halts-revoke_old : (old : Option Text) → Halts env (revoke_old old)
  unfolding revoke_old
  Halts-revoke_old none = Halts-pure tt
  Halts-revoke_old (some old) = Halts-quietly _ (Halts-ask on (vault old revoke_self))

  -- An `except` clause that raises.
  Halts-reraised :
      {A : Type 0} (test : Exn → Bool) (x : Exn) (m : M A)
      → Halts env m
      → Halts env (try_catch m (λ e. if test e then raise x else raise e))
  Halts-reraised test x m h =
      Halts-try_catch m _ h (λ e. Halts-if _ _ _ (Halts-raise x) (Halts-raise e))

  Halts-login : Halts env login
  unfolding login read_approle_files unavailable_if
  Halts-login = Halts-bind _ _ (Halts-reraised _ _ _ (Halts-ask on read_approle)) (λ p.
      Halts-bind _ _ (Halts-reraised _ _ _ (Halts-ask on (approle_login p.0 p.1))) (λ c.
        Halts-bind _ _ (Halts-gets _) (λ old. Halts-bind _ _ Halts-time (λ now.
          Halts-then _ _ (Halts-modify _) (Halts-then _ _ (Halts-revoke_old old) (Halts-pure c))))))

  Halts-client_or_login : (o : Option Text) → Halts env (client_or_login o)
  unfolding client_or_login
  Halts-client_or_login none = Halts-login
  Halts-client_or_login (some c) =
      Halts-bind _ _ Halts-time
        (λ now. Halts-bind _ _ (Halts-gets _) (λ since. Halts-if _ _ _ Halts-login (Halts-pure c)))

  Halts-retry : (r : VaultRequest) (e : Exn) → Halts env (retry r e)
  unfolding retry
  Halts-retry r (forbidden s) = Halts-bind _ _ Halts-login (λ c. Halts-ask on (vault c r))
  Halts-retry r _ = search halting

  pub Halts-call : (r : VaultRequest) → Halts env (call r)
  unfolding call client
  Halts-call r =
      Halts-try_catch _ _
        (Halts-bind _ _ (Halts-bind _ _ (Halts-gets _) Halts-client_or_login)
          (λ c. Halts-ask on (vault c r)))
        (Halts-retry r)

  pub Halts-introspect_credentials : (db : DbType) → Halts env (introspect_credentials db)
  unfolding introspect_credentials
  Halts-introspect_credentials db = Halts-call (read_introspect_secret (db_value db))

  Halts-or_empty_reply : (o : Option Credentials) → Halts env (or_empty_reply o)
  unfolding or_empty_reply
  Halts-or_empty_reply none = Halts-raise _
  Halts-or_empty_reply (some c) = Halts-pure c

  -- A removal that takes what is already gone for removed.
  Halts-tolerant :
      (test : Exn → Bool) (m : M (Unit {0}))
      → Halts env m
      → Halts env (try_catch m (λ e. if test e then pure tt else raise e))
  Halts-tolerant test m h =
      Halts-try_catch m _ h (λ e. Halts-if _ _ _ (Halts-pure tt) (Halts-raise e))

  pub Halts-revoke_lease : (lease : Text) → Halts env (revoke_lease lease)
  unfolding revoke_lease
  Halts-revoke_lease lease = Halts-tolerant _ _ (Halts-call (revoke_lease_at lease))

  pub Halts-revoke_accessor : (accessor : Text) → Halts env (revoke_accessor accessor)
  unfolding revoke_accessor
  Halts-revoke_accessor accessor = Halts-tolerant _ _ (Halts-call (revoke_accessor_at accessor))

  pub Halts-delete_role : (role : Text) → Halts env (delete_role role)
  unfolding delete_role
  Halts-delete_role role = Halts-call (delete_role_at role)

  pub Halts-list_leases : (role : Text) → Halts env (list_leases role)
  unfolding list_leases
  Halts-list_leases role = Halts-bind _ _ (Halts-call (list_leases_at role)) (λ resp. Halts-pure _)

  Halts-scan_accessors : (label : Text) (keys : List Text) → Halts env (scan_accessors label keys)
  unfolding scan_accessors
  Halts-scan_accessors label [] = Halts-pure []
  Halts-scan_accessors label (acc ∷ keys) =
      let rest = Halts-scan_accessors label keys in
      Halts-try_else _ _ _ (Halts-call (lookup_accessor acc))
        (λ e. Halts-if _ _ _ rest (Halts-raise e))
        (λ name. Halts-bind _ _ rest (λ found. Halts-pure _))

  pub Halts-find_token_accessors : (label : Text) → Halts env (find_token_accessors label)
  unfolding find_token_accessors
  Halts-find_token_accessors label =
      Halts-bind _ _ (Halts-call list_accessors)
        (λ resp. Halts-if _ _ _ (Halts-raise _) (Halts-scan_accessors label _))

  Halts-when_set :
      (o : Option Text) (f : Text → M (Unit {0}))
      → ((t : Text) → Halts env (f t))
      → Halts env (when_set o f)
  Halts-when_set none f h = Halts-pure tt
  Halts-when_set (some []) f h = Halts-pure tt
  Halts-when_set (some (c ∷ s)) f h = h (c ∷ s)

  Halts-discard_helper :
      (lease accessor : Option Text) (role : Text) → Halts env (discard_helper lease accessor role)
  unfolding discard_helper
  Halts-discard_helper lease accessor role =
      Halts-then _ _ (Halts-when_set lease _ (λ l. Halts-quietly _ (Halts-revoke_lease l))) (
        Halts-then _ _ (Halts-when_set accessor _ (λ a. Halts-quietly _ (Halts-revoke_accessor a)))
          (Halts-quietly _ (Halts-delete_role role)))

  pub Halts-run_as_manager :
      (db : DbType) (role : Text) (statements : List Text)
      → Halts env (run_as_manager db role statements)
  unfolding run_as_manager write_role create_grant_token read_credentials
  Halts-run_as_manager db role statements =
      Halts-then _ _
        (Halts-on_error _ _ (Halts-call (write_role_at role (db_value db) statements _ _))
          (Halts-discard_helper none none role))
        (Halts-bind _ _
          (Halts-on_error _ _ (Halts-call (create_token _ role))
            (Halts-discard_helper none none role))
          (λ p.
            Halts-bind _ _
              (Halts-on_error _ _
                (Halts-bind _ _ (Halts-ask on (vault p.0 (read_creds role))) Halts-or_empty_reply)
                (Halts-discard_helper none (some (p.1)) role))
              (λ creds. Halts-discard_helper (some creds.lease_id) (some (p.1)) role)))

  pub Halts-create_grant_token : (ttl : ℤ) (label : Text) → Halts env (create_grant_token ttl label)
  unfolding create_grant_token
  Halts-create_grant_token ttl label = Halts-call (create_token _ label)

  pub Halts-write_role :
      (role : Text) (db : DbType) (creation revocation : List Text) (ttl : ℤ)
      → Halts env (write_role role db creation revocation ttl)
  unfolding write_role
  Halts-write_role role db creation revocation ttl = Halts-call (write_role_at role _ _ _ ttl)

  pub Halts-read_credentials : (token role : Text) → Halts env (read_credentials token role)
  unfolding read_credentials
  Halts-read_credentials token role =
      Halts-bind _ _ (Halts-ask on (vault token (read_creds role))) Halts-or_empty_reply

  pub Halts-revoke_token_quietly : (token : Text) → Halts env (revoke_token_quietly token)
  unfolding revoke_token_quietly
  Halts-revoke_token_quietly token = Halts-quietly _ (Halts-ask on (vault token revoke_self))
