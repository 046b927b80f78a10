-- ===== src/Vault/Frames.antt =====
-- Everything that vault_client.py does respects every frame: it makes requests and keeps its client.
use vault_db_access.Prelude.{
  permission_error, invalid_path, invalid_request, Bool, Option, none, some, List, [], ◌∷◌, Text,
  Exn, forbidden,
}
use vault_db_access.Prelude.Int.{ℤ, pos, ◌+ℤ◌}
use vault_db_access.Models.{DbType, db_value}
use vault_db_access.Effects.{
  userpass, lookup_self, read_user, M, World, Service, VaultRequest, quietly, modify, Credentials,
  ask, vault, revoke_self, write_role_at, delete_role_at, create_token, list_accessors,
  lookup_accessor, revoke_accessor_at, read_creds, list_leases_at, revoke_lease_at, rotate_root_at,
  read_introspect_secret, read_approle, approle_login,
}
use vault_db_access.Effects.Frame.{
  Frame, Follows, frame_rules, Follows-raise, Follows-if, Follows-quietly, Follows-ask,
  Follows-pure, Follows-gets, Follows-time, Follows-try_else, Follows-bind, Follows-then,
  Follows-try_catch,
}
use vault_db_access.Vault.Service.{
  unavailable_if, read_approle_files, revoke_old, login, client_or_login, client, retry, call,
}
use vault_db_access.Vault.Client.{
  userpass_login, token_policies, user_policies, login_error, dead_token, missing_user, write_role,
  delete_role, create_grant_token, scan_accessors, find_token_accessors, or_empty_reply,
  read_credentials, list_leases, revoke_lease, revoke_accessor, when_set, discard_helper,
  run_as_manager, rotate_root, introspect_credentials, revoke_token_quietly,
}

module _ {R : World → World → Type 0} where
  pub Follows-unavailable_if :
      {A : Type 0} (fr : Frame R) (test : Exn → Bool) (m : M A)
      → Follows R m
      → Follows R (unavailable_if test m)
  unfolding unavailable_if
  Follows-unavailable_if fr test m h = search frame_rules

  pub Follows-serve :
      (fr : Frame R) (s : Service) → Follows R (modify (λ w. record w { service = s }))
  unfolding modify
  Follows-serve fr s = record { at = λ env w. fr.served s w }

  Follows-revoke_old : (fr : Frame R) (old : Option Text) → Follows R (revoke_old old)
  unfolding revoke_old
  Follows-revoke_old fr none = search frame_rules
  Follows-revoke_old fr (some old) =
      Follows-quietly fr (ask (vault old revoke_self)) (Follows-ask fr (vault old revoke_self))

  pub Follows-login : (fr : Frame R) → Follows R login
  unfolding login
  Follows-login fr =
      Follows-bind fr read_approle_files _
        (Follows-unavailable_if fr _ (ask read_approle) (Follows-ask fr read_approle))
        (λ p.
          Follows-bind fr _ _
            (Follows-unavailable_if fr _ (ask (approle_login p.0 p.1))
              (Follows-ask fr (approle_login p.0 p.1)))
            (λ c. Follows-bind fr _ _ (Follows-gets fr _) (λ old.
              Follows-bind fr _ _ (Follows-time fr) (λ now.
                Follows-then fr _ _ (Follows-serve fr _)
                  (Follows-then fr _ _ (Follows-revoke_old fr old) (Follows-pure fr c))))))

  Follows-client_or_login : (fr : Frame R) (o : Option Text) → Follows R (client_or_login o)
  unfolding client_or_login
  Follows-client_or_login fr none = Follows-login fr
  Follows-client_or_login fr (some c) = search (frame_rules, Follows-login) depth 9

  Follows-retry : (fr : Frame R) (r : VaultRequest) (e : Exn) → Follows R (retry r e)
  unfolding retry
  Follows-retry fr r (forbidden s) =
      Follows-bind fr login (λ c. ask (vault c r)) (Follows-login fr)
        (λ c. Follows-ask fr (vault c r))
  Follows-retry fr r _ = search frame_rules

  pub Follows-call : (fr : Frame R) (r : VaultRequest) → Follows R (call r)
  unfolding call
  Follows-call fr r =
      Follows-try_catch fr _ (retry r)
        (Follows-bind fr client (λ c. ask (vault c r))
          (Follows-bind fr _ client_or_login (Follows-gets fr _) (Follows-client_or_login fr))
          (λ c. Follows-ask fr (vault c r)))
        (Follows-retry fr r)

  pub Follows-write_role :
      (fr : Frame R) (role : Text) (db : DbType) (c r : List Text) (ttl : ℤ)
      → Follows R (write_role role db c r ttl)
  unfolding write_role
  Follows-write_role fr role db c r ttl = Follows-call fr (write_role_at role (db_value db) c r ttl)

  pub Follows-delete_role : (fr : Frame R) (role : Text) → Follows R (delete_role role)
  unfolding delete_role
  Follows-delete_role fr role = Follows-call fr (delete_role_at role)

  pub Follows-create_grant_token :
      (fr : Frame R) (ttl : ℤ) (label : Text) → Follows R (create_grant_token ttl label)
  unfolding create_grant_token
  Follows-create_grant_token fr ttl label = Follows-call fr (create_token (ttl +ℤ pos 120) label)

  Follows-scan_accessors :
      (fr : Frame R) (label : Text) (keys : List Text) → Follows R (scan_accessors label keys)
  unfolding scan_accessors
  Follows-scan_accessors fr label [] = Follows-pure fr []
  Follows-scan_accessors fr label (acc ∷ keys) =
      let rest = Follows-scan_accessors fr label keys in
      Follows-try_else fr (call (lookup_accessor acc)) _ _ (Follows-call fr (lookup_accessor acc))
        (λ e. Follows-if _ _ _ rest (Follows-raise fr e))
        (λ name. Follows-bind fr (scan_accessors label keys) _ rest (λ found. Follows-pure fr _))

  pub Follows-find_token_accessors :
      (fr : Frame R) (label : Text) → Follows R (find_token_accessors label)
  unfolding find_token_accessors
  Follows-find_token_accessors fr label =
      Follows-bind fr (call list_accessors) _ (Follows-call fr list_accessors)
        (λ resp. Follows-if _ _ _ (Follows-raise fr _) (Follows-scan_accessors fr label _))

  Follows-or_empty_reply : (fr : Frame R) (o : Option Credentials) → Follows R (or_empty_reply o)
  unfolding or_empty_reply
  Follows-or_empty_reply fr none = Follows-raise fr _
  Follows-or_empty_reply fr (some c) = Follows-pure fr c

  pub Follows-read_credentials :
      (fr : Frame R) (token role : Text) → Follows R (read_credentials token role)
  unfolding read_credentials
  Follows-read_credentials fr token role =
      Follows-bind fr (ask (vault token (read_creds role))) or_empty_reply
        (Follows-ask fr (vault token (read_creds role))) (Follows-or_empty_reply fr)

  pub Follows-list_leases : (fr : Frame R) (role : Text) → Follows R (list_leases role)
  unfolding list_leases
  Follows-list_leases fr role =
      Follows-bind fr (call (list_leases_at role)) _ (Follows-call fr (list_leases_at role))
        (λ resp. Follows-pure fr _)

  pub Follows-revoke_lease : (fr : Frame R) (lease : Text) → Follows R (revoke_lease lease)
  unfolding revoke_lease
  Follows-revoke_lease fr lease =
      Follows-try_catch fr (call (revoke_lease_at lease)) _
        (Follows-call fr (revoke_lease_at lease))
        (λ e. Follows-if _ _ _ (Follows-pure fr tt) (Follows-raise fr e))

  pub Follows-revoke_accessor :
      (fr : Frame R) (accessor : Text) → Follows R (revoke_accessor accessor)
  unfolding revoke_accessor
  Follows-revoke_accessor fr accessor =
      Follows-try_catch fr (call (revoke_accessor_at accessor)) _
        (Follows-call fr (revoke_accessor_at accessor))
        (λ e. Follows-if _ _ _ (Follows-pure fr tt) (Follows-raise fr e))

  Follows-when_set :
      (fr : Frame R) (o : Option Text) (f : Text → M (Unit {0}))
      → ((t : Text) → Follows R (f t))
      → Follows R (when_set o f)
  Follows-when_set fr none f h = Follows-pure fr tt
  Follows-when_set fr (some []) f h = Follows-pure fr tt
  Follows-when_set fr (some (c ∷ s)) f h = h (c ∷ s)

  Follows-discard_helper :
      (fr : Frame R) (lease accessor : Option Text) (role : Text)
      → Follows R (discard_helper lease accessor role)
  unfolding discard_helper
  Follows-discard_helper fr lease accessor role =
      Follows-then fr (when_set lease (λ l. quietly (revoke_lease l))) _
        (Follows-when_set fr lease _
          (λ l. Follows-quietly fr (revoke_lease l) (Follows-revoke_lease fr l)))
        (Follows-then fr (when_set accessor (λ a. quietly (revoke_accessor a))) _
          (Follows-when_set fr accessor _
            (λ a. Follows-quietly fr (revoke_accessor a) (Follows-revoke_accessor fr a)))
          (Follows-quietly fr (delete_role role) (Follows-delete_role fr role)))

  ruleset helper_rules = (
    frame_rules, Follows-write_role, Follows-create_grant_token, Follows-read_credentials,
    Follows-discard_helper,
  )

  pub Follows-run_as_manager :
      (fr : Frame R) (db : DbType) (role : Text) (statements : List Text)
      → Follows R (run_as_manager db role statements)
  unfolding run_as_manager
  Follows-run_as_manager fr db role statements = search helper_rules depth 9

  pub Follows-rotate_root : (fr : Frame R) (db : DbType) → Follows R (rotate_root db)
  unfolding rotate_root
  Follows-rotate_root fr db = Follows-call fr (rotate_root_at (db_value db))

  pub Follows-introspect_credentials :
      (fr : Frame R) (db : DbType) → Follows R (introspect_credentials db)
  unfolding introspect_credentials
  Follows-introspect_credentials fr db = Follows-call fr (read_introspect_secret (db_value db))

  pub Follows-revoke_token_quietly :
      (fr : Frame R) (token : Text) → Follows R (revoke_token_quietly token)
  unfolding revoke_token_quietly
  Follows-revoke_token_quietly fr token =
      Follows-quietly fr (ask (vault token revoke_self)) (Follows-ask fr (vault token revoke_self))

  Follows-missing_user : (fr : Frame R) (e : Exn) → Follows R (missing_user e)
  Follows-missing_user fr (invalid_path s) = Follows-pure fr none
  Follows-missing_user fr _ = search frame_rules

  Follows-dead_token : (fr : Frame R) (e : Exn) → Follows R (dead_token e)
  Follows-dead_token fr (forbidden s) = Follows-pure fr none
  Follows-dead_token fr _ = search frame_rules

  Follows-login_error : {A : Type 0} (fr : Frame R) (e : Exn) → Follows R (login_error {A = A} e)
  unfolding login_error
  Follows-login_error fr (invalid_request s) = Follows-raise fr permission_error
  Follows-login_error fr _ = search frame_rules

  pub Follows-user_policies : (fr : Frame R) (username : Text) → Follows R (user_policies username)
  unfolding user_policies
  Follows-user_policies fr username =
      Follows-if _ _ _
        (Follows-try_catch fr (call (read_user username)) _ (Follows-call fr (read_user username))
          (Follows-missing_user fr))
        (Follows-pure fr none)

  pub Follows-token_policies : (fr : Frame R) (token : Text) → Follows R (token_policies token)
  unfolding token_policies
  Follows-token_policies fr token =
      Follows-try_catch fr _ _
        (Follows-bind fr (ask (vault token lookup_self)) _
          (Follows-ask fr (vault token lookup_self)) (λ policies. Follows-pure fr (some policies)))
        (Follows-dead_token fr)

  pub Follows-userpass_login :
      (fr : Frame R) (username password : Text) → Follows R (userpass_login username password)
  unfolding userpass_login login_error
  Follows-userpass_login fr username password =
      Follows-try_catch fr (ask (userpass username password)) login_error
        (Follows-ask fr (userpass username password)) (Follows-login_error fr)
