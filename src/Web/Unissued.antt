-- ===== src/Web/Unissued.antt =====
-- The routes of main.py that neither issue nor revoke leave the rows of `grants` alone.
use vault_db_access.Prelude.{
  ℕ, false, Option, none, some, List, [], ◌∷◌, Text, Exn, Detail, value_error, invalid_model,
  http_exception, busy, permission_error, vault_unavailable, eq_Text,
}
use vault_db_access.Models.{DbType, postgres, clickhouse}
use vault_db_access.Rows.{Session}
use vault_db_access.Effects.{ask, token_urlsafe, pure}
use vault_db_access.Effects.Frame.{
  Follows, Follows-pure, Follows-raise, Follows-lift, Follows-gets, Follows-if, Follows-ask,
  Follows-try_else, frame_rules,
}
use vault_db_access.Store.{list_grants}
use vault_db_access.Vault.Frames.{Follows-userpass_login, Follows-rotate_root}
use vault_db_access.Introspect.{catalog}
use vault_db_access.Introspect.Frames.{Follows-catalog}
use vault_db_access.Grants.{PublicGrant}
use vault_db_access.Grants.Lifecycle.Relation.{SameGrants, SameGrants-frame}
use vault_db_access.Web.Http.{Request}
use vault_db_access.Web.Login.{
  denied, revoke_previous, end_previous, start_session, logged_in, refused_login, do_login,
  check_pre, login_submit, do_logout,
}
use vault_db_access.Web.Routes.{
  index_failed, index_tables, index, form_failed, rotate_failed, rotate, rotate_connection,
}
use vault_db_access.Web.Untouched.{
  audit-Untouched, bind-SameGrants, then-SameGrants, asks-SameGrants, get_session-SameGrants,
  delete_session-SameGrants, create_session-SameGrants, admit-SameGrants, or_503-SameGrants,
  revoke_token-SameGrants,
}

pub pure-SameGrants : {A : Type 0} (a : A) → Follows SameGrants (pure a)
pure-SameGrants = Follows-pure SameGrants-frame

pub token-SameGrants : Follows SameGrants (ask (token_urlsafe 32))
token-SameGrants = Follows-ask SameGrants-frame (token_urlsafe 32)

denied-SameGrants :
    (r : Request) (message : Text) (status : ℕ) (username : Text)
    → Follows SameGrants (denied r message status username)
unfolding denied
denied-SameGrants r message status username = then-SameGrants _ _ (audit-Untouched _ _ _ _ _ _) (
    bind-SameGrants _ _ token-SameGrants
      (λ new_pre. bind-SameGrants _ _ (asks-SameGrants _) (λ config. pure-SameGrants _)))

end_previous-SameGrants : (o : Option Text) → Follows SameGrants (end_previous o)
unfolding end_previous
end_previous-SameGrants none = pure-SameGrants tt
end_previous-SameGrants (some []) = pure-SameGrants tt
end_previous-SameGrants (some (c ∷ s)) =
    bind-SameGrants _ _ (get_session-SameGrants (c ∷ s))
      (λ previous. then-SameGrants _ _ (delete_session-SameGrants (c ∷ s)) (revoked previous))
  where
    revoked : (o : Option Session) → Follows SameGrants (revoke_previous o)
    revoked none = pure-SameGrants tt
    revoked (some s) = revoke_token-SameGrants s.vault_token

logged_in-SameGrants :
    (r : Request) (username : Text) (p : Text × List Text)
    → Follows SameGrants (logged_in r username p)
unfolding logged_in start_session
logged_in-SameGrants r username p =
    Follows-if _ _ _
      (then-SameGrants _ _ (end_previous-SameGrants _) (
        bind-SameGrants _ _ (create_session-SameGrants username p.0) (λ made.
          then-SameGrants _ _ (audit-Untouched _ _ _ _ _ _)
            (bind-SameGrants _ _ (asks-SameGrants _) (λ config. pure-SameGrants _)))))
      (then-SameGrants _ _ (revoke_token-SameGrants p.0) (denied-SameGrants r _ 403 username))

refused_login-SameGrants :
    (r : Request) (username : Text) (e : Exn) → Follows SameGrants (refused_login r username e)
refused_login-SameGrants r username permission_error = denied-SameGrants r _ 401 username
refused_login-SameGrants r username _ = Follows-raise SameGrants-frame _

pub login_submit-SameGrants : (r : Request) → Follows SameGrants (login_submit r)
unfolding login_submit do_login check_pre
login_submit-SameGrants r = bind-SameGrants _ _ (asks-SameGrants _) (λ config.
    then-SameGrants _ _ (Follows-lift SameGrants-frame _) (
      bind-SameGrants _ _ (Follows-lift SameGrants-frame _) (λ form.
        then-SameGrants _ _
          (bind-SameGrants _ _
            (Follows-if _ _ _ (pure-SameGrants false) (Follows-lift SameGrants-frame _))
            (λ same. Follows-if same _ _ (pure-SameGrants tt) (Follows-raise SameGrants-frame _)))
          (or_503-SameGrants _ (
            admit-SameGrants _ _ (
              Follows-if _ _ _ (denied-SameGrants r _ 401 _) (
                Follows-try_else SameGrants-frame _ _ _
                  (Follows-userpass_login SameGrants-frame _ _) (refused_login-SameGrants r _)
                  (logged_in-SameGrants r _))))))))

pub do_logout-SameGrants : (r : Request) (s : Session) → Follows SameGrants (do_logout r s)
unfolding do_logout
do_logout-SameGrants r s = then-SameGrants _ _ (delete_session-SameGrants _) (
    then-SameGrants _ _ (revoke_token-SameGrants s.vault_token)
      (then-SameGrants _ _ (audit-Untouched _ _ _ _ _ _) (pure-SameGrants _)))

index_failed-SameGrants :
    (db : DbType) (error : Option Detail) (e : Exn) → Follows SameGrants (index_failed db error e)
unfolding index_failed
index_failed-SameGrants db error busy = pure-SameGrants _
index_failed-SameGrants db error _ = search (frame_rules, SameGrants-frame)

pub list_grants-SameGrants : (limit : ℕ) → Follows SameGrants (list_grants [] limit)
unfolding list_grants
list_grants-SameGrants limit = Follows-gets SameGrants-frame _

pub index-SameGrants :
    (r : Request) (s : Session) (result : Option (PublicGrant × Text)) (error : Option Detail)
    (status : ℕ)
    → Follows SameGrants (index r s result error status)
unfolding index index_tables
index-SameGrants r s result error status = bind-SameGrants _ _ (tables postgres error) (λ pg.
    bind-SameGrants _ _ (tables clickhouse pg.1)
      (λ ch. bind-SameGrants _ _ (list_grants-SameGrants 100) (λ rows. pure-SameGrants _)))
  where
    tables : (db : DbType) (e : Option Detail) → Follows SameGrants (index_tables db e)
    tables db e =
        Follows-try_else SameGrants-frame _ _ _
          (admit-SameGrants _ _ (Follows-catalog SameGrants-frame db))
          (index_failed-SameGrants db e) (λ cat. pure-SameGrants _)

pub form_failed-SameGrants :
    (r : Request) (s : Session) (e : Exn) → Follows SameGrants (form_failed r s e)
unfolding form_failed
form_failed-SameGrants r s (value_error m) = index-SameGrants r s none _ 400
form_failed-SameGrants r s invalid_model = index-SameGrants r s none _ 400
form_failed-SameGrants r s (http_exception status d) = index-SameGrants r s none _ status
form_failed-SameGrants r s _ = Follows-raise SameGrants-frame _

rotate_failed-SameGrants :
    (r : Request) (s : Session) (db : DbType) (e : Exn)
    → Follows SameGrants (rotate_failed r s db e)
unfolding rotate_failed
rotate_failed-SameGrants r s db vault_unavailable = Follows-raise SameGrants-frame _
rotate_failed-SameGrants r s db _ = search (frame_rules, SameGrants-frame, audit-Untouched)

pub rotate_connection-SameGrants :
    (r : Request) (s : Session) (db : DbType) → Follows SameGrants (rotate_connection r s db)
unfolding rotate_connection rotate
rotate_connection-SameGrants r s db =
    then-SameGrants _ _
      (or_503-SameGrants _ (
        admit-SameGrants _ _ (
          Follows-try_else SameGrants-frame _ _ _ (Follows-rotate_root SameGrants-frame db)
            (rotate_failed-SameGrants r s db) (λ _. audit-Untouched _ _ _ _ _ _))))
      (pure-SameGrants _)

pub catalog-SameGrants : (db : DbType) → Follows SameGrants (catalog db)
catalog-SameGrants = Follows-catalog SameGrants-frame
