-- ===== src/Store.antt =====
-- middleware/app/store.py: the operations. A transaction of SQLite is one step; a failure of SQLite
-- itself (a full disk, a locked file) is not modelled, but for a violated primary key.
use vault_db_access.Prelude.{
  ℕ, Bool, Option, none, some, List, [], ◌∷◌, ◌++◌, ◌==◌, eq_Text, any, keep, take, Text, codes,
  integrity_error, not, ◌&&◌,
}
use vault_db_access.Prelude.Int.{ℤ}
use vault_db_access.Models.{DbType, Scope, Status, issuing}
use vault_db_access.Rows.{
  Grant, AuditRow, Session, Field, find_row, update_rows, insert_row, rows_by_status, newest_rows,
  find_session, insert_session, touch_sessions, delete_sessions, is_stale,
}
use vault_db_access.Effects.{
  M, World, token_hex, token_urlsafe, ask, time, gets, asks, modify, pure, raise, seconds, ◌>>=◌,
  ◌>>◌,
}
pub mod Sessions

abbrev pub with_grants : List Grant → World → World
with_grants gs w = record w { db = record (w.db) { grants = gs } }

abbrev pub with_sessions : List Session → World → World
with_sessions ss w = record w { db = record (w.db) { sessions = ss } }

-- `config.ROLE_PREFIX` and ten hexadecimal digits
unfoldable pub new_grant_id : M Text
new_grant_id = do digits ← ask (token_hex 5); pure (codes "vdba_" ++ digits)

-- The dictionary that `issue` hands over.
pub record NewGrant : Type 0 where
  pub id : Text
  pub db_type : DbType
  pub scope : Scope
  pub table_names : List Text
  pub commands : List Text
  pub requested_for : Text
  pub issued_by : Text
  pub ttl_seconds : ℤ

abbrev pub new_row : NewGrant → ℕ → Grant
new_row n now = record {
  id = n.id;
  db_type = n.db_type;
  scope = n.scope;
  table_names = n.table_names;
  commands = n.commands;
  requested_for = n.requested_for;
  issued_by = n.issued_by;
  ttl_seconds = n.ttl_seconds;
  status = issuing;
  created_at = now;
  expires_at = none;
  username = none;
  lease_id = none;
  token_accessor = none;
  last_error = none;
  updated_at = now;
}

unfoldable pub insert_grant : NewGrant → M (Unit {0})
insert_grant n = do
  now ← time
  result ← gets (λ w. insert_row (new_row n now) w.db.grants)
  elim result [ none ↦ raise integrity_error | some gs ↦ modify (with_grants gs) ]

unfoldable pub update_grant : Text → List Field → M (Unit {0})
update_grant i fields = do
  now ← time
  modify (λ w. with_grants (update_rows i fields now w.db.grants) w)

unfoldable pub get_grant : Text → M (Option Grant)
get_grant i = gets (λ w. find_row i w.db.grants)

unfoldable pub list_grants : List Status → ℕ → M (List Grant)
list_grants statuses limit = gets (λ w. newest_rows statuses limit w.db.grants)

unfoldable pub list_by_status : List Status → M (List Grant)
list_by_status statuses = gets (λ w. rows_by_status statuses w.db.grants)

-- `audit`; only 500 characters of the detail are kept
unfoldable pub audit : Option Text → Option Text → Text → Text → Text → Text → M (Unit {0})
audit request_id grant_id actor action result detail = do
  now ← time
  modify (λ w. record w {
    db = record (w.db) {
      audit_rows =
          w.db.audit_rows
          ++ (record {
            ts = now;
            request_id = request_id;
            grant_id = grant_id;
            actor = actor;
            action = action;
            result = result;
            detail = take 500 detail;
          }
              ∷ []);
    };
  })

unfoldable pub audit_exists : Text → Text → M Bool
audit_exists action detail =
    gets (λ w. any (λ (r : AuditRow). r.action == action && r.detail == detail) w.db.audit_rows)

-- `_h`
unfoldable pub hash : Text → M Text
hash sid = asks (λ env. env.sha256 sid)

abbrev pub keep_session : Option (List Session) → M (Unit {0})
keep_session none = raise integrity_error
keep_session (some ss) = modify (with_sessions ss)

abbrev pub new_session : Text → Text → Text → Text → ℕ → Session
new_session key username csrf vault_token now = record {
  sid = key;
  username = username;
  csrf = csrf;
  vault_token = vault_token;
  created_at = now;
  last_seen = now;
  last_check = now;
}

unfoldable pub create_session : Text → Text → M (Text × Text)
unfolding hash
create_session username vault_token = do
  sid ← ask (token_urlsafe 32)
  csrf ← ask (token_urlsafe 32)
  now ← time
  key ← hash sid
  result ← gets (λ w. insert_session (new_session key username csrf vault_token now) w.db.sessions)
  keep_session result
  pure (sid, csrf)

unfoldable pub get_session : Text → M (Option Session)
unfolding hash
get_session sid = do key ← hash sid; gets (λ w. find_session key w.db.sessions)

unfoldable pub touch_session : Text → Bool → M (Unit {0})
unfolding hash
touch_session sid checked = do
  now ← time
  key ← hash sid
  modify (λ w. with_sessions (touch_sessions key checked now w.db.sessions) w)

unfoldable pub delete_session : Text → M (Unit {0})
unfolding hash
delete_session sid = do
  key ← hash sid
  modify (λ w. with_sessions (delete_sessions key w.db.sessions) w)

-- `config.SESSION_ABSOLUTE_SECONDS`, `config.SESSION_IDLE_SECONDS`
abbrev pub session_absolute : ℕ
session_absolute = seconds 28800

abbrev pub session_idle : ℕ
session_idle = seconds 1800

unfoldable pub purge_sessions : M (List Session)
unfolding is_stale
purge_sessions = do
  now ← time
  rows ← gets (λ w. keep (is_stale session_absolute session_idle now) w.db.sessions)
  modify (λ w.
      with_sessions
        (keep (λ (s : Session). not (is_stale session_absolute session_idle now s)) w.db.sessions)
        w)
  pure rows
