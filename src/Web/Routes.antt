-- ===== src/Web/Routes.antt =====
-- The routes that issue, revoke, list and rotate.
use vault_db_access.Prelude.{
  model_errors, ℕ, ◌||◌, Option, none, some, List, [], ◌++◌, map, eq_Text, if◌then◌else◌, Text,
  codes, starts_with, has_part, Exn, Detail, says, str_of, str_of_busy, value_error, busy,
  not_found, vault_unavailable, http_exception, invalid_model, is_exception, base_exception,
}
use vault_db_access.Models.{DbType, postgres, clickhouse, GrantRequest, db_value}
use vault_db_access.Requests.{form_request}
use vault_db_access.Rows.{Session}
use vault_db_access.Store.{audit, list_grants}
use vault_db_access.Effects.{M, lift, pure, raise, try_catch, try_else, ◌>>=◌, ◌>>◌}
use vault_db_access.Vault.{rotate_root}
use vault_db_access.Introspect.{Catalog, catalog}
use vault_db_access.Grants.{admit, issuing_op, revoking_op, issue, revoke, PublicGrant, public_view}
use vault_db_access.Web.Http.{
  Request, Response, answer, redirect, issued, grant, grant_list, session_info, table_list, rotated,
  index_page, header, header_or_empty, wants_json,
}
use vault_db_access.Web.Sessions.{or_503}

abbrev in_request : Text → Request → Text
in_request message r = message ++ (codes " (request " ++ (r.request_id ++ codes ")"))

-- The `except` clauses of `_issue`.
unfoldable pub issue_error : Request → Exn → Exn
issue_error r (value_error m) = http_exception 400 (str_of m)
issue_error r invalid_model = http_exception 400 (str_of model_errors)
issue_error r busy = http_exception 503 str_of_busy
issue_error r vault_unavailable = vault_unavailable
issue_error r (base_exception name) = base_exception name
issue_error r e =
    http_exception 502 (says (in_request (codes "issuing failed and was rolled back") r))

-- `_issue`
unfoldable pub issue_route : Request → Session → GrantRequest → M (PublicGrant × Text)
unfolding issue_error
issue_route r s req =
    try_catch (admit issuing_op (issue req s.username r.request_id)) (λ e. raise (issue_error r e))

-- The `except` clauses of `revoke_grant`.
unfoldable pub revoke_error : Request → Exn → Exn
revoke_error r not_found = http_exception 404 (says (codes "grant not found"))
revoke_error r busy = http_exception 503 str_of_busy
revoke_error r vault_unavailable = vault_unavailable
revoke_error r (base_exception name) = base_exception name
revoke_error r e =
    http_exception 502 (says (in_request (codes "revocation incomplete, will be retried") r))

unfoldable pub revoke_route : Request → Session → Text → M Response
unfolding revoke_error wants_json header
revoke_route r s grant_id = do
  g ←
      try_catch (admit revoking_op (revoke grant_id s.username r.request_id))
        (λ e. raise (revoke_error r e))
  pure (
      if wants_json r || starts_with (header_or_empty (codes "accept") r) (codes "application/json")
      then answer 200 (grant g)
      else redirect (codes "/"))

-- One database of `_index`; a failure leaves its list empty and is reported if nothing else is.
abbrev or_first : Option Detail → Detail → Option Detail
or_first none d = some d
or_first (some e) d = some e

unfoldable pub index_failed : DbType → Option Detail → Exn → M (List Text × Option Detail)
index_failed db error busy = pure ([], or_first error (says (codes "Server busy, try again")))
index_failed db error e =
    if is_exception e
    then pure (
      [],
      or_first error (
          says
            (codes "Could not list " ++ (db_value db ++ codes " tables (database unreachable?)"))),
    )
    else raise e

unfoldable pub index_tables : DbType → Option Detail → M (List Text × Option Detail)
unfolding index_failed
index_tables db error =
    try_else (admit issuing_op (catalog db)) (index_failed db error)
      (λ (cat : Catalog). pure (cat.tables, error))

-- `_index`
unfoldable pub index :
    Request → Session → Option (PublicGrant × Text) → Option Detail → ℕ → M Response
unfolding index_tables
index r s result error status = do
  (pg, first) ← index_tables postgres error
  (ch, last) ← index_tables clickhouse first
  rows ← list_grants [] 100
  pure (
      answer status (
        index_page (record {
          username = s.username;
          csrf = s.csrf;
          pg_tables = pg;
          ch_tables = ch;
          grants = map public_view rows;
          result = result;
          error = last;
        })))

-- The `except` clauses of `create_grant_form`.
unfoldable pub form_failed : Request → Session → Exn → M Response
form_failed r s (value_error m) = index r s none (some (str_of m)) 400
form_failed r s invalid_model = index r s none (some (says (codes "invalid form input"))) 400
form_failed r s (http_exception status d) = index r s none (some d) status
form_failed r s e = raise e

unfoldable pub create_grant_form : Request → Session → M Response
unfolding issue_route index form_failed
create_grant_form r s = do
  form ← lift r.form
  try_else (lift (form_request form) >>= issue_route r s) (form_failed r s)
      (λ result. index r s (some result) none 200)

unfoldable pub api_create_grant : Request → Session → GrantRequest → M Response
unfolding issue_route header
api_create_grant r s req =
    if has_part (codes "application/json") (header_or_empty (codes "content-type") r)
    then (do (g, password) ← issue_route r s req; pure (answer 200 (issued g password)))
    else raise (http_exception 415 (says (codes "Content-Type must be application/json")))

unfoldable pub api_list_grants : M Response
api_list_grants = do
  rows ← list_grants [] 500
  pure (answer 200 (grant_list (map public_view rows)))

unfoldable pub api_list_tables : DbType → M Response
unfolding or_503
api_list_tables db = do
  cat ← or_503 (admit issuing_op (catalog db))
  pure (answer 200 (table_list (cat.tables)))

unfoldable pub api_session : Session → Response
api_session s = answer 200 (session_info s.username s.csrf)

-- `work` of `rotate_connection`
unfoldable pub rotate_failed : Request → Session → DbType → Exn → M (Unit {0})
rotate_failed r s db vault_unavailable = raise vault_unavailable
rotate_failed r s db e =
    if is_exception e
    then (do
      audit (some r.request_id) none s.username (codes "rotate") (codes "error") (db_value db)
      raise (http_exception 502 (says (in_request (codes "rotation failed") r))))
    else raise e

unfoldable pub rotate : Request → Session → DbType → M (Unit {0})
unfolding rotate_failed
rotate r s db =
    try_else (rotate_root db) (rotate_failed r s db)
      (λ _. audit (some r.request_id) none s.username (codes "rotate") (codes "ok") (db_value db))

unfoldable pub rotate_connection : Request → Session → DbType → M Response
unfolding rotate wants_json
rotate_connection r s db = do
  or_503 (admit issuing_op (rotate r s db))
  pure (
      if wants_json r
      then answer 200 (rotated db)
      else redirect
          (codes "/settings?message=Manager+credential+for+" ++ (db_value db ++ codes "+rotated")))
