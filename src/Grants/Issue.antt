-- ===== src/Grants/Issue.antt =====
-- `issue` and `revoke`.
use vault_db_access.Prelude.{
  ◌+◌, true, false, Option, none, some, List, [], ◌∷◌, ◌++◌, if◌then◌else◌, eq_Text, fromkeys, Text,
  codes, Exn, not_found, other_exception,
}
use vault_db_access.Models.{
  Scope, active, revoking, revoked, failed, is_terminal, GrantRequest, db_value, scope_value,
}
use vault_db_access.Rows.{
  Grant, set_status, set_username, set_lease_id, set_expires_at, set_token_accessor,
}
use vault_db_access.Statements.{build_statements}
use vault_db_access.Effects.{
  M, Credentials, time, lift, pure, raise, try_else, finally, seconds, ◌>>=◌, ◌>>◌,
}
use vault_db_access.Store.{new_grant_id, insert_grant, update_grant, get_grant, audit}
use vault_db_access.Vault.{write_role, create_grant_token, read_credentials}
use vault_db_access.Introspect.{catalog}
use vault_db_access.Faults.{point, mutate_statements}
use vault_db_access.Grants.Guarding.{begin, end_op, validate_ttl, PublicGrant, public_view}
use vault_db_access.Grants.Teardown.{teardown, type_name}

-- The body of the inner `try` of `issue`: the credentials' password never enters the store.
unfoldable pub issue_steps : GrantRequest → Text → List Text → List Text → M Credentials
issue_steps req grant_id creation revocation = do
  write_role grant_id req.db_type creation revocation req.ttl_seconds
  point (codes "after_role_create")
  (token, accessor) ← create_grant_token req.ttl_seconds grant_id
  point (codes "after_token_create")
  update_grant grant_id (set_token_accessor accessor ∷ [])
  creds ← read_credentials token grant_id
  point (codes "after_creds_read")
  now ← time
  update_grant grant_id (
      set_status active
      ∷ set_username creds.username
      ∷ set_lease_id creds.lease_id
      ∷ set_expires_at (now + seconds creds.lease_duration)
      ∷ [])
  pure creds

-- The `except BaseException` of `issue`, without its re-raise.
unfoldable pub issue_failed : Text → Text → Text → Exn → M (Unit {0})
issue_failed grant_id actor request_id e = do
  audit (some request_id) (some grant_id) actor (codes "issue") (codes "error") (type_name e)
  teardown grant_id failed (some request_id) (codes "system") false

abbrev pub requested_tables : GrantRequest → List Text
requested_tables req = elim req.scope [ Scope.tables ↦ req.table_names | Scope.database ↦ [] ]

unfoldable pub issue_logged :
    GrantRequest → Text → Text → Text → List Text → List Text → M Credentials
unfolding issue_steps issue_failed
issue_logged req actor request_id grant_id creation revocation = do
  insert_grant (record {
    id = grant_id;
    db_type = req.db_type;
    scope = req.scope;
    table_names = requested_tables req;
    commands = req.commands;
    requested_for = req.requested_for;
    issued_by = actor;
    ttl_seconds = req.ttl_seconds;
  })
  creds ←
      try_else (issue_steps req grant_id creation revocation)
        (λ e. issue_failed grant_id actor request_id e >> raise e) pure
  audit (some request_id) (some grant_id) actor (codes "issue") (codes "ok")
      (db_value req.db_type ++ (codes " " ++ scope_value req.scope))
  pure creds

-- `public(None)` is a `TypeError`.
unfoldable pub public_row : Option Grant → M PublicGrant
public_row none = raise (other_exception (codes "TypeError"))
public_row (some g) = pure (public_view g)

-- The public grant and the one-time password.
unfoldable pub issue : GrantRequest → Text → Text → M (PublicGrant × Text)
unfolding issue_logged public_row
issue req actor request_id = do
  validate_ttl req.ttl_seconds
  cat ← catalog req.db_type
  (creation, revocation) ← lift (
      build_statements req.db_type req.scope req.table_names req.commands (fromkeys cat.tables)
        cat.sequences)
  mutated ← mutate_statements creation
  grant_id ← new_grant_id
  begin req.db_type grant_id
  creds ←
      finally (issue_logged req actor request_id grant_id mutated revocation)
        (end_op req.db_type grant_id)
  g ← get_grant grant_id
  out ← public_row g
  pure (out, creds.password)

-- `revoke` once the lock is held.
unfoldable pub revoke_steps : Text → Text → Text → M (Unit {0})
revoke_steps grant_id actor request_id = do
  update_grant grant_id (set_status revoking ∷ [])
  audit (some request_id) (some grant_id) actor (codes "revoke") (codes "started") []
  teardown grant_id revoked (some request_id) actor true

unfoldable pub revoke_row : Option Grant → Text → Text → Text → M PublicGrant
unfolding revoke_steps public_row
revoke_row none grant_id actor request_id = raise not_found
revoke_row (some g) grant_id actor request_id =
    if is_terminal g.status then pure (public_view g) else (do
      begin g.db_type grant_id
      finally (revoke_steps grant_id actor request_id) (end_op g.db_type grant_id)
      after ← get_grant grant_id
      public_row after)

unfoldable pub revoke : Text → Text → Text → M PublicGrant
unfolding revoke_row
revoke grant_id actor request_id = do g ← get_grant grant_id; revoke_row g grant_id actor request_id
