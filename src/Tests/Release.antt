-- ===== src/Tests/Release.antt =====
-- The guards of grants.py on the small environment.
use vault_db_access.Prelude.{
  refl, some, [], ◌∷◌, codes, fromkeys, text_eq, has_part, starts_with, join,
}
use vault_db_access.Prelude.Int.{◌+ℤ◌}
use vault_db_access.Effects.{
  World, ask, asks, gets, modify, time, lift, pure, raise, finally, try_else, for_each, quietly,
  ◌>>=◌, ◌>>◌,
}
use vault_db_access.Rows.{find_row, update_rows, insert_row, rows_by_status}
use vault_db_access.Statements.{
  build_statements, matches_identifier, is_head, is_word, command_list, chosen_tables,
  all_sequence_grants, valid_identifier, sorted,
}
use vault_db_access.Store.{
  get_grant, new_grant_id, insert_grant, update_grant, audit, purge_sessions, list_by_status,
}
use vault_db_access.Vault.{
  introspect_credentials, call, write_role, create_grant_token, read_credentials, list_leases,
  revoke_lease, delete_role, revoke_accessor,
}
use vault_db_access.Introspect.{catalog, plain_names, find_accounts, leftover_users}
use vault_db_access.Faults.{mutate_statements, point}
use vault_db_access.Grants.{
  teardown, issue, revoke, reconcile_once, validate_ttl, begin, end_op, admit, revoking_op,
}
use vault_db_access.Grants.Release.Left.{NothingLeft}
use vault_db_access.Grants.Release.Operations.{
  issue-NothingLeft, revoke-NothingLeft, reconcile_once-NothingLeft, revoke-Releases,
}
use vault_db_access.Grants.Release.Admission.{admit-NothingLeft}
use vault_db_access.Demo.{demo, demo_world, demo_request, demo_grant}

issue-NothingLeft_example :
    NothingLeft demo_world.guards
      (issue demo_request (codes "admin") (codes "r1") demo demo_world).1.guards
unfolding issue validate_ttl catalog build_statements mutate_statements new_grant_id begin end_op
    get_grant introspect_credentials call ask asks gets modify time lift pure raise finally try_else
    ◌>>=◌ ◌>>◌ plain_names matches_identifier is_head is_word fromkeys text_eq has_part starts_with
    join command_list chosen_tables all_sequence_grants valid_identifier insert_grant update_grant
    audit write_role point create_grant_token read_credentials ◌+ℤ◌ find_row update_rows insert_row
issue-NothingLeft_example =
    issue-NothingLeft demo_request (codes "admin") (codes "r1") demo demo_world refl

revoke-NothingLeft_example :
    NothingLeft demo_world.guards
      (revoke (codes "vdba_aaaaaaaaaa") (codes "admin") (codes "r2") demo demo_world).1.guards
unfolding revoke begin end_op get_grant introspect_credentials call ask asks gets modify time lift
    pure raise finally try_else ◌>>=◌ ◌>>◌ plain_names fromkeys text_eq update_grant for_each sorted
    find_accounts list_leases revoke_lease delete_role audit find_row update_rows revoke_accessor
    teardown
revoke-NothingLeft_example =
    revoke-NothingLeft (codes "vdba_aaaaaaaaaa") (codes "admin") (codes "r2") demo demo_world refl

-- The only grant has long expired.
abbrev late_world : World
late_world = record demo_world {
  db = record (demo_world.db) { grants = record demo_grant { expires_at = some 100 } ∷ [] };
}

reconcile_once-NothingLeft_example :
    NothingLeft late_world.guards (reconcile_once demo late_world).1.guards
unfolding reconcile_once quietly begin end_op get_grant introspect_credentials call ask asks gets
    modify time lift pure raise finally try_else ◌>>=◌ ◌>>◌ plain_names fromkeys text_eq
    update_grant for_each sorted find_accounts list_leases revoke_lease delete_role audit find_row
    update_rows purge_sessions list_by_status rows_by_status leftover_users revoke_accessor teardown
reconcile_once-NothingLeft_example = reconcile_once-NothingLeft demo late_world refl

admit-NothingLeft_example :
    NothingLeft demo_world.guards
      (admit revoking_op
        (revoke (codes "vdba_aaaaaaaaaa") (codes "admin") (codes "r2"))
        demo
        demo_world).1.guards
unfolding admit revoke begin end_op get_grant introspect_credentials call ask asks gets modify time
    lift pure raise finally try_else ◌>>=◌ ◌>>◌ plain_names fromkeys text_eq update_grant for_each
    sorted find_accounts list_leases revoke_lease delete_role audit find_row update_rows
    revoke_accessor teardown
admit-NothingLeft_example =
    admit-NothingLeft revoking_op (revoke (codes "vdba_aaaaaaaaaa") (codes "admin") (codes "r2"))
      (revoke-Releases (codes "vdba_aaaaaaaaaa") (codes "admin") (codes "r2")) demo demo_world refl
