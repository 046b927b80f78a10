-- ===== src/Tests/Returned.antt =====
-- A revocation on the small environment.
use vault_db_access.Prelude.Int.{◌+ℤ◌}
use vault_db_access.Faults.{mutate_statements, point}
use vault_db_access.Grants.Returned.Issue.{Issued, issue-Returns, request_row}
use vault_db_access.Prelude.{some, has_part, starts_with, join, refl, codes, fromkeys, text_eq}
use vault_db_access.Models.{active, revoked}
use vault_db_access.Rows.{Grant, find_row, update_rows, insert_row}
use vault_db_access.Effects.{
  ask, asks, gets, modify, time, lift, pure, raise, finally, try_else, for_each, ◌>>=◌, ◌>>◌,
}
use vault_db_access.Statements.{
  sorted, build_statements, matches_identifier, is_head, is_word, command_list, chosen_tables,
  all_sequence_grants, valid_identifier,
}
use vault_db_access.Store.{get_grant, update_grant, audit, new_grant_id, insert_grant, new_row}
use vault_db_access.Vault.{
  introspect_credentials, call, write_role, create_grant_token, read_credentials, list_leases,
  revoke_lease, delete_role, revoke_accessor,
}
use vault_db_access.Introspect.{catalog, plain_names, find_accounts}
use vault_db_access.Grants.{
  issue, validate_ttl, revoke, begin, end_op, public_view, PublicGrant, teardown,
}
use vault_db_access.Grants.Returned.Revoke.{Revoked, revoke-Returns}
use vault_db_access.Demo.{demo_request, demo, demo_world, demo_grant}

abbrev revoked_view : PublicGrant
revoked_view = public_view (record demo_grant { status = revoked })

revoke-Returns_example :
    Revoked demo_grant
      (codes "vdba_aaaaaaaaaa")
      demo
      demo_world
      revoked_view
      (revoke (codes "vdba_aaaaaaaaaa") (codes "admin") (codes "r2") demo demo_world).1
unfolding revoke begin end_op get_grant introspect_credentials call ask asks gets modify time lift
    pure raise finally try_else ◌>>=◌ ◌>>◌ plain_names fromkeys text_eq update_grant for_each sorted
    find_accounts list_leases revoke_lease delete_role audit find_row update_rows revoke_accessor
    teardown public_view
revoke-Returns_example =
    revoke-Returns demo_grant (codes "vdba_aaaaaaaaaa") (codes "admin") (codes "r2") demo demo_world
      (revoke (codes "vdba_aaaaaaaaaa") (codes "admin") (codes "r2") demo demo_world).1 revoked_view
      refl refl refl

abbrev issued_row : Grant
issued_row =
    record (new_row (request_row demo_request (codes "admin") (codes "vdba_0123456789")) 1021) {
      status = active;
      username = some (codes "vdba_0123456789_abcdef");
      expires_at = some 7042;
    }

issue-Returns_example :
    Issued demo_request
      (codes "admin")
      demo
      (public_view issued_row, codes "pw")
      demo_world
      (issue demo_request (codes "admin") (codes "r1") demo demo_world).1
unfolding issue validate_ttl catalog build_statements mutate_statements new_grant_id begin end_op
    get_grant introspect_credentials call ask asks gets modify time lift pure raise finally try_else
    ◌>>=◌ ◌>>◌ plain_names matches_identifier is_head is_word fromkeys text_eq has_part starts_with
    join command_list chosen_tables all_sequence_grants valid_identifier insert_grant update_grant
    audit write_role point create_grant_token read_credentials ◌+ℤ◌ find_row update_rows insert_row
    public_view
issue-Returns_example =
    issue-Returns demo_request (codes "admin") (codes "r1") demo demo_world
      (issue demo_request (codes "admin") (codes "r1") demo demo_world).1
      (public_view issued_row, codes "pw") refl
