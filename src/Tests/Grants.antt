-- ===== src/Tests/Grants.antt =====
-- grants.py on the small environment.
use vault_db_access.Prelude.{◌≡◌, refl, List, [], ◌∷◌, codes}
use vault_db_access.Models.{active}
use vault_db_access.Effects.{
  done, ask, asks, gets, modify, time, lift, pure, raise, finally, try_else, ◌>>=◌, ◌>>◌,
}
use vault_db_access.Prelude.{fromkeys, text_eq, has_part, starts_with, join}
use vault_db_access.Prelude.Int.{◌+ℤ◌}
use vault_db_access.Rows.{find_row, update_rows, insert_row}
use vault_db_access.Statements.{
  build_statements, matches_identifier, is_head, is_word, command_list, chosen_tables,
  all_sequence_grants, valid_identifier,
}
use vault_db_access.Store.{get_grant, new_grant_id, insert_grant, update_grant, audit}
use vault_db_access.Vault.{
  introspect_credentials, call, write_role, create_grant_token, read_credentials,
}
use vault_db_access.Introspect.{catalog, plain_names}
use vault_db_access.Faults.{mutate_statements, point}
use vault_db_access.Grants.{issue, PublicGrant, validate_ttl, begin, end_op, public_view}
use vault_db_access.Grants.Lifecycle.{
  Operation, issue_op, revoke_op, reconcile_op, restart_op, Lives, perform_all, perform_all-Lives,
}
use vault_db_access.Demo.{demo, demo_world, demo_request}

abbrev working_day : List Operation
working_day =
    issue_op demo_request (codes "admin") (codes "r1")
    ∷ revoke_op (codes "vdba_aaaaaaaaaa") (codes "admin") (codes "r2")
    ∷ restart_op
    ∷ reconcile_op
    ∷ []

perform_all-Lives_example : Lives demo_world (perform_all demo working_day demo_world)
perform_all-Lives_example = perform_all-Lives demo working_day demo_world

-- A request is granted: the row is active and the password comes back once.
issue_succeeds :
    (p : PublicGrant) × ((issue demo_request (codes "admin") (codes "r1") demo demo_world).0
      ≡ done (p, codes "pw"))
    × (p.status ≡ active)
unfolding issue validate_ttl catalog build_statements mutate_statements new_grant_id begin end_op
    get_grant introspect_credentials call ask asks gets modify time lift pure raise finally try_else
    ◌>>=◌ ◌>>◌ plain_names matches_identifier is_head is_word fromkeys text_eq has_part starts_with
    join command_list chosen_tables all_sequence_grants valid_identifier insert_grant update_grant
    audit write_role point create_grant_token read_credentials ◌+ℤ◌ find_row update_rows insert_row
    public_view
issue_succeeds = (_, refl, refl)
