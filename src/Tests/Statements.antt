-- ===== src/Tests/Statements.antt =====
-- statement_builder.py on concrete requests.
use vault_db_access.Prelude.{
  ◌≡◌, refl, some, List, [], ◌∷◌, Text, codes, contains, eq_Text, has_part, text_eq, fromkeys, join,
  starts_with,
}
use vault_db_access.Models.{Scope}
use vault_db_access.Statements.{
  command_list, insert_command, Sequences, build_postgres_statements, build_clickhouse_statements,
  grant_table, create_role, grant_connect, grant_schema, grant_sequence, postgres_revocation,
  create_user, grant_clickhouse, clickhouse_revocation, chosen_tables, all_sequence_grants,
  valid_identifier, matches_identifier, is_head, is_word,
}
use vault_db_access.Models.{clickhouse}
use vault_db_access.Statements.{
  lockout_statements, terminate_statements, drop_statements, matches_account,
}
use vault_db_access.Statements.Accounts.{
  read_back, lockout_pieces, terminate_pieces, drop_pieces, maintenance-pieces,
}
use vault_db_access.Statements.Commands.{insert-in-command_list}
use vault_db_access.Statements.Readback.{
  PostgresGrants, ClickhouseGrants, build_postgres-grants, build_clickhouse-grants,
}

abbrev read_insert : List Text
read_insert = codes "SELECT" ∷ codes "INSERT" ∷ codes "SELECT" ∷ []

insert-in-command_list_example :
    has_part insert_command (codes "SELECT, INSERT") ≡ contains read_insert insert_command
unfolding command_list text_eq fromkeys join
insert-in-command_list_example = insert-in-command_list read_insert (codes "SELECT, INSERT") refl

abbrev known_tables : List Text
known_tables = codes "customers" ∷ codes "orders" ∷ []

abbrev catalog_sequences : Sequences
catalog_sequences = (codes "customers", codes "customers_id_seq" ∷ []) ∷ []

abbrev wanted : List Text
wanted = codes "customers" ∷ codes "customers" ∷ []

abbrev postgres_creation : List Text
postgres_creation =
    create_role
    ∷ grant_connect
    ∷ grant_schema
    ∷ grant_table (codes "SELECT, INSERT") (codes "customers")
    ∷ grant_sequence (codes "customers_id_seq")
    ∷ []

build_postgres-grants_example :
    PostgresGrants Scope.tables wanted read_insert known_tables catalog_sequences postgres_creation
unfolding build_postgres_statements command_list chosen_tables all_sequence_grants valid_identifier
    matches_identifier is_head is_word text_eq fromkeys join has_part starts_with
build_postgres-grants_example =
    build_postgres-grants Scope.tables wanted read_insert known_tables catalog_sequences
      postgres_creation postgres_revocation refl refl

abbrev clickhouse_creation : List Text
clickhouse_creation =
    create_user
    ∷ grant_clickhouse (codes "SELECT, INSERT") (codes "customers")
    ∷ grant_clickhouse (codes "SELECT, INSERT") (codes "orders")
    ∷ []

build_clickhouse-grants_example :
    ClickhouseGrants Scope.database [] read_insert known_tables clickhouse_creation
unfolding build_clickhouse_statements command_list chosen_tables matches_identifier is_head is_word
    text_eq fromkeys join
build_clickhouse-grants_example =
    build_clickhouse-grants Scope.database [] read_insert known_tables clickhouse_creation
      clickhouse_revocation refl refl

abbrev leftover : Text
leftover = codes "vdba_0123456789_abcdef"

maintenance-pieces_example :
    (read_back (lockout_statements clickhouse leftover) ≡ some (lockout_pieces clickhouse leftover))
    × (read_back (terminate_statements clickhouse leftover)
        ≡ some (terminate_pieces clickhouse leftover))
    × (read_back (drop_statements clickhouse leftover) ≡ some (drop_pieces clickhouse leftover))
unfolding matches_account text_eq
maintenance-pieces_example = maintenance-pieces clickhouse leftover
