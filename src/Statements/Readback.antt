-- ===== src/Statements/Readback.antt =====
-- What a successful build of the creation statements grants, in an independent reading of the texts.
use vault_db_access.Prelude.{
  ◌≡◌, refl, ap, ◌∙◌, Bool, true, false, List, [], ◌∷◌, ◌++◌, arith, eq_ℕ, eq_Text, if◌then◌else◌,
  all, contains, fromkeys, map, map-append, distinct, Text, codes, Result, ok, ◌>>=◌, join,
  has_part, ok->>=,
}
use vault_db_access.Models.{Scope}
use vault_db_access.Statements.Templates.{
  insert_command, allowed_postgres_commands, allowed_clickhouse_commands, command_list, Sequences,
  create_role, grant_connect, grant_schema, grant_table, postgres_revocation, all_sequence_grants,
  build_postgres_statements, create_user, grant_clickhouse, clickhouse_revocation,
  build_clickhouse_statements, chosen_tables,
}
use vault_db_access.Statements.Quoting.{split}
use vault_db_access.Statements.Pieces.{
  quote, backquote, table_pieces, sequence_pieces, clickhouse_pieces,
}
use vault_db_access.Statements.Commands.{command_list-eq-ok, insert-in-command_list}
use vault_db_access.Statements.Chosen.{IsChosen, grantable, chosen_tables-IsChosen}
use vault_db_access.Statements.Creation.{
  command_list-not-contains, map-split-tables, map-split-sequences, map-split-clickhouse, owned_by,
  all_sequence_grants-eq-ok,
}

-- The three statements before the tables': the account, the connection and the schema.
abbrev pub opening : List Text
opening = create_role ∷ grant_connect ∷ grant_schema ∷ []

-- The sequences that are granted: those of the chosen tables, if INSERT was requested.
abbrev pub usable : List Text → Sequences → List Text → List Text
usable commands sequences chosen =
    if contains commands insert_command then owned_by sequences chosen else []

-- `creation`, cut at its double quotes, is the opening, then a grant of the commands on each chosen
-- table, then the use of each sequence.
pub record PostgresGrants (scope : Scope) (tables commands known : List Text)
    (sequences : Sequences) (creation : List Text) : Type 0 where
  pub chosen : List Text
  pub is_chosen : IsChosen scope tables known chosen
  pub permitted : all (contains allowed_postgres_commands) commands ≡ true
  pub read_back :
      map (split quote) creation
      ≡ map (split quote) opening
        ++ (map (table_pieces (join (codes ", ") (fromkeys commands))) chosen
            ++ map sequence_pieces (usable commands sequences chosen))

usage-eq-ok :
    (b : Bool) (sequences : Sequences) (chosen usage : List Text)
    → (if b then all_sequence_grants sequences chosen else ok []) ≡ ok usage
    → map (split quote) usage ≡ map sequence_pieces (if b then owned_by sequences chosen else [])
usage-eq-ok true sequences chosen usage h =
    let (e, fine) = all_sequence_grants-eq-ok sequences chosen usage h in
    rw e (map-split-sequences (owned_by sequences chosen) fine)
usage-eq-ok false sequences chosen usage h = ground arith

assemble :
    (cmds : Text) (known chosen usage seqs : List Text)
    → contains cmds quote ≡ false
    → all (grantable known) chosen ≡ true
    → map (split quote) usage ≡ map sequence_pieces seqs
    → map
        (split quote)
        ((create_role ∷ grant_connect ∷ grant_schema ∷ map (grant_table cmds) chosen) ++ usage)
      ≡ map (split quote) opening ++ (map (table_pieces cmds) chosen ++ map sequence_pieces seqs)
assemble cmds known chosen usage seqs free fine e =
    ap (λ (l : List (List Text)). map (split quote) opening ++ l)
      (map-append (split quote) (map (grant_table cmds) chosen) usage
        ∙ cc (map-split-tables cmds known chosen free fine, e))

abbrev finish_postgres : Sequences → Text → List Text → Result (List Text × List Text)
finish_postgres sequences cmds chosen = do
  usage ← if has_part insert_command cmds then all_sequence_grants sequences chosen else ok []
  ok (
    (create_role ∷ grant_connect ∷ grant_schema ∷ map (grant_table cmds) chosen) ++ usage,
    postgres_revocation,
  )

-- If the known tables are listed once each and the PostgreSQL statements are built, every requested
-- command is an allowed one, the chosen tables are valid known names without repetition, exactly those
-- that were requested (all known ones for the scope `database`), and the creation statements, cut at
-- their double quotes, are the three fixed ones, then one grant of the joined commands on each chosen
-- table, then, only if INSERT was requested, the use of each sequence owned by a chosen table.
pub build_postgres-grants :
    (scope : Scope) (tables commands known : List Text) (sequences : Sequences)
    (creation revocation : List Text)
    → distinct known ≡ true
    → build_postgres_statements scope tables commands known sequences ≡ ok (creation, revocation)
    → PostgresGrants scope tables commands known sequences creation
unfolding build_postgres_statements
build_postgres-grants scope tables commands known sequences creation revocation d h =
    let (cmds, listed, h1) =
      ok->>= (command_list commands allowed_postgres_commands)
        (λ (cmds : Text). chosen_tables scope tables known >>= finish_postgres sequences cmds) h in
    let (chosen, found, h2) =
      ok->>= (chosen_tables scope tables known) (finish_postgres sequences cmds) h1 in
    let (usage, used, h3) =
      ok->>= (if has_part insert_command cmds then all_sequence_grants sequences chosen else ok [])
        (λ (usage : List Text). ok (
          (create_role ∷ grant_connect ∷ grant_schema ∷ map (grant_table cmds) chosen) ++ usage,
          postgres_revocation,
        ))
        h2 in
    let (permitted, _, made) = command_list-eq-ok commands allowed_postgres_commands cmds listed in
    let good = chosen_tables-IsChosen scope tables known chosen d found in
    let free =
      command_list-not-contains quote commands allowed_postgres_commands cmds listed refl refl in
    let used' : (if contains commands insert_command
          then all_sequence_grants sequences chosen
          else ok [])
        ≡ ok usage =
      rw (insert-in-command_list commands cmds listed) at used in
    let back : creation
        ≡ (create_role ∷ grant_connect ∷ grant_schema ∷ map (grant_table cmds) chosen) ++ usage =
      ground arith in
    record {
      chosen = chosen;
      is_chosen = good;
      permitted = permitted;
      read_back =
          rw (back, ← made)
            (assemble cmds known chosen usage (usable commands sequences chosen) free good.0
              (usage-eq-ok (contains commands insert_command) sequences chosen usage used'));
    }

-- The same for ClickHouse, whose grants quote the table by back quotes; it has no sequences.
pub record ClickhouseGrants (scope : Scope) (tables commands known : List Text)
    (creation : List Text) : Type 0 where
  pub chosen : List Text
  pub is_chosen : IsChosen scope tables known chosen
  pub permitted : all (contains allowed_clickhouse_commands) commands ≡ true
  pub read_back :
      map (split backquote) creation
      ≡ split backquote create_user
        ∷ map (clickhouse_pieces (join (codes ", ") (fromkeys commands))) chosen

-- If the known tables are listed once each and the ClickHouse statements are built, every requested
-- command is an allowed one, the chosen tables are valid known names without repetition, exactly those
-- that were requested (all known ones for the scope `database`), and the creation statements, cut at
-- their back quotes, are that of the user and one grant of the joined commands on each chosen table.
pub build_clickhouse-grants :
    (scope : Scope) (tables commands known creation revocation : List Text)
    → distinct known ≡ true
    → build_clickhouse_statements scope tables commands known ≡ ok (creation, revocation)
    → ClickhouseGrants scope tables commands known creation
unfolding build_clickhouse_statements
build_clickhouse-grants scope tables commands known creation revocation d h =
    let finish = λ (cmds : Text) (chosen : List Text).
      ok (create_user ∷ map (grant_clickhouse cmds) chosen, clickhouse_revocation) in
    let (cmds, listed, h1) =
      ok->>= (command_list commands allowed_clickhouse_commands)
        (λ (cmds : Text). chosen_tables scope tables known >>= finish cmds) h in
    let (chosen, found, h2) = ok->>= (chosen_tables scope tables known) (finish cmds) h1 in
    let (permitted, _, made) =
      command_list-eq-ok commands allowed_clickhouse_commands cmds listed in
    let good = chosen_tables-IsChosen scope tables known chosen d found in
    let free =
      command_list-not-contains backquote commands allowed_clickhouse_commands cmds listed refl
        refl in
    let back : creation ≡ create_user ∷ map (grant_clickhouse cmds) chosen = ground arith in
    record {
      chosen = chosen;
      is_chosen = good;
      permitted = permitted;
      read_back =
          rw (back, ← made)
            (ap (λ (l : List (List Text)). split backquote create_user ∷ l)
              (map-split-clickhouse cmds known chosen free good.0));
    }
