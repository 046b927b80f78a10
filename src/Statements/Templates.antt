-- ===== src/Statements/Templates.antt =====
-- `statement_builder.py` down to `build_statements`: validation of what goes into the texts, and the
-- creation and revocation statements of a grant.
use vault_db_access.Prelude.{
  ℕ, Bool, true, false, ◌&&◌, ◌||◌, List, [], ◌∷◌, ◌++◌, map, ◌==◌, eq_ℕ, eq_Text, leb,
  if◌then◌else◌, length, all, contains, fromkeys, Text, codes, join, has_part, value_error, Message,
  invalid_identifier, no_command, command_not_allowed, no_tables_in_schema, no_table_selected,
  unknown_table, Result, ok, err, ◌>>=◌, ◌>>◌,
}
use vault_db_access.Models.{DbType, postgres, clickhouse, Scope}

abbrev pub is_letter : ℕ → Bool
is_letter c = (leb b'A' c && leb c b'Z') || (leb b'a' c && leb c b'z')

abbrev pub is_digit : ℕ → Bool
is_digit c = leb b'0' c && leb c b'9'

-- `[A-Za-z_]` and `[A-Za-z0-9_]`
unfoldable pub is_head : ℕ → Bool
is_head c = is_letter c || c == b'_'

unfoldable pub is_word : ℕ → Bool
is_word c = is_letter c || is_digit c || c == b'_'

-- `IDENTIFIER_RE.fullmatch(name)`
unfoldable pub matches_identifier : Text → Bool
matches_identifier [] = false
matches_identifier (c ∷ cs) = is_head c && all is_word cs && leb (length cs) 62

unfoldable pub valid_identifier : Text → Result Text
valid_identifier name =
    if matches_identifier name then ok name else err (value_error (invalid_identifier name))

-- `config.ALLOWED_POSTGRES_COMMANDS`, `config.ALLOWED_CLICKHOUSE_COMMANDS`, and the databases' name.
abbrev pub insert_command : Text
insert_command = codes "INSERT"

abbrev pub allowed_postgres_commands : List Text
allowed_postgres_commands = codes "SELECT" ∷ insert_command ∷ codes "UPDATE" ∷ codes "DELETE" ∷ []

abbrev pub allowed_clickhouse_commands : List Text
allowed_clickhouse_commands =
    codes "SELECT" ∷ insert_command ∷ codes "ALTER UPDATE" ∷ codes "ALTER DELETE" ∷ []

-- The loop over the commands in `_commands`.
unfoldable pub check_commands : List Text → List Text → Result (Unit {0})
check_commands [] allowed = ok tt
check_commands (cmd ∷ rest) allowed =
    if contains allowed cmd
    then check_commands rest allowed
    else err (value_error (command_not_allowed cmd))

-- `_commands`
unfoldable pub command_list : List Text → List Text → Result Text
unfolding check_commands
command_list [] allowed = err (value_error no_command)
command_list (c ∷ cs) allowed = do
  check_commands (c ∷ cs) allowed
  ok (join (codes ", ") (fromkeys (c ∷ cs)))

-- Python's order on `str`, and `sorted`.
unfoldable pub text_le : Text → Text → Bool
text_le [] t = true
text_le (a ∷ s) [] = false
text_le (a ∷ s) (b ∷ t) = if a == b then text_le s t else leb a b

unfoldable pub insert_sorted : Text → List Text → List Text
unfolding text_le
insert_sorted t [] = t ∷ []
insert_sorted t (u ∷ us) = if text_le t u then t ∷ u ∷ us else u ∷ insert_sorted t us

unfoldable pub sorted : List Text → List Text
unfolding insert_sorted
sorted [] = []
sorted (t ∷ ts) = insert_sorted t (sorted ts)

-- The loop over the chosen tables in `_tables`.
unfoldable pub check_tables : List Text → List Text → Result (Unit {0})
unfolding valid_identifier matches_identifier is_head is_word
check_tables [] known = ok tt
check_tables (t ∷ ts) known = do
  valid_identifier t
  if contains known t then check_tables ts known else err (value_error (unknown_table t))

-- `_tables`; a Python set is a list without repetition.
abbrev pub or_empty : List Text → Message → Result (List Text)
or_empty [] m = err (value_error m)
or_empty (t ∷ ts) m = ok (t ∷ ts)

unfoldable pub chosen_tables : Scope → List Text → List Text → Result (List Text)
unfolding check_tables sorted
chosen_tables Scope.database tables known = do
  chosen ← or_empty (sorted known) no_tables_in_schema
  check_tables chosen known
  ok chosen
chosen_tables Scope.tables tables known = do
  chosen ← or_empty (fromkeys tables) no_table_selected
  check_tables chosen known
  ok chosen

-- The fixed texts.
unfoldable pub create_role : Text
create_role =
    codes
      "CREATE ROLE \"{{name}}\" WITH LOGIN PASSWORD '{{password}}' VALID UNTIL '{{expiration}}' CONNECTION LIMIT 5;"

unfoldable pub grant_connect : Text
grant_connect = codes "GRANT CONNECT ON DATABASE \"appdb\" TO \"{{name}}\";"

unfoldable pub grant_schema : Text
grant_schema = codes "GRANT USAGE ON SCHEMA \"public\" TO \"{{name}}\";"

unfoldable pub grant_table : Text → Text → Text
grant_table cmds t =
    codes "GRANT "
    ++ (cmds ++ (codes " ON TABLE \"public\".\"" ++ (t ++ codes "\" TO \"{{name}}\";")))

unfoldable pub grant_sequence : Text → Text
grant_sequence seq =
    codes "GRANT USAGE ON SEQUENCE \"public\".\"" ++ (seq ++ codes "\" TO \"{{name}}\";")

unfoldable pub postgres_revocation : List Text
postgres_revocation = codes "SELECT vdba.cleanup_role('{{name}}');" ∷ []

-- `sequences.get(t, [])`
abbrev pub Sequences : Type 0
Sequences = List (Text × List Text)

unfoldable pub owned : Sequences → Text → List Text
owned [] t = []
owned ((u, seqs) ∷ rest) t = if u == t then seqs else owned rest t

-- The inner and the outer loop over the sequences.
unfoldable pub sequence_grants : List Text → Result (List Text)
sequence_grants [] = ok []
sequence_grants (seq ∷ seqs) = do
  valid_identifier seq
  rest ← sequence_grants seqs
  ok (grant_sequence seq ∷ rest)

unfoldable pub all_sequence_grants : Sequences → List Text → Result (List Text)
unfolding sequence_grants owned
all_sequence_grants sequences [] = ok []
all_sequence_grants sequences (t ∷ ts) = do
  here ← sequence_grants (owned sequences t)
  rest ← all_sequence_grants sequences ts
  ok (here ++ rest)

unfoldable pub build_postgres_statements :
    Scope → List Text → List Text → List Text → Sequences → Result (List Text × List Text)
build_postgres_statements scope tables commands known sequences = do
  cmds ← command_list commands allowed_postgres_commands
  chosen ← chosen_tables scope tables known
  let start = create_role ∷ grant_connect ∷ grant_schema ∷ map (grant_table cmds) chosen
  usage ← if has_part insert_command cmds then all_sequence_grants sequences chosen else ok []
  ok (start ++ usage, postgres_revocation)

unfoldable pub create_user : Text
create_user =
    codes
      "CREATE USER '{{name}}' IDENTIFIED WITH sha256_password BY '{{password}}' VALID UNTIL '{{expiration}}';"

unfoldable pub grant_clickhouse : Text → Text → Text
grant_clickhouse cmds t =
    codes "GRANT " ++ (cmds ++ (codes " ON `appdb`.`" ++ (t ++ codes "` TO '{{name}}';")))

unfoldable pub clickhouse_revocation : List Text
clickhouse_revocation =
    codes "KILL QUERY WHERE user = '{{name}}' SYNC;" ∷ codes "DROP USER IF EXISTS '{{name}}';" ∷ []

unfoldable pub build_clickhouse_statements :
    Scope → List Text → List Text → List Text → Result (List Text × List Text)
build_clickhouse_statements scope tables commands known = do
  cmds ← command_list commands allowed_clickhouse_commands
  chosen ← chosen_tables scope tables known
  ok (create_user ∷ map (grant_clickhouse cmds) chosen, clickhouse_revocation)

unfoldable pub build_statements :
    DbType → Scope → List Text → List Text → List Text → Sequences → Result (List Text × List Text)
unfolding build_postgres_statements build_clickhouse_statements
build_statements postgres scope tables commands known sequences =
    build_postgres_statements scope tables commands known sequences
build_statements clickhouse scope tables commands known sequences =
    build_clickhouse_statements scope tables commands known
