-- ===== src/Introspect.antt =====
-- middleware/app/db_introspect.py
use vault_db_access.Prelude.{
  ℕ, Bool, true, false, ◌&&◌, List, [], ◌∷◌, ◌++◌, keep, ◌==◌, eq_Text, if◌then◌else◌, contains,
  Text, codes,
}
use vault_db_access.Models.{DbType, postgres, clickhouse}
use vault_db_access.Statements.{Sequences, matches_identifier}
use vault_db_access.Effects.{
  M, Call, query, Query, QueryReply, table_names, owned_sequences, accounts_like, accounts_from,
  count_backends, ask, pure, ◌>>=◌, ◌>>◌,
}
use vault_db_access.Vault.{introspect_credentials}
pub mod Frames
pub mod Halts

pub record Catalog : Type 0 where
  pub tables : List Text
  pub sequences : Sequences

-- A connection, with the credentials read for it, and one query on it.
unfoldable pub run_query : DbType → (q : Query) → M (QueryReply q)
run_query db q = do credentials ← introspect_credentials db; ask (query db credentials q)

-- `_ok`
unfoldable pub plain_names : List Text → List Text
plain_names = keep matches_identifier

-- `seqs.setdefault(table, []).append(seq)`
unfoldable pub add_sequence : Text → Text → Sequences → Sequences
add_sequence t seq [] = (t, seq ∷ []) ∷ []
add_sequence t seq ((u, seqs) ∷ rest) =
    if u == t then (u, seqs ++ (seq ∷ [])) ∷ rest else (u, seqs) ∷ add_sequence t seq rest

unfoldable pub collect_sequences : List Text → Sequences → List (Text × Text) → Sequences
unfolding add_sequence
collect_sequences tables acc [] = acc
collect_sequences tables acc ((table, seq) ∷ rows) =
    collect_sequences tables
      (if contains tables table && matches_identifier seq then add_sequence table seq acc else acc)
      rows

-- `postgres_catalog`: both queries are made on one connection
unfoldable pub postgres_catalog : M Catalog
unfolding plain_names collect_sequences
postgres_catalog = do
  credentials ← introspect_credentials postgres
  names ← ask (query postgres credentials table_names)
  rows ← ask (query postgres credentials owned_sequences)
  let tables = plain_names names
  pure (record { tables = tables; sequences = collect_sequences tables [] rows })

unfoldable pub clickhouse_catalog : M Catalog
unfolding run_query plain_names
clickhouse_catalog = do
  names ← run_query clickhouse table_names
  pure (record { tables = plain_names names; sequences = [] })

unfoldable pub catalog : DbType → M Catalog
unfolding postgres_catalog clickhouse_catalog
catalog postgres = postgres_catalog
catalog clickhouse = clickhouse_catalog

-- `config.ROLE_PREFIX` with its `_` escaped, and `%`
unfoldable pub leftover_users : DbType → M (List Text)
unfolding run_query
leftover_users db = run_query db (accounts_like (codes "vdba\\_%"))

unfoldable pub find_accounts : DbType → Text → M (List Text)
unfolding run_query
find_accounts db grant_id = run_query db (accounts_from (grant_id ++ codes "_"))

unfoldable pub pg_backends : Text → M ℕ
unfolding run_query
pg_backends account = run_query postgres (count_backends account)
