-- ===== src/Introspect/Halts.antt =====
-- The queries end.
use vault_db_access.Prelude.{codes}
use vault_db_access.Models.{DbType, postgres, clickhouse}
use vault_db_access.Effects.{Env, Query, query, accounts_like, table_names, owned_sequences}
use vault_db_access.Effects.Halts.{RunsOn, Halts, Halts-pure, Halts-ask, Halts-bind}
use vault_db_access.Vault.Halts.{Halts-introspect_credentials}
use vault_db_access.Introspect.{
  clickhouse_catalog, postgres_catalog, run_query, catalog, leftover_users,
}

module _ {env : Env} (on : RunsOn env) where
  pub Halts-run_query : (db : DbType) (q : Query) → Halts env (run_query db q)
  unfolding run_query
  Halts-run_query db q =
      Halts-bind _ _ (Halts-introspect_credentials on db) (λ c. Halts-ask on (query db c q))

  pub Halts-leftover_users : (db : DbType) → Halts env (leftover_users db)
  unfolding leftover_users
  Halts-leftover_users db = Halts-run_query db (accounts_like (codes "vdba\\_%"))

  pub Halts-catalog : (db : DbType) → Halts env (catalog db)
  unfolding catalog postgres_catalog clickhouse_catalog
  Halts-catalog postgres = Halts-bind _ _ (Halts-introspect_credentials on postgres) (λ c.
      Halts-bind _ _ (Halts-ask on (query postgres c table_names)) (λ names.
        Halts-bind _ _ (Halts-ask on (query postgres c owned_sequences)) (λ rows. Halts-pure _)))
  Halts-catalog clickhouse =
      Halts-bind _ _ (Halts-run_query clickhouse table_names) (λ names. Halts-pure _)
