-- ===== src/Introspect/Frames.antt =====
-- What db_introspect.py does respects every frame.
use vault_db_access.Prelude.{Text, ◌++◌, codes}
use vault_db_access.Models.{DbType, postgres, clickhouse}
use vault_db_access.Effects.{
  World, ask, query, Query, table_names, owned_sequences, accounts_like, accounts_from,
  count_backends,
}
use vault_db_access.Effects.Frame.{Frame, Follows, Follows-bind, Follows-ask, Follows-pure}
use vault_db_access.Vault.{introspect_credentials}
use vault_db_access.Vault.Frames.{Follows-introspect_credentials}
use vault_db_access.Introspect.{run_query, catalog, leftover_users, find_accounts, pg_backends}

module _ {R : World → World → Type 0} where
  Follows-run_query : (fr : Frame R) (db : DbType) (q : Query) → Follows R (run_query db q)
  unfolding run_query
  Follows-run_query fr db q =
      Follows-bind fr (introspect_credentials db) (λ c. ask (query db c q))
        (Follows-introspect_credentials fr db) (λ c. Follows-ask fr (query db c q))

  pub Follows-find_accounts :
      (fr : Frame R) (db : DbType) (grant_id : Text) → Follows R (find_accounts db grant_id)
  unfolding find_accounts
  Follows-find_accounts fr db grant_id =
      Follows-run_query fr db (accounts_from (grant_id ++ codes "_"))

  pub Follows-pg_backends : (fr : Frame R) (account : Text) → Follows R (pg_backends account)
  unfolding pg_backends
  Follows-pg_backends fr account = Follows-run_query fr postgres (count_backends account)

  pub Follows-leftover_users : (fr : Frame R) (db : DbType) → Follows R (leftover_users db)
  unfolding leftover_users
  Follows-leftover_users fr db = Follows-run_query fr db (accounts_like (codes "vdba\\_%"))

  pub Follows-catalog : (fr : Frame R) (db : DbType) → Follows R (catalog db)
  unfolding catalog
  Follows-catalog fr postgres =
      Follows-bind fr (introspect_credentials postgres) _
        (Follows-introspect_credentials fr postgres)
        (λ c.
          Follows-bind fr (ask (query postgres c table_names)) _
            (Follows-ask fr (query postgres c table_names))
            (λ names.
              Follows-bind fr (ask (query postgres c owned_sequences)) _
                (Follows-ask fr (query postgres c owned_sequences)) (λ rows. Follows-pure fr _)))
  Follows-catalog fr clickhouse =
      Follows-bind fr (run_query clickhouse table_names) _
        (Follows-run_query fr clickhouse table_names) (λ names. Follows-pure fr _)
