-- ===== src/Grants/Frames.antt =====
-- What `_teardown` does before it writes to the store, and what `issue` does outside it, respects
-- every frame.
use vault_db_access.Prelude.{
  ℕ, zero, suc, Option, none, some, List, [], ◌∷◌, eq_Text, fromkeys, Text,
}
use vault_db_access.Models.{DbType, postgres, clickhouse}
use vault_db_access.Rows.{Grant}
use vault_db_access.Effects.{World, ◌>>=◌, pure, token_hex, sleep, ask, time}
use vault_db_access.Effects.Frame.{
  Frame, Follows, Follows-pure, Follows-raise, Follows-out_of_rounds, Follows-lift, Follows-bind,
  Follows-then, Follows-if, Follows-ask, Follows-time, Follows-for_each,
}
use vault_db_access.Vault.{find_token_accessors, revoke_lease, revoke_accessor}
use vault_db_access.Vault.Frames.{
  Follows-run_as_manager, Follows-find_token_accessors, Follows-list_leases, Follows-revoke_lease,
  Follows-revoke_accessor, Follows-delete_role,
}
use vault_db_access.Introspect.{find_accounts, pg_backends}
use vault_db_access.Introspect.Frames.{Follows-find_accounts, Follows-pg_backends}
use vault_db_access.Grants.Teardown.{
  run_statements, terminate_loop, lock_out_and_terminate, accessors_of, drop_account, finish_gone,
  confirm_gone, teardown_steps, rounds_enough,
}

module _ {R : World → World → Type 0} where
  pub Follows-run_statements :
      (fr : Frame R) (db : DbType) (grant_id : Text) (ss : List Text)
      → Follows R (run_statements db grant_id ss)
  unfolding run_statements
  Follows-run_statements fr db grant_id [] = Follows-pure fr tt
  Follows-run_statements fr db grant_id (s ∷ ss) =
      Follows-bind fr (ask (token_hex 2)) _ (Follows-ask fr (token_hex 2))
        (λ digits. Follows-run_as_manager fr db _ (s ∷ ss))

  pub Follows-terminate_loop :
      (fr : Frame R) (rounds deadline : ℕ) (account grant_id : Text)
      → Follows R (terminate_loop rounds deadline account grant_id)
  unfolding terminate_loop
  Follows-terminate_loop fr zero deadline account grant_id = Follows-out_of_rounds fr
  Follows-terminate_loop fr (suc rounds) deadline account grant_id =
      let again = Follows-terminate_loop fr rounds deadline account grant_id in
      Follows-bind fr (pg_backends account) _ (Follows-pg_backends fr account) (λ alive.
        Follows-if _ _ _ (Follows-pure fr tt) (
          Follows-bind fr time _ (Follows-time fr) (λ now. Follows-if _ _ _ (Follows-raise fr _) (
            Follows-bind fr _ _ (Follows-lift fr _) (λ ss.
              Follows-then fr _ _ (Follows-run_statements fr postgres grant_id ss)
                (Follows-then fr (ask sleep) _ (Follows-ask fr sleep) again))))))

  pub Follows-lock_out_and_terminate :
      (fr : Frame R) (db : DbType) (account grant_id : Text)
      → Follows R (lock_out_and_terminate db account grant_id)
  unfolding lock_out_and_terminate
  Follows-lock_out_and_terminate fr clickhouse account grant_id = Follows-pure fr tt
  Follows-lock_out_and_terminate fr postgres account grant_id =
      Follows-bind fr _ _ (Follows-lift fr _) (λ ss.
        Follows-then fr _ _ (Follows-run_statements fr postgres grant_id ss) (
          Follows-bind fr time _ (Follows-time fr)
            (λ now. Follows-terminate_loop fr rounds_enough _ account grant_id)))

  Follows-found :
      (fr : Frame R) (grant_id : Text)
      → Follows R (do found ← find_token_accessors grant_id; pure (fromkeys found))
  Follows-found fr grant_id =
      Follows-bind fr (find_token_accessors grant_id) _ (Follows-find_token_accessors fr grant_id)
        (λ found. Follows-pure fr _)

  pub Follows-accessors_of :
      (fr : Frame R) (grant_id : Text) (o : Option Text) → Follows R (accessors_of grant_id o)
  Follows-accessors_of fr grant_id none = Follows-found fr grant_id
  Follows-accessors_of fr grant_id (some []) = Follows-found fr grant_id
  Follows-accessors_of fr grant_id (some (c ∷ s)) = Follows-pure fr _

  pub Follows-drop_account :
      (fr : Frame R) (db : DbType) (grant_id account : Text)
      → Follows R (drop_account db grant_id account)
  unfolding drop_account
  Follows-drop_account fr db grant_id account =
      Follows-then fr _ _ (Follows-lock_out_and_terminate fr db account grant_id)
        (Follows-bind fr _ _ (Follows-lift fr _) (λ ss. Follows-run_statements fr db grant_id ss))

  pub Follows-finish_gone :
      (fr : Frame R) (grant_id : Text) (accessors left : List Text)
      → Follows R (finish_gone grant_id accessors left)
  Follows-finish_gone fr grant_id accessors [] =
      Follows-then fr _ _
        (Follows-for_each fr accessors revoke_accessor (Follows-revoke_accessor fr))
        (Follows-delete_role fr grant_id)
  Follows-finish_gone fr grant_id accessors (a ∷ as') = Follows-raise fr _

  Follows-confirm_gone :
      (fr : Frame R) (db : DbType) (grant_id : Text) (accessors : List Text)
      → Follows R (confirm_gone db grant_id accessors)
  unfolding confirm_gone
  Follows-confirm_gone fr db grant_id accessors =
      Follows-bind fr (find_accounts db grant_id) _ (Follows-find_accounts fr db grant_id)
        (Follows-finish_gone fr grant_id accessors)

  pub Follows-teardown_steps :
      (fr : Frame R) (grant_id : Text) (g : Grant) → Follows R (teardown_steps grant_id g)
  unfolding teardown_steps
  Follows-teardown_steps fr grant_id g =
      Follows-bind fr _ _ (Follows-accessors_of fr grant_id g.token_accessor) (λ accessors.
        Follows-bind fr _ _ (Follows-find_accounts fr g.db_type grant_id) (λ accounts.
          Follows-then fr _ _
            (Follows-for_each fr accounts _
              (λ a. Follows-lock_out_and_terminate fr g.db_type a grant_id))
            (Follows-bind fr _ _ (Follows-list_leases fr grant_id) (λ listed.
              Follows-then fr _ _ (Follows-for_each fr _ revoke_lease (Follows-revoke_lease fr)) (
                Follows-bind fr _ _ (Follows-find_accounts fr g.db_type grant_id) (λ again.
                  Follows-then fr _ _
                    (Follows-for_each fr again _ (Follows-drop_account fr g.db_type grant_id))
                    (Follows-confirm_gone fr g.db_type grant_id accessors)))))))
