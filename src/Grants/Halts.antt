-- ===== src/Grants/Halts.antt =====
-- `revoke` and `_teardown` end.
use vault_db_access.Prelude.{
  Bool, Option, none, some, List, [], ◌∷◌, ◌++◌, eq_Text, Text, Exn, is_exception, codes,
}
use vault_db_access.Models.{DbType, Status, is_terminal}
use vault_db_access.Rows.{Grant, Field}
use vault_db_access.Effects.{Env, query, accounts_from}
use vault_db_access.Effects.Halts.{
  RunsOn, Halts, Halts-pure, Halts-raise, Halts-lift, Halts-gets, Halts-if, Halts-modify, Halts-ask,
  Halts-time, Halts-bind, Halts-then, Halts-try_else, Halts-finally, Halts-for_each,
}
use vault_db_access.Vault.{revoke_accessor, revoke_lease}
use vault_db_access.Vault.Halts.{
  Halts-introspect_credentials, Halts-find_token_accessors, Halts-list_leases, Halts-revoke_lease,
  Halts-revoke_accessor, Halts-delete_role,
}
use vault_db_access.Store.{update_grant, audit, get_grant}
use vault_db_access.Introspect.{run_query, find_accounts}
use vault_db_access.Grants.Guarding.{begin, end_op, public_view}
use vault_db_access.Grants.Teardown.{
  accessors_of, drop_account, finish_gone, confirm_gone, teardown_steps, teardown_failed,
  teardown_done, teardown_row, teardown,
}
use vault_db_access.Grants.Issue.{public_row, revoke_steps, revoke_row, revoke}
use vault_db_access.Grants.Terminates.{Halts-run_statements, lock_out_and_terminate-Halts}

module _ {env : Env} where
  pub Halts-update_grant : (i : Text) (fs : List Field) → Halts env (update_grant i fs)
  unfolding update_grant
  Halts-update_grant i fs = Halts-bind _ _ Halts-time (λ now. Halts-modify _)

  pub Halts-audit :
      (request_id grant_id : Option Text) (actor action result detail : Text)
      → Halts env (audit request_id grant_id actor action result detail)
  unfolding audit
  Halts-audit request_id grant_id actor action result detail =
      Halts-bind _ _ Halts-time (λ now. Halts-modify _)

  pub Halts-public_row : (o : Option Grant) → Halts env (public_row o)
  unfolding public_row
  Halts-public_row none = Halts-raise _
  Halts-public_row (some g) = Halts-pure (public_view g)

  Halts-teardown_failed :
      (i : Text) (request_id : Option Text) (actor : Text) (raise_errors : Bool) (e : Exn)
      → Halts env (teardown_failed i request_id actor raise_errors e)
  unfolding teardown_failed
  Halts-teardown_failed i request_id actor raise_errors e =
      Halts-if (is_exception e) _ _
        (Halts-then _ _ (Halts-update_grant i _) (
          Halts-then _ _ (Halts-audit _ _ _ _ _ _)
            (Halts-if raise_errors _ _ (Halts-raise e) (Halts-pure tt))))
        (Halts-raise e)

  Halts-teardown_done :
      (i : Text) (final : Status) (request_id : Option Text) (actor : Text)
      → Halts env (teardown_done i final request_id actor)
  unfolding teardown_done
  Halts-teardown_done i final request_id actor =
      Halts-then _ _ (Halts-update_grant i _) (Halts-audit _ _ _ _ _ _)

module _ {env : Env} (on : RunsOn env) where
  Halts-find_accounts : (db : DbType) (i : Text) → Halts env (find_accounts db i)
  unfolding find_accounts run_query
  Halts-find_accounts db i =
      Halts-bind _ _ (Halts-introspect_credentials on db)
        (λ c. Halts-ask on (query db c (accounts_from (i ++ codes "_"))))

  Halts-accessors_of : (i : Text) (o : Option Text) → Halts env (accessors_of i o)
  Halts-accessors_of i none =
      Halts-bind _ _ (Halts-find_token_accessors on i) (λ found. Halts-pure _)
  Halts-accessors_of i (some []) =
      Halts-bind _ _ (Halts-find_token_accessors on i) (λ found. Halts-pure _)
  Halts-accessors_of i (some (c ∷ s)) = Halts-pure _

  Halts-drop_account : (db : DbType) (i account : Text) → Halts env (drop_account db i account)
  unfolding drop_account
  Halts-drop_account db i account =
      Halts-then _ _ (lock_out_and_terminate-Halts env on db account i)
        (Halts-bind _ _ (Halts-lift _) (λ ss. Halts-run_statements on db i ss))

  Halts-finish_gone :
      (i : Text) (accessors left : List Text) → Halts env (finish_gone i accessors left)
  Halts-finish_gone i accessors [] =
      Halts-then _ _ (Halts-for_each accessors revoke_accessor (Halts-revoke_accessor on))
        (Halts-delete_role on i)
  Halts-finish_gone i accessors (a ∷ as') = Halts-raise _

  Halts-teardown_steps : (i : Text) (g : Grant) → Halts env (teardown_steps i g)
  unfolding teardown_steps confirm_gone
  Halts-teardown_steps i g = Halts-bind _ _ (Halts-accessors_of i g.token_accessor) (λ accessors.
      Halts-bind _ _ (Halts-find_accounts g.db_type i) (λ accounts.
        Halts-then _ _
          (Halts-for_each accounts _ (λ a. lock_out_and_terminate-Halts env on g.db_type a i))
          (Halts-bind _ _ (Halts-list_leases on i) (λ listed.
            Halts-then _ _ (Halts-for_each _ revoke_lease (Halts-revoke_lease on)) (
              Halts-bind _ _ (Halts-find_accounts g.db_type i) (λ again.
                Halts-then _ _ (Halts-for_each again _ (Halts-drop_account g.db_type i)) (
                  Halts-bind _ _ (Halts-find_accounts g.db_type i)
                    (λ left. Halts-finish_gone i accessors left))))))))

  pub Halts-teardown :
      (i : Text) (final : Status) (request_id : Option Text) (actor : Text) (raise_errors : Bool)
      → Halts env (teardown i final request_id actor raise_errors)
  unfolding teardown teardown_row get_grant
  Halts-teardown i final request_id actor raise_errors = Halts-bind _ _ (Halts-gets _) row_ends
    where
      row_ends :
          (o : Option Grant) → Halts env (teardown_row o i final request_id actor raise_errors)
      row_ends none = Halts-pure tt
      row_ends (some g) =
          Halts-try_else _ _ _ (Halts-teardown_steps i g)
            (Halts-teardown_failed i request_id actor raise_errors)
            (λ _. Halts-teardown_done i final request_id actor)

  Halts-revoke_row :
      (o : Option Grant) (i actor request_id : Text) → Halts env (revoke_row o i actor request_id)
  unfolding revoke_row revoke_steps begin end_op get_grant
  Halts-revoke_row none i actor request_id = Halts-raise _
  Halts-revoke_row (some g) i actor request_id =
      Halts-if (is_terminal g.status) _ _ (Halts-pure _) (
        Halts-then _ _
          (Halts-bind _ _ (Halts-gets _)
            (λ taken. Halts-if taken _ _ (Halts-raise _) (Halts-modify _)))
          (Halts-then _ _
            (Halts-finally _ _
              (Halts-then _ _ (Halts-update_grant i _)
                (Halts-then _ _ (Halts-audit _ _ _ _ _ _) (Halts-teardown i _ _ _ _)))
              (Halts-modify _))
            (Halts-bind _ _ (Halts-gets _) Halts-public_row)))

-- Where every request to the outside ends, the clock never goes back and a sleep takes its 0.3 s:
-- `revoke` ends, for every grant and state, by returning, by raising, or by the process being killed.
pub revoke-Halts :
    (env : Env) → RunsOn env → (i actor request_id : Text) → Halts env (revoke i actor request_id)
unfolding revoke get_grant
revoke-Halts env on i actor request_id =
    Halts-bind _ _ (Halts-gets _) (λ g. Halts-revoke_row on g i actor request_id)
