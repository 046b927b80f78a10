-- ===== src/Grants/Ended.antt =====
-- Every operation on grants ends.
use vault_db_access.Prelude.{integrity_error, ℕ, Option, none, some, List, eq_Text, Text}
use vault_db_access.Models.{DbType, Status, GrantRequest, eq_Status}
use vault_db_access.Rows.{Grant}
use vault_db_access.Effects.{modify, quietly, raise, Env, token_hex, pure}
use vault_db_access.Effects.Halts.{
  RunsOn, Halts, Halts-pure, Halts-raise, Halts-lift, Halts-gets, Halts-asks, Halts-if,
  Halts-modify, Halts-ask, Halts-time, Halts-bind, Halts-then, Halts-try_else, Halts-finally,
  Halts-quietly, Halts-for_each,
}
use vault_db_access.Vault.Halts.{
  Halts-write_role, Halts-create_grant_token, Halts-read_credentials, Halts-revoke_token_quietly,
}
use vault_db_access.Faults.Halts.{Halts-point, Halts-mutate_statements}
use vault_db_access.Introspect.Halts.{Halts-catalog, Halts-leftover_users}
use vault_db_access.Store.{
  with_grants, purge_sessions, list_by_status, audit_exists, get_grant, new_grant_id, NewGrant,
  insert_grant,
}
use vault_db_access.Grants.Guarding.{begin, end_op, validate_ttl}
use vault_db_access.Grants.Issue.{issue_steps, issue_failed, issue_logged, issue, revoke}
use vault_db_access.Grants.Reconcile.{
  final_for, finish_as, finish_fresh, reconcile_row, reconcile_one, reconcile_listed, report_name,
  report_database, report_orphans, reconcile_once,
}
use vault_db_access.Grants.Halts.{
  Halts-update_grant, Halts-audit, Halts-public_row, Halts-teardown, revoke-Halts,
}

module _ {env : Env} where
  Halts-begin : (db : DbType) (i : Text) → Halts env (begin db i)
  unfolding begin
  Halts-begin db i =
      Halts-bind _ _ (Halts-gets _) (λ taken. Halts-if taken _ _ (Halts-raise _) (Halts-modify _))

  Halts-end_op : (db : DbType) (i : Text) → Halts env (end_op db i)
  unfolding end_op
  Halts-end_op db i = Halts-modify _

  Halts-insert_grant : (n : NewGrant) → Halts env (insert_grant n)
  unfolding insert_grant
  Halts-insert_grant n =
      Halts-bind _ _ Halts-time (λ now. Halts-bind _ _ (Halts-gets _) (λ o. written o))
    where
      written :
          (o : Option (List Grant))
          → Halts {A = Unit {0}} env
              (elim o [ none ↦ raise integrity_error | some gs ↦ modify (with_grants gs) ])
      written none = Halts-raise _
      written (some gs) = Halts-modify _

module _ {env : Env} (on : RunsOn env) where
  Halts-issue_steps :
      (req : GrantRequest) (i : Text) (creation revocation : List Text)
      → Halts env (issue_steps req i creation revocation)
  unfolding issue_steps
  Halts-issue_steps req i creation revocation =
      Halts-then _ _ (Halts-write_role on i req.db_type creation revocation req.ttl_seconds) (
        Halts-then _ _ (Halts-point on _) (
          Halts-bind _ _ (Halts-create_grant_token on req.ttl_seconds i) (λ p.
            Halts-then _ _ (Halts-point on _) (
              Halts-then _ _ (Halts-update_grant i _) (
                Halts-bind _ _ (Halts-read_credentials on p.0 i) (λ creds.
                  Halts-then _ _ (Halts-point on _) (
                    Halts-bind _ _ Halts-time
                      (λ now. Halts-then _ _ (Halts-update_grant i _) (Halts-pure creds)))))))))

  Halts-issue_logged :
      (req : GrantRequest) (actor request_id i : Text) (creation revocation : List Text)
      → Halts env (issue_logged req actor request_id i creation revocation)
  unfolding issue_logged issue_failed
  Halts-issue_logged req actor request_id i creation revocation =
      Halts-then _ _ (Halts-insert_grant _) (
        Halts-bind _ _
          (Halts-try_else _ _ _ (Halts-issue_steps req i creation revocation)
            (λ e.
              Halts-then _ _
                (Halts-then _ _ (Halts-audit _ _ _ _ _ _) (Halts-teardown on i _ _ _ _))
                (Halts-raise e))
            Halts-pure)
          (λ creds. Halts-then _ _ (Halts-audit _ _ _ _ _ _) (Halts-pure creds)))

  Halts-issue :
      (req : GrantRequest) (actor request_id : Text) → Halts env (issue req actor request_id)
  unfolding issue validate_ttl new_grant_id get_grant
  Halts-issue req actor request_id =
      Halts-then _ _
        (Halts-bind _ _ (Halts-asks _) (λ config. Halts-if _ _ _ (Halts-pure tt) (Halts-raise _)))
        (Halts-bind _ _ (Halts-catalog on req.db_type) (λ cat.
          Halts-bind _ _ (Halts-lift _) (λ statements.
            Halts-bind _ _ (Halts-mutate_statements on statements.0) (λ mutated.
              Halts-bind _ _ (Halts-bind _ _ (Halts-ask on (token_hex 5)) (λ digits. Halts-pure _))
                (λ i. Halts-then _ _ (Halts-begin req.db_type i) (
                  Halts-bind _ _
                    (Halts-finally _ _
                      (Halts-issue_logged req actor request_id i mutated statements.1)
                      (Halts-end_op req.db_type i))
                    (λ creds.
                      Halts-bind _ _ (Halts-gets _)
                        (λ g. Halts-bind _ _ (Halts-public_row g) (λ out. Halts-pure _)))))))))

  Halts-finish_as : (i : Text) (o : Option Status) → Halts env (finish_as i o)
  Halts-finish_as i none = Halts-pure tt
  Halts-finish_as i (some final) = Halts-teardown on i final _ _ _

  Halts-finish_fresh : (i : Text) (o : Option Grant) → Halts env (finish_fresh i o)
  unfolding finish_fresh
  Halts-finish_fresh i none = Halts-pure tt
  Halts-finish_fresh i (some g) = Halts-bind _ _ Halts-time (λ now. Halts-finish_as i _)

  Halts-reconcile_row : (i : Text) (o : Option Grant) → Halts env (reconcile_row i o)
  unfolding reconcile_row get_grant
  Halts-reconcile_row i none = Halts-pure tt
  Halts-reconcile_row i (some g) = Halts-then _ _ (Halts-begin g.db_type i) (
      Halts-finally _ _ (Halts-bind _ _ (Halts-gets _) (Halts-finish_fresh i))
        (Halts-end_op g.db_type i))

  Halts-reconcile_listed : (now : ℕ) (g : Grant) → Halts env (reconcile_listed now g)
  unfolding reconcile_listed reconcile_one get_grant
  Halts-reconcile_listed now g =
      Halts-bind _ _ (Halts-gets _)
        (λ busy_ids. Halts-if _ _ _ (Halts-pure tt) (listed (final_for g.status g.expires_at now)))
    where
      listed :
          (o : Option Status)
          → Halts env (elim o [ none ↦ pure tt | some final ↦ quietly (reconcile_one g.id) ])
      listed none = Halts-pure tt
      listed (some final) =
          Halts-quietly _ (Halts-bind _ _ (Halts-gets _) (Halts-reconcile_row g.id))

  Halts-report_database : (live : List Text) (db : DbType) → Halts env (report_database live db)
  unfolding report_database report_name audit_exists
  Halts-report_database live db =
      Halts-try_else _ _ _ (Halts-leftover_users on db)
        (λ e. Halts-if _ _ _ (Halts-pure tt) (Halts-raise e))
        (λ names. Halts-for_each names _ (λ name. Halts-if _ _ _ (Halts-pure tt) (
          Halts-bind _ _ (Halts-gets _)
            (λ reported. Halts-if reported _ _ (Halts-pure tt) (Halts-audit _ _ _ _ _ _)))))

  Halts-reconcile_once : Halts env reconcile_once
  unfolding reconcile_once report_orphans list_by_status purge_sessions
  Halts-reconcile_once = Halts-bind _ _ Halts-time (λ now. Halts-bind _ _ (Halts-gets _) (λ rows.
      Halts-then _ _ (Halts-for_each rows _ (Halts-reconcile_listed now)) (
        Halts-bind _ _
          (Halts-bind _ _ Halts-time (λ then_now.
            Halts-bind _ _ (Halts-gets _)
              (λ stale. Halts-then _ _ (Halts-modify _) (Halts-pure stale))))
          (λ stale.
            Halts-then _ _
              (Halts-for_each stale _ (λ s. Halts-revoke_token_quietly on s.vault_token))
              (Halts-bind _ _ (Halts-gets _) (λ listed.
                Halts-if _ _ _ (Halts-pure tt) (Halts-for_each _ _ (Halts-report_database _))))))))

-- Where every request to the outside ends, the clock never goes back and a sleep takes its 0.3 s: an
-- issue, a revocation and a pass of the reconciler end, whatever they are given and from every state,
-- by returning, by raising, or by the process being killed.
pub operations-Halts :
    (env : Env)
    → RunsOn env
    → (req : GrantRequest) (i actor request_id : Text)
    → Halts env (issue req actor request_id)
      × Halts env (revoke i actor request_id)
      × Halts env reconcile_once
operations-Halts env on req i actor request_id = (
  Halts-issue on req actor request_id,
  revoke-Halts env on i actor request_id,
  Halts-reconcile_once on,
)
