-- ===== src/Grants/Lifecycle/Runs.antt =====
-- Any sequence of the portal's operations on grants, with crashes and restarts between them.
use vault_db_access.Prelude.{refl, false, none, List, [], ◌∷◌, Text}
use vault_db_access.Models.{GrantRequest}
use vault_db_access.Effects.{World, Env, Guards}
use vault_db_access.Grants.Issue.{issue, revoke}
use vault_db_access.Grants.Reconcile.{reconcile_once}
use vault_db_access.Grants.Lifecycle.Relation.{Lives, Lives-same, Lives-trans}
use vault_db_access.Grants.Lifecycle.Closing.{revoke-Lives, reconcile_once-Lives}
use vault_db_access.Grants.Lifecycle.Issuing.{issue-Lives}

pub data Operation : Type 0 where
  issue_op : GrantRequest → Text → Text → Operation
  revoke_op : Text → Text → Text → Operation
  reconcile_op : Operation
  -- the process starts anew on the same database file
  restart_op : Operation

-- `_admission`, from config.py: MAX_ISSUE_OPS, MAX_REVOKE_OPS, MAX_AUTH_OPS, MAX_SESSION_CHECKS
abbrev pub fresh_guards : Guards
fresh_guards = record {
  postgres_held = false;
  clickhouse_held = false;
  inflight = [];
  slots = record { issue_free = 6; revoke_free = 4; auth_free = 4; session_free = 8 };
}

-- Only the database file outlives the process.
abbrev pub restarted : World → World
restarted w = record w {
  guards = fresh_guards;
  service = record { client_token = none; logged_in_at = 0 };
}

-- The state after an operation, whichever way it ended.
pub perform : Env → Operation → World → World
perform env (issue_op req actor request_id) w = (issue req actor request_id env w).1
perform env (revoke_op i actor request_id) w = (revoke i actor request_id env w).1
perform env reconcile_op w = (reconcile_once env w).1
perform env restart_op w = restarted w

pub perform_all : Env → List Operation → World → World
unfolding perform
perform_all env [] w = w
perform_all env (op ∷ ops) w = perform_all env ops (perform env op w)

perform-Lives : (env : Env) (op : Operation) (w : World) → Lives w (perform env op w)
unfolding perform
perform-Lives env (issue_op req actor request_id) w = (issue-Lives req actor request_id).at env w
perform-Lives env (revoke_op i actor request_id) w = (revoke-Lives i actor request_id).at env w
perform-Lives env reconcile_op w = reconcile_once-Lives.at env w
perform-Lives env restart_op w = Lives-same refl

-- Over any sequence of issues, revocations, reconciler passes and restarts, whatever Vault, the
-- databases and the clock answer and wherever the process is killed: no row of `grants` is lost, its
-- status moves along the lifecycle only, its request columns are kept, and a row that is revoked,
-- expired or failed is not changed at all.
pub perform_all-Lives :
    (env : Env) (ops : List Operation) (w : World) → Lives w (perform_all env ops w)
unfolding perform_all
perform_all-Lives env [] w = Lives-same refl
perform_all-Lives env (op ∷ ops) w =
    Lives-trans (perform-Lives env op w) (perform_all-Lives env ops (perform env op w))
