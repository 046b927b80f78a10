-- ===== src/Grants/Reconcile.antt =====
-- `_final_for`, `reconcile_one`, `reconcile_once`, `_report_orphans` and the reconciler's loop.
use vault_db_access.Prelude.{
  ℕ, zero, suc, ◌+◌, Bool, false, Option, none, some, List, [], ◌∷◌, ◌==◌, eq_Text, ltb,
  if◌then◌else◌, any, contains, Text, codes, is_exception,
}
use vault_db_access.Models.{
  DbType, postgres, clickhouse, Status, issuing, active, revoking, revoked, expired, failed,
  eq_Status,
}
use vault_db_access.Rows.{Grant, Session}
use vault_db_access.Effects.{
  M, time, gets, pure, raise, try_else, quietly, finally, for_each, seconds, ◌>>=◌, ◌>>◌,
}
use vault_db_access.Store.{get_grant, list_by_status, audit, audit_exists, purge_sessions}
use vault_db_access.Vault.{revoke_token_quietly, truthy}
use vault_db_access.Introspect.{leftover_users}
use vault_db_access.Grants.Guarding.{begin, end_op}
use vault_db_access.Grants.Teardown.{teardown}

-- `g["expires_at"] and now > g["expires_at"] + 15`
abbrev pub past_expiry : Option ℕ → ℕ → Bool
past_expiry none now = false
past_expiry (some zero) now = false
past_expiry (some (suc t)) now = ltb (suc t + seconds 15) now

-- `_final_for`
unfoldable pub final_for : Status → Option ℕ → ℕ → Option Status
final_for issuing expires_at now = some failed
final_for revoking expires_at now = some revoked
final_for active expires_at now = if past_expiry expires_at now then some expired else none
final_for revoked expires_at now = none
final_for expired expires_at now = none
final_for failed expires_at now = none

abbrev pub finish_as : Text → Option Status → M (Unit {0})
finish_as grant_id none = pure tt
finish_as grant_id (some final) = teardown grant_id final none (codes "system") false

-- The row is read again under the lock.
unfoldable pub finish_fresh : Text → Option Grant → M (Unit {0})
unfolding final_for
finish_fresh grant_id none = pure tt
finish_fresh grant_id (some fresh) = do
  now ← time
  finish_as grant_id (final_for fresh.status fresh.expires_at now)

unfoldable pub reconcile_row : Text → Option Grant → M (Unit {0})
unfolding finish_fresh
reconcile_row grant_id none = pure tt
reconcile_row grant_id (some g) = do
  begin g.db_type grant_id
  finally (get_grant grant_id >>= finish_fresh grant_id) (end_op g.db_type grant_id)

unfoldable pub reconcile_one : Text → M (Unit {0})
unfolding reconcile_row
reconcile_one grant_id = get_grant grant_id >>= reconcile_row grant_id

-- One row of the listing that `reconcile_once` goes through.
unfoldable pub reconcile_listed : ℕ → Grant → M (Unit {0})
unfolding reconcile_one
reconcile_listed now g = do
  busy_ids ← gets (λ w. w.guards.inflight)
  if contains busy_ids g.id then pure tt else (elim (final_for g.status g.expires_at now) [
    | none ↦ pure tt
    | some final ↦ quietly (reconcile_one g.id)
  ])

unfoldable pub report_name : List Text → Text → M (Unit {0})
report_name live name = if contains live name then pure tt else (do
  reported ← audit_exists (codes "orphan_account") name
  if reported
      then pure tt
      else audit none none (codes "system") (codes "orphan_account") (codes "warning") name)

unfoldable pub report_database : List Text → DbType → M (Unit {0})
unfolding report_name
report_database live db =
    try_else (leftover_users db) (λ e. if is_exception e then pure tt else raise e)
      (λ names. for_each names (report_name live))

-- `{g["username"] for g in rows if g["username"]}`
unfoldable pub usernames : List Grant → List Text
usernames [] = []
usernames (g ∷ gs) =
    let rest = usernames gs in
    elim g.username [ none ↦ rest | some name ↦ if truthy (some name) then name ∷ rest else rest ]

-- `_report_orphans`
unfoldable pub report_orphans : M (Unit {0})
unfolding report_database usernames
report_orphans = do
  rows ← list_by_status (active ∷ revoking ∷ issuing ∷ [])
  if any (λ (g : Grant). g.status == issuing) rows
      then pure tt
      else for_each (postgres ∷ clickhouse ∷ []) (report_database (usernames rows))

unfoldable pub reconcile_once : M (Unit {0})
unfolding reconcile_listed report_orphans
reconcile_once = do
  now ← time
  rows ← list_by_status (issuing ∷ revoking ∷ active ∷ [])
  for_each rows (reconcile_listed now)
  stale ← purge_sessions
  for_each stale (λ (s : Session). revoke_token_quietly s.vault_token)
  report_orphans

-- The rounds of `reconcile_loop` until it is told to stop.
unfoldable pub reconcile_loop : ℕ → M (Unit {0})
unfolding reconcile_once
reconcile_loop zero = pure tt
reconcile_loop (suc rounds) = quietly reconcile_once >> reconcile_loop rounds
