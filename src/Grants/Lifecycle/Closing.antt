-- ===== src/Grants/Lifecycle/Closing.antt =====
-- `revoke` and the reconciler.
use vault_db_access.Prelude.{
  ℕ, zero, suc, ◌≡◌, refl, ap, true, false, inl, inr, Option, none, some, List, [], ◌∷◌, Text,
  codes, Bool-cases, not_found,
}
use vault_db_access.Models.{
  DbType, Status, issuing, active, revoking, revoked, expired, failed, is_terminal,
}
use vault_db_access.Rows.{Grant, find_row, set_status}
use vault_db_access.Effects.{World, Env, time, gets, modify, pure, raise, quietly, ◌>>=◌, finally}
use vault_db_access.Effects.Frame.{
  Follows, reach_bind, reach_then, reach_finally, Follows-pure, Follows-raise, Follows-gets,
  Follows-time, Follows-bind, Follows-then, Follows-if, Follows-quietly, Follows-for_each,
  Follows-try_else,
}
use vault_db_access.Store.{
  update_grant, audit, get_grant, list_by_status, audit_exists, purge_sessions,
}
use vault_db_access.Introspect.{leftover_users}
use vault_db_access.Introspect.Frames.{Follows-leftover_users}
use vault_db_access.Vault.Frames.{Follows-revoke_token_quietly}
use vault_db_access.Grants.Guarding.{begin, end_op, held, public_view}
use vault_db_access.Grants.Issue.{public_row, revoke_steps, revoke_row, revoke}
use vault_db_access.Grants.Reconcile.{
  past_expiry, final_for, finish_as, finish_fresh, reconcile_row, reconcile_one, reconcile_listed,
  report_name, report_database, report_orphans, reconcile_once, reconcile_loop,
}
use vault_db_access.Grants.Lifecycle.Relation.{
  Evolves, here, next, roll_back, start_revoking, Lives, Lives-same, Lives-frame, SameGrants,
}
use vault_db_access.Grants.Lifecycle.Rows.{update_grant-Lives, update_grant-found, audit-SameGrants}
use vault_db_access.Grants.Lifecycle.Ending.{
  CanEnd, of_issuing, of_active, of_revoking, RowCanEnd, RowCanEnd-same, audit-Lives,
  teardown-Lives,
}

pub begin-SameGrants :
    (db : DbType) (i : Text) (env : Env) (w : World) → SameGrants w (begin db i env w).1
unfolding begin gets modify raise ◌>>=◌
begin-SameGrants db i env w = elim (Bool-cases (held db w.guards)) [
  | inl taken ↦ rw taken refl
  | inr unheld ↦ rw unheld refl
]

pub end_op-Lives : (db : DbType) (i : Text) → Follows Lives (end_op db i)
unfolding end_op modify
end_op-Lives db i = record { at = λ env w. Lives-same refl }

open-revoking : (s : Status) → is_terminal s ≡ false → Evolves s revoking
open-revoking issuing h = next here roll_back
open-revoking active h = next here start_revoking
open-revoking revoking h = here
open-revoking _ h = cc

revoke_steps-Lives :
    (i actor request_id : Text) (env : Env) (w : World)
    → ((g : Grant) → find_row i w.db.grants ≡ some g → is_terminal g.status ≡ false)
    → Lives w (revoke_steps i actor request_id env w).1
unfolding revoke_steps
revoke_steps-Lives i actor request_id env w may =
    let w1 = (update_grant i (set_status revoking ∷ []) env w).1 in
    reach_then Lives-frame env w (update_grant i (set_status revoking ∷ [])) _
      (update_grant-Lives i _ env w
        (λ g found. (open-revoking g.status (may g found), may g found)))
      (λ _ wrote.
        let can : RowCanEnd i revoked w1 = λ h found.
          let (g, _, e) = update_grant-found i (set_status revoking ∷ []) env w wrote h found in
          rw e of_revoking in
        let audited =
          audit-SameGrants (some request_id) (some i) actor (codes "revoke") (codes "started") []
            env w1 in
        let w2 =
          (audit (some request_id) (some i) actor (codes "revoke") (codes "started") [] env w1).1 in
        reach_then Lives-frame env w1 _ _ (Lives-same audited) (λ _ _.
          teardown-Lives i revoked (some request_id) actor true env w2
            (RowCanEnd-same i revoked w1 w2 audited can)))

pub public_row-Lives : (o : Option Grant) → Follows Lives (public_row o)
unfolding public_row
public_row-Lives none = Follows-raise Lives-frame _
public_row-Lives (some g) = Follows-pure Lives-frame (public_view g)

pub get_grant-Lives : (i : Text) → Follows Lives (get_grant i)
unfolding get_grant
get_grant-Lives i = Follows-gets Lives-frame _

revoke_row-Lives :
    (o : Option Grant) (i actor request_id : Text) (env : Env) (w : World)
    → find_row i w.db.grants ≡ o
    → Lives w (revoke_row o i actor request_id env w).1
unfolding revoke_row
revoke_row-Lives none i actor request_id env w e = (Follows-raise Lives-frame not_found).at env w
revoke_row-Lives (some g) i actor request_id env w e = elim (Bool-cases (is_terminal g.status)) [
  | inl over ↦ rw over ((Follows-pure Lives-frame (public_view g)).at env w)
  | inr open_row ↦
      let begun_same = begin-SameGrants g.db_type i env w in
      let w1 = (begin g.db_type i env w).1 in
      let may : (h : Grant) → find_row i w1.db.grants ≡ some h → is_terminal h.status ≡ false =
        λ h found.
          let same : h ≡ g = cc (found, ap (find_row i) begun_same, e) in rw same open_row in
      rw open_row (
        reach_then Lives-frame env w (begin g.db_type i) _ (Lives-same begun_same) (λ _ _.
          reach_then Lives-frame env w1
            (finally (revoke_steps i actor request_id) (end_op g.db_type i)) _
            (reach_finally Lives-frame env w1 _ _ (revoke_steps-Lives i actor request_id env w1 may)
              (end_op-Lives g.db_type i))
            (λ _ _.
              (Follows-bind Lives-frame (get_grant i) public_row (get_grant-Lives i)
                  public_row-Lives).at
                env _)))
]

-- `revoke` moves rows along the lifecycle only, however it ends.
pub revoke-Lives : (i actor request_id : Text) → Follows Lives (revoke i actor request_id)
unfolding revoke get_grant gets
revoke-Lives i actor request_id = record {
  at = λ env w.
      reach_bind Lives-frame env w (get_grant i) _ (Lives-same refl)
        (λ o e. revoke_row-Lives o i actor request_id env w (cc e));
}

final_for-CanEnd :
    (s final : Status) (t : Option ℕ) (now : ℕ) → final_for s t now ≡ some final → CanEnd s final
unfolding final_for
final_for-CanEnd issuing final t now h = let e : final ≡ failed = cc h in rw e of_issuing
final_for-CanEnd revoking final t now h = let e : final ≡ revoked = cc h in rw e of_revoking
final_for-CanEnd active final t now h = elim (Bool-cases (past_expiry t now)) [
  | inl late ↦ let e : final ≡ expired = cc (rw late at h) in rw e of_active
  | inr early ↦ cc (rw early at h)
]
final_for-CanEnd revoked final t now h = cc
final_for-CanEnd expired final t now h = cc
final_for-CanEnd failed final t now h = cc

finish_as-Lives :
    (o : Option Status) (i : Text) (env : Env) (w : World)
    → ((final : Status) → o ≡ some final → RowCanEnd i final w)
    → Lives w (finish_as i o env w).1
finish_as-Lives none i env w may = (Follows-pure Lives-frame tt).at env w
finish_as-Lives (some final) i env w may =
    teardown-Lives i final none (codes "system") false env w (may final refl)

finish_fresh-Lives :
    (o : Option Grant) (i : Text) (env : Env) (w : World)
    → find_row i w.db.grants ≡ o
    → Lives w (finish_fresh i o env w).1
unfolding finish_fresh time
finish_fresh-Lives none i env w e = (Follows-pure Lives-frame tt).at env w
finish_fresh-Lives (some g) i env w e =
    reach_bind Lives-frame env w time _ (Lives-same refl) (λ now _.
      finish_as-Lives (final_for g.status g.expires_at now) i env _ (λ final ends h found.
        let same : h ≡ g = cc (found, e) in
        rw same (final_for-CanEnd g.status final g.expires_at now ends)))

reconcile_row-Lives : (o : Option Grant) (i : Text) → Follows Lives (reconcile_row i o)
unfolding reconcile_row get_grant gets
reconcile_row-Lives none i = Follows-pure Lives-frame tt
reconcile_row-Lives (some g) i = record {
  at = λ env w.
      let w1 = (begin g.db_type i env w).1 in
      reach_then Lives-frame env w (begin g.db_type i) _
        (Lives-same (begin-SameGrants g.db_type i env w))
        (λ _ _.
          reach_finally Lives-frame env w1 _ _
            (reach_bind Lives-frame env w1 (get_grant i) (finish_fresh i) (Lives-same refl)
              (λ o e. finish_fresh-Lives o i env w1 (cc e)))
            (end_op-Lives g.db_type i));
}

pub reconcile_one-Lives : (i : Text) → Follows Lives (reconcile_one i)
unfolding reconcile_one
reconcile_one-Lives i =
    Follows-bind Lives-frame (get_grant i) _ (get_grant-Lives i) (λ o. reconcile_row-Lives o i)

reconcile_listed-Lives : (now : ℕ) (g : Grant) → Follows Lives (reconcile_listed now g)
unfolding reconcile_listed
reconcile_listed-Lives now g = Follows-bind Lives-frame _ _ (Follows-gets Lives-frame _) (λ ids.
    Follows-if _ _ _ (Follows-pure Lives-frame tt) (by_final (final_for g.status g.expires_at now)))
  where
    by_final :
        (o : Option Status)
        → Follows Lives (elim o [ none ↦ pure tt | some final ↦ quietly (reconcile_one g.id) ])
    by_final none = Follows-pure Lives-frame tt
    by_final (some final) = Follows-quietly Lives-frame _ (reconcile_one-Lives g.id)

report_name-Lives : (live : List Text) (name : Text) → Follows Lives (report_name live name)
unfolding report_name audit_exists
report_name-Lives live name = Follows-if _ _ _ (Follows-pure Lives-frame tt) (
    Follows-bind Lives-frame _ _ (Follows-gets Lives-frame _)
      (λ known. Follows-if _ _ _ (Follows-pure Lives-frame tt) (audit-Lives _ _ _ _ _ _)))

report_database-Lives : (live : List Text) (db : DbType) → Follows Lives (report_database live db)
unfolding report_database
report_database-Lives live db =
    Follows-try_else Lives-frame (leftover_users db) _ _ (Follows-leftover_users Lives-frame db)
      (λ e. Follows-if _ _ _ (Follows-pure Lives-frame tt) (Follows-raise Lives-frame e))
      (λ names. Follows-for_each Lives-frame names _ (report_name-Lives live))

report_orphans-Lives : Follows Lives report_orphans
unfolding report_orphans list_by_status
report_orphans-Lives = Follows-bind Lives-frame _ _ (Follows-gets Lives-frame _) (λ rows.
    Follows-if _ _ _ (Follows-pure Lives-frame tt)
      (Follows-for_each Lives-frame _ _ (report_database-Lives _)))

purge_sessions-Lives : Follows Lives purge_sessions
unfolding purge_sessions modify
purge_sessions-Lives = Follows-bind Lives-frame _ _ (Follows-time Lives-frame) (λ now.
    Follows-bind Lives-frame _ _ (Follows-gets Lives-frame _) (λ rows.
      Follows-then Lives-frame _ _ (record { at = λ env w. Lives-same refl })
        (Follows-pure Lives-frame rows)))

-- One pass of the reconciler moves rows along the lifecycle only, however it ends.
pub reconcile_once-Lives : Follows Lives reconcile_once
unfolding reconcile_once list_by_status
reconcile_once-Lives = Follows-bind Lives-frame _ _ (Follows-time Lives-frame) (λ now.
    Follows-bind Lives-frame _ _ (Follows-gets Lives-frame _) (λ rows.
      Follows-then Lives-frame _ _
        (Follows-for_each Lives-frame rows _ (reconcile_listed-Lives now))
        (Follows-bind Lives-frame _ _ purge_sessions-Lives (λ stale.
          Follows-then Lives-frame _ _
            (Follows-for_each Lives-frame stale _
              (λ s. Follows-revoke_token_quietly Lives-frame s.vault_token))
            report_orphans-Lives))))

pub reconcile_loop-Lives : (rounds : ℕ) → Follows Lives (reconcile_loop rounds)
unfolding reconcile_loop
reconcile_loop-Lives zero = Follows-pure Lives-frame tt
reconcile_loop-Lives (suc rounds) =
    Follows-then Lives-frame _ _ (Follows-quietly Lives-frame _ reconcile_once-Lives)
      (reconcile_loop-Lives rounds)
