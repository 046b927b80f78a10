-- ===== src/Grants/Release/Operations.antt =====
-- `issue`, `revoke`, the reconciler and `admit`.
use vault_db_access.Prelude.{
  ℕ, ◌≡◌, refl, Option, none, some, Text, Bool, true, false, Bool-cases, if◌then◌else◌, inl, inr,
}
use vault_db_access.Models.{Status, GrantRequest, is_terminal}
use vault_db_access.Rows.{Grant}
use vault_db_access.Effects.{pure, quietly, token_hex, ◌>>◌, World, Env}
use vault_db_access.Effects.Frame.{
  Follows-pure, Follows-raise, Follows-gets, Follows-asks, Follows-time, Follows-lift, Follows-ask,
  Follows-bind, Follows-then, Follows-if, Follows-for_each, Follows-try_else,
}
use vault_db_access.Store.{get_grant, purge_sessions, list_by_status, audit_exists, new_grant_id}
use vault_db_access.Introspect.{leftover_users}
use vault_db_access.Introspect.Frames.{Follows-catalog, Follows-leftover_users}
use vault_db_access.Faults.Frames.{Follows-mutate_statements}
use vault_db_access.Vault.Frames.{Follows-revoke_token_quietly}
use vault_db_access.Grants.Guarding.{public_view, validate_ttl}
use vault_db_access.Grants.Issue.{issue, revoke, revoke_row, public_row}
use vault_db_access.Grants.Reconcile.{
  final_for, finish_fresh, reconcile_row, reconcile_one, reconcile_listed, report_name,
  report_database, report_orphans, reconcile_once,
}
use vault_db_access.Grants.Release.Left.{NothingLeft}
use vault_db_access.Grants.Release.Kept.{
  Kept, Kept-frame, modify-Kept, get_grant-Kept, audit-Kept, finish_fresh-Kept, public_row-Kept,
  revoke_steps-Kept, issue_logged-Kept,
}
use vault_db_access.Grants.Release.Guarded.{guarded-Releases, guarded_only-Releases}
use vault_db_access.Grants.Release.Ends.{
  is_over, Releases, Releases-Kept, Releases-bind, Releases-then, Releases-quietly,
  Releases-for_each, Releases-at,
}

revoke_row-Releases :
    (o : Option Grant) (i actor request_id : Text) → Releases (revoke_row o i actor request_id)
unfolding revoke_row ◌>>◌
revoke_row-Releases none i actor request_id = Releases-Kept _ (Follows-raise Kept-frame _)
revoke_row-Releases (some g) i actor request_id = elim (Bool-cases (is_terminal g.status)) [
  | inl over ↦ rw over (Releases-Kept _ (Follows-pure Kept-frame (public_view g)))
  | inr open_row ↦ rw open_row (
      guarded-Releases g.db_type i _ _ (revoke_steps-Kept i actor request_id)
        (λ _. Follows-bind Kept-frame (get_grant i) public_row (get_grant-Kept i) public_row-Kept))
]

pub revoke-Releases : (i actor request_id : Text) → Releases (revoke i actor request_id)
unfolding revoke
revoke-Releases i actor request_id =
    Releases-bind (get_grant i) _ (Releases-Kept _ (get_grant-Kept i))
      (λ o. revoke_row-Releases o i actor request_id)

reconcile_row-Releases : (i : Text) (o : Option Grant) → Releases (reconcile_row i o)
unfolding reconcile_row
reconcile_row-Releases i none = Releases-Kept _ (Follows-pure Kept-frame tt)
reconcile_row-Releases i (some g) = guarded_only-Releases g.db_type i _ (
    Follows-bind Kept-frame (get_grant i) (finish_fresh i) (get_grant-Kept i) (finish_fresh-Kept i))

reconcile_one-Releases : (i : Text) → Releases (reconcile_one i)
unfolding reconcile_one
reconcile_one-Releases i =
    Releases-bind (get_grant i) (reconcile_row i) (Releases-Kept _ (get_grant-Kept i))
      (reconcile_row-Releases i)

reconcile_listed-Releases : (now : ℕ) (g : Grant) → Releases (reconcile_listed now g)
unfolding reconcile_listed
reconcile_listed-Releases now g =
    Releases-bind _ _ (Releases-Kept _ (Follows-gets Kept-frame _)) (λ ids. unless _)
  where
    by_final :
        (o : Option Status)
        → Releases (elim o [ none ↦ pure tt | some final ↦ quietly (reconcile_one g.id) ])
    by_final none = Releases-Kept _ (Follows-pure Kept-frame tt)
    by_final (some final) = Releases-quietly _ (reconcile_one-Releases g.id)

    unless :
        (b : Bool)
        → Releases (
            if b then pure tt else (elim (final_for g.status g.expires_at now) [
              | none ↦ pure tt
              | some final ↦ quietly (reconcile_one g.id)
            ]))
    unless true = Releases-Kept _ (Follows-pure Kept-frame tt)
    unless false = by_final (final_for g.status g.expires_at now)

report_orphans-Kept : Kept report_orphans
unfolding report_orphans report_database report_name audit_exists list_by_status
report_orphans-Kept =
    let fr = Kept-frame in
    Follows-bind fr _ _ (Follows-gets fr _) (λ rows. Follows-if _ _ _ (Follows-pure fr tt) (
      Follows-for_each fr _ _ (λ db.
        Follows-try_else fr (leftover_users db) _ _ (Follows-leftover_users fr db)
          (λ e. Follows-if _ _ _ (Follows-pure fr tt) (Follows-raise fr e))
          (λ names. Follows-for_each fr names _ (λ name. Follows-if _ _ _ (Follows-pure fr tt) (
            Follows-bind fr _ _ (Follows-gets fr _)
              (λ known. Follows-if _ _ _ (Follows-pure fr tt) (audit-Kept _ _ _ _ _ _))))))))

purge_sessions-Kept : Kept purge_sessions
unfolding purge_sessions
purge_sessions-Kept =
    let fr = Kept-frame in
    Follows-bind fr _ _ (Follows-time fr) (λ now.
      Follows-bind fr _ _ (Follows-gets fr _)
        (λ rows. Follows-then fr _ _ (modify-Kept _ (λ w. refl)) (Follows-pure fr rows)))

reconcile_once-Releases : Releases reconcile_once
unfolding reconcile_once list_by_status
reconcile_once-Releases =
    let fr = Kept-frame in
    Releases-bind _ _ (Releases-Kept _ (Follows-time fr)) (λ now.
      Releases-bind _ _ (Releases-Kept _ (Follows-gets fr _)) (λ rows.
        Releases-then _ _ (Releases-for_each rows _ (reconcile_listed-Releases now)) (
          Releases-bind _ _ (Releases-Kept _ purge_sessions-Kept) (λ stale. Releases-Kept _ (
            Follows-then fr _ _
              (Follows-for_each fr stale _ (λ s. Follows-revoke_token_quietly fr s.vault_token))
              report_orphans-Kept)))))

issue-Releases :
    (req : GrantRequest) (actor request_id : Text) → Releases (issue req actor request_id)
unfolding issue new_grant_id validate_ttl
issue-Releases req actor request_id =
    let fr = Kept-frame in
    Releases-then _ _
      (Releases-Kept _ (
        Follows-bind fr _ _ (Follows-asks fr _)
          (λ config. Follows-if _ _ _ (Follows-pure fr tt) (Follows-raise fr _))))
      (Releases-bind _ _ (Releases-Kept _ (Follows-catalog fr req.db_type)) (λ cat.
        Releases-bind _ _ (Releases-Kept _ (Follows-lift fr _)) (λ built.
          Releases-bind _ _ (Releases-Kept _ (Follows-mutate_statements fr built.0)) (λ mutated.
            Releases-bind _ _
              (Releases-Kept _
                (Follows-bind fr _ _ (Follows-ask fr (token_hex 5)) (λ digits. Follows-pure fr _)))
              (λ i.
                guarded-Releases req.db_type i _ _
                  (issue_logged-Kept req actor request_id i mutated built.1)
                  (λ creds.
                    Follows-bind fr _ _ (get_grant-Kept i) (λ g.
                      Follows-bind fr _ _ (public_row-Kept g) (λ out. Follows-pure fr _))))))))

-- When `issue` is over, every lock and every slot is as it was, and no grant is in flight that was
-- not in flight before, whether it returned or raised.
pub issue-NothingLeft :
    (req : GrantRequest) (actor request_id : Text) (env : Env) (w : World)
    → is_over (issue req actor request_id env w).0 ≡ true
    → NothingLeft w.guards (issue req actor request_id env w).1.guards
issue-NothingLeft req actor request_id =
    Releases-at (issue req actor request_id) (issue-Releases req actor request_id)

-- When `revoke` is over, every lock and every slot is as it was, and no grant is in flight that was
-- not in flight before, whether it returned or raised.
pub revoke-NothingLeft :
    (i actor request_id : Text) (env : Env) (w : World)
    → is_over (revoke i actor request_id env w).0 ≡ true
    → NothingLeft w.guards (revoke i actor request_id env w).1.guards
revoke-NothingLeft i actor request_id =
    Releases-at (revoke i actor request_id) (revoke-Releases i actor request_id)

-- When a pass of the reconciler is over, every lock and every slot is as it was, and no grant is in
-- flight that was not in flight before, whether it returned or raised and whatever its rows raised.
pub reconcile_once-NothingLeft :
    (env : Env) (w : World)
    → is_over (reconcile_once env w).0 ≡ true
    → NothingLeft w.guards (reconcile_once env w).1.guards
reconcile_once-NothingLeft = Releases-at reconcile_once reconcile_once-Releases
