-- ===== src/Grants/Lifecycle/Ending.antt =====
-- `_teardown`, `revoke` and the reconciler move rows along the lifecycle only.
use vault_db_access.Prelude.{
  ◌≡◌, refl, sym, ap, ◌∙◌, Bool, false, inl, inr, Option, none, some, Text, Bool-cases, Exn,
  is_exception, eq_Text,
}
use vault_db_access.Models.{
  Status, issuing, active, revoking, revoked, expired, failed, is_terminal,
}
use vault_db_access.Rows.{Grant, find_row}
use vault_db_access.Effects.{World, Env, gets}
use vault_db_access.Effects.Frame.{
  Follows, reach_try_else, reach_bind, reach_then, Follows-pure, Follows-raise, Follows-then,
  Follows-if,
}
use vault_db_access.Store.{update_grant, audit, get_grant}
use vault_db_access.Grants.Teardown.{
  teardown, teardown_row, teardown_steps, teardown_failed, teardown_done,
}
use vault_db_access.Grants.Frames.{Follows-teardown_steps}
use vault_db_access.Grants.Lifecycle.Relation.{
  Evolves, here, next, roll_back, start_revoking, fail, expire, finish_revoking, Lives, Lives-same,
  Lives-frame, SameGrants, SameGrants-frame,
}
use vault_db_access.Grants.Lifecycle.Rows.{update_grant-Lives, audit-SameGrants}

-- Which final statuses a teardown may be asked for at a row.
pub data CanEnd : Status → Status → Type 0 where
  of_issuing : CanEnd issuing failed
  of_active : CanEnd active expired
  of_revoking : CanEnd revoking revoked

CanEnd-final : {s t : Status} → CanEnd s t → Evolves s t
CanEnd-final of_issuing = next here fail
CanEnd-final of_active = next here expire
CanEnd-final of_revoking = next here finish_revoking

CanEnd-revoking : {s t : Status} → CanEnd s t → Evolves s revoking
CanEnd-revoking of_issuing = next here roll_back
CanEnd-revoking of_active = next here start_revoking
CanEnd-revoking of_revoking = here

CanEnd-open : {s t : Status} → CanEnd s t → is_terminal s ≡ false
CanEnd-open of_issuing = refl
CanEnd-open of_active = refl
CanEnd-open of_revoking = refl

pub audit-Lives :
    (request_id grant_id : Option Text) (actor action result detail : Text)
    → Follows Lives (audit request_id grant_id actor action result detail)
audit-Lives request_id grant_id actor action result detail = record {
  at = λ env w. Lives-same (audit-SameGrants request_id grant_id actor action result detail env w);
}

-- Ending the row of a grant that has the status `s`.
abbrev pub RowCanEnd : Text → Status → World → Type 0
RowCanEnd i final w = (g : Grant) → find_row i w.db.grants ≡ some g → CanEnd g.status final

pub RowCanEnd-same :
    (i : Text) (final : Status) (w w' : World)
    → SameGrants w w'
    → RowCanEnd i final w
    → RowCanEnd i final w'
RowCanEnd-same i final w w' e may g found = may g (ap (find_row i) (sym e) ∙ found)

teardown_failed-Lives :
    (i : Text) (final : Status) (request_id : Option Text) (actor : Text) (raise_errors : Bool)
    (e : Exn) (env : Env) (w : World)
    → RowCanEnd i final w
    → Lives w (teardown_failed i request_id actor raise_errors e env w).1
unfolding teardown_failed
teardown_failed-Lives i final request_id actor raise_errors e env w may =
    elim (Bool-cases (is_exception e)) [
      | inl caught ↦ rw caught (
          reach_then Lives-frame env w (update_grant i _) _
            (update_grant-Lives i _ env w
              (λ g found. (CanEnd-revoking (may g found), CanEnd-open (may g found))))
            (λ _ _.
              (Follows-then Lives-frame _ _ (audit-Lives _ _ _ _ _ _)
                  (Follows-if _ _ _ (Follows-raise Lives-frame e) (Follows-pure Lives-frame tt))).at
                env _))
      | inr passed ↦ rw passed ((Follows-raise Lives-frame e).at env w)
    ]

teardown_done-Lives :
    (i : Text) (final : Status) (request_id : Option Text) (actor : Text) (env : Env) (w : World)
    → RowCanEnd i final w
    → Lives w (teardown_done i final request_id actor env w).1
unfolding teardown_done
teardown_done-Lives i final request_id actor env w may =
    reach_then Lives-frame env w (update_grant i _) _
      (update_grant-Lives i _ env w
        (λ g found. (CanEnd-final (may g found), CanEnd-open (may g found))))
      (λ _ _. (audit-Lives _ _ _ _ _ _).at env _)

teardown_row-Lives :
    (o : Option Grant) (i : Text) (final : Status) (request_id : Option Text) (actor : Text)
    (raise_errors : Bool) (env : Env) (w : World)
    → RowCanEnd i final w
    → Lives w (teardown_row o i final request_id actor raise_errors env w).1
unfolding teardown_row
teardown_row-Lives none i final request_id actor raise_errors env w may =
    (Follows-pure Lives-frame tt).at env w
teardown_row-Lives (some g) i final request_id actor raise_errors env w may =
    let kept = (Follows-teardown_steps SameGrants-frame i g).at env w in
    let w' = (teardown_steps i g env w).1 in
    let may' = RowCanEnd-same i final w w' kept may in
    reach_try_else Lives-frame env w (teardown_steps i g) _ _ (Lives-same kept)
      (λ e _. teardown_failed-Lives i final request_id actor raise_errors e env w' may')
      (λ _ _. teardown_done-Lives i final request_id actor env w' may')

-- A teardown, however it ends, moves the row that it is for along the lifecycle.
pub teardown-Lives :
    (i : Text) (final : Status) (request_id : Option Text) (actor : Text) (raise_errors : Bool)
    (env : Env) (w : World)
    → RowCanEnd i final w
    → Lives w (teardown i final request_id actor raise_errors env w).1
unfolding teardown get_grant gets
teardown-Lives i final request_id actor raise_errors env w may =
    reach_bind Lives-frame env w (get_grant i) _ (Lives-same refl)
      (λ o _. teardown_row-Lives o i final request_id actor raise_errors env w may)
