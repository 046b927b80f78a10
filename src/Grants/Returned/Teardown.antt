-- ===== src/Grants/Returned/Teardown.antt =====
-- What a teardown that reports its errors has done when it returns.
use vault_db_access.Prelude.{
  ◌≡◌, refl, sym, ap, ◌∙◌, true, Bool-cases, inl, inr, Option, none, some, List, [], ◌∷◌, Text, Exn,
  is_exception, eq_Text,
}
use vault_db_access.Models.{Status}
use vault_db_access.Rows.{Grant, Field, find_row, set_status, set_last_error}
use vault_db_access.Effects.{try_else, World, Env, Outcome, gets, ◌>>=◌}
use vault_db_access.Effects.Frame.{Follows, Follows-then}
use vault_db_access.Effects.Returns.{
  Returns, NeverReturns, raise-NeverReturns, then-Returns, try_else-Returns,
}
use vault_db_access.Store.{update_grant, audit, get_grant}
use vault_db_access.Grants.Frames.{Follows-teardown_steps}
use vault_db_access.Grants.Teardown.{
  teardown_steps, teardown_failed, teardown_done, teardown_row, teardown,
}
use vault_db_access.Grants.Lifecycle.Rows.{
  stamped, find_row-update_self, update_grant-cases, audit-SameGrants,
}
use vault_db_access.Grants.Lifecycle.Relation.{SameGrants-frame}
use vault_db_access.Grants.Returned.History.{
  Precedes, Precedes-frame, update_grant-Precedes, audit-Precedes,
}
use vault_db_access.Grants.Returned.Confirmed.{
  Confirmed, Confirmed-widen, Precedes-end, teardown_steps-Confirms,
}

-- A failed teardown that reports its errors raises.
teardown_failed-NeverReturns :
    (i : Text) (request_id : Option Text) (actor : Text) (e : Exn)
    → NeverReturns (teardown_failed i request_id actor true e)
unfolding teardown_failed
teardown_failed-NeverReturns i request_id actor e env w w' u = elim (Bool-cases (is_exception e)) [
  | inl caught ↦ rw caught (λ h.
      let (_, w1, _, rest) = then-Returns _ _ env w w' u h in
      let (_, w2, _, last) = then-Returns _ _ env w1 w' u rest in
      raise-NeverReturns e env w2 w' u last)
  | inr passed ↦ rw passed (raise-NeverReturns e env w w' u)
]

-- The row has reached its final status, without an error.
pub record Finished (i : Text) (final : Status) (row : Grant) (w : World) : Type 0 where
  pub there : find_row i w.db.grants ≡ some row
  pub in_final : row.status ≡ final
  pub no_error : row.last_error ≡ none

pub update_grant-Returns :
    (i : Text) (fs : List Field) (env : Env) (w w' : World) (u : Unit {0}) (g : Grant)
    → find_row i w.db.grants ≡ some g
    → Returns (update_grant i fs) env w u w'
    → find_row i w'.db.grants ≡ some (stamped fs (env.time w.history) g)
update_grant-Returns i fs env w w' u g found h = elim (update_grant-cases i fs env w) [
  | inl cut ↦ cc (cut, h)
  | inr wrote ↦
      let after = ap (λ (t : Outcome (Unit {0}) × World). t.1) (sym h ∙ wrote) in
      rw after (find_row-update_self i fs (env.time w.history) w.db.grants g found)
]

pub audit-Returns :
    (request_id grant_id : Option Text) (actor action result detail : Text) (env : Env)
    (w w' : World) (u : Unit {0})
    → Returns (audit request_id grant_id actor action result detail) env w u w'
    → w'.db.grants ≡ w.db.grants
audit-Returns request_id grant_id actor action result detail env w w' u h =
    rw (← ap (λ (t : Outcome (Unit {0}) × World). t.1) h)
      (audit-SameGrants request_id grant_id actor action result detail env w)

teardown_done-Precedes :
    (i : Text) (final : Status) (request_id : Option Text) (actor : Text)
    → Follows Precedes (teardown_done i final request_id actor)
unfolding teardown_done
teardown_done-Precedes i final request_id actor =
    Follows-then Precedes-frame _ _ (update_grant-Precedes i _) (audit-Precedes _ _ _ _ _ _)

teardown_done-Finished :
    (i : Text) (final : Status) (request_id : Option Text) (actor : Text) (env : Env) (w w' : World)
    (u : Unit {0}) (g : Grant)
    → find_row i w.db.grants ≡ some g
    → Returns (teardown_done i final request_id actor) env w u w'
    → (row : Grant) × Finished i final row w'
unfolding teardown_done
teardown_done-Finished i final request_id actor env w w' u g found h =
    let (u1, w1, wrote, rest) = then-Returns _ _ env w w' u h in
    let logged = audit-Returns _ _ _ _ _ _ env w1 w' u rest in
    (
      stamped (set_status final ∷ set_last_error none ∷ []) (env.time w.history) g,
      record {
        there = ap (find_row i) logged ∙ update_grant-Returns i _ env w w1 u1 g found wrote;
        in_final = refl;
        no_error = refl;
      },
    )

teardown_steps-SameGrants :
    (i : Text) (g : Grant) (env : Env) (w w' : World) (u : Unit {0})
    → Returns (teardown_steps i g) env w u w'
    → w'.db.grants ≡ w.db.grants
teardown_steps-SameGrants i g env w w' u h =
    rw (← ap (λ (t : Outcome (Unit {0}) × World). t.1) h)
      ((Follows-teardown_steps SameGrants-frame i g).at env w)

teardown_row-Returns :
    (i : Text) (final : Status) (request_id : Option Text) (actor : Text) (env : Env) (w w' : World)
    (u : Unit {0}) (g : Grant)
    → find_row i w.db.grants ≡ some g
    → Returns (teardown_row (some g) i final request_id actor true) env w u w'
    → Confirmed g.db_type i env w w' × (row : Grant) × Finished i final row w'
unfolding teardown_row
teardown_row-Returns i final request_id actor env w w' u g found h =
    let (u1, w1, torn, rest) =
      try_else-Returns (teardown_steps i g) _ _ env w w' u
        (teardown_failed-NeverReturns i request_id actor) h in
    let still = ap (find_row i) (teardown_steps-SameGrants i g env w w1 u1 torn) ∙ found in
    let (row, finished) =
      teardown_done-Finished i final request_id actor env w1 w' u g still rest in
    (
      Confirmed-widen {u = w} {v = w} {v' = w1} {u' = w'} (Precedes-frame.stay w)
          ((teardown_steps-Confirms i g).when env w w1 u1 torn)
          (Precedes-end (teardown_done i final request_id actor) env w1 w' u
            (teardown_done-Precedes i final request_id actor) rest),
      row,
      finished,
    )

-- A teardown that reports its errors: when it returns, the search came back empty and the row is
-- finished.
pub teardown-Returns :
    (i : Text) (final : Status) (request_id : Option Text) (actor : Text) (env : Env) (w w' : World)
    (u : Unit {0}) (g : Grant)
    → find_row i w.db.grants ≡ some g
    → Returns (teardown i final request_id actor true) env w u w'
    → Confirmed g.db_type i env w w' × (row : Grant) × Finished i final row w'
unfolding teardown get_grant gets ◌>>=◌ try_else
teardown-Returns i final request_id actor env w w' u g found h =
    teardown_row-Returns i final request_id actor env w w' u g found (rw found at h)
