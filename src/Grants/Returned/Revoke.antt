-- ===== src/Grants/Returned/Revoke.antt =====
-- `revoke`, when it returns.
use vault_db_access.Prelude.{◌≡◌, sym, ap, ◌∙◌, false, some, [], ◌∷◌, Text, codes}
use vault_db_access.Models.{is_terminal, revoking, revoked}
use vault_db_access.Rows.{Grant, find_row, set_status}
use vault_db_access.Effects.{World, Env, Outcome, gets, modify, finally, try_else, ◌>>=◌}
use vault_db_access.Effects.Returns.{Returns, then-Returns, finally-Returns, pure-Returns}
use vault_db_access.Store.{update_grant, audit, get_grant}
use vault_db_access.Grants.Guarding.{begin, end_op, PublicGrant, public_view}
use vault_db_access.Grants.Issue.{revoke_steps, public_row, revoke_row, revoke}
use vault_db_access.Grants.Lifecycle.Closing.{begin-SameGrants}
use vault_db_access.Grants.Lifecycle.Rows.{stamped}
use vault_db_access.Grants.Returned.History.{
  Precedes-frame, Precedes-move, update_grant-Precedes, audit-Precedes, begin-Precedes,
  end_op-Precedes,
}
use vault_db_access.Grants.Returned.Confirmed.{Confirmed, Confirmed-widen, Precedes-end}
use vault_db_access.Grants.Returned.Teardown.{
  Finished, update_grant-Returns, audit-Returns, teardown-Returns,
}

revoke_steps-Returns :
    (i actor request_id : Text) (env : Env) (w w' : World) (u : Unit {0}) (g : Grant)
    → find_row i w.db.grants ≡ some g
    → Returns (revoke_steps i actor request_id) env w u w'
    → Confirmed g.db_type i env w w' × (row : Grant) × Finished i revoked row w'
unfolding revoke_steps
revoke_steps-Returns i actor request_id env w w' u g found h =
    let fs = set_status revoking ∷ [] in
    let log = audit (some request_id) (some i) actor (codes "revoke") (codes "started") [] in
    let (u1, w1, wrote, rest) = then-Returns (update_grant i fs) _ env w w' u h in
    let (u2, w2, logged, last) = then-Returns log _ env w1 w' u rest in
    let row = stamped fs (env.time w.history) g in
    let there : find_row i w2.db.grants ≡ some row =
      ap (find_row i) (audit-Returns _ _ _ _ _ _ env w1 w2 u2 logged)
      ∙ update_grant-Returns i fs env w w1 u1 g found wrote in
    let (confirmed, last_row, finished) =
      teardown-Returns i revoked (some request_id) actor env w2 w' u row there last in
    let start =
      Precedes-frame.chain w w1 w2
        (Precedes-end (update_grant i fs) env w w1 u1 (update_grant-Precedes i fs) wrote)
        (Precedes-end log env w1 w2 u2 (audit-Precedes _ _ _ _ _ _) logged) in
    (
      Confirmed-widen {u = w} {v = w2} {v' = w'} {u' = w'} start confirmed (Precedes-frame.stay w'),
      last_row,
      finished,
    )

-- What a revocation that returned has done: the answer is the row that is stored.
pub record Revoked (g : Grant) (i : Text) (env : Env) (w : World) (p : PublicGrant) (w' : World)
    : Type 0 where
  pub confirmed : Confirmed g.db_type i env w w'
  pub row : Grant
  pub finished : Finished i revoked row w'
  pub shown : p ≡ public_view row

end_op-Returns :
    (g : Grant) (i : Text) (env : Env) (w w' : World)
    → Returns (end_op g.db_type i) env w tt w'
    → w'.db.grants ≡ w.db.grants
unfolding end_op modify
end_op-Returns g i env w w' h = ap (λ (t : Outcome (Unit {0}) × World). t.1.db.grants) (sym h)

shown-Returns :
    (i : Text) (env : Env) (w w' : World) (p : PublicGrant) (row : Grant)
    → find_row i w.db.grants ≡ some row
    → Returns (get_grant i >>= public_row) env w p w'
    → (p ≡ public_view row) × (w' ≡ w)
unfolding get_grant gets ◌>>=◌ try_else public_row
shown-Returns i env w w' p row there h =
    let (is_view, same) = pure-Returns (public_view row) p env w w' (rw there at h) in
    (sym is_view, sym same)

Finished-move :
    {i : Text} {row : Grant} {w w' : World}
    → w'.db.grants ≡ w.db.grants
    → Finished i revoked row w
    → Finished i revoked row w'
Finished-move {i = i} e f = record {
  there = ap (find_row i) e ∙ f.there;
  in_final = f.in_final;
  no_error = f.no_error;
}

revoke_open-Returns :
    (g : Grant) (i actor request_id : Text) (env : Env) (w w' : World) (p : PublicGrant)
    → find_row i w.db.grants ≡ some g
    → is_terminal g.status ≡ false
    → Returns (revoke_row (some g) i actor request_id) env w p w'
    → Revoked g i env w p w'
unfolding revoke_row
revoke_open-Returns g i actor request_id env w w' p found open_row h =
    let steps = revoke_steps i actor request_id in
    let end = end_op g.db_type i in
    let (u1, w1, began, rest) = then-Returns (begin g.db_type i) _ env w w' p (rw open_row at h) in
    let (u2, w2, closed, last) = then-Returns (finally steps end) _ env w1 w' p rest in
    let (w3, body, released) = finally-Returns steps end env w1 w2 u2 closed in
    let same = ap (λ (t : Outcome (Unit {0}) × World). t.1.db.grants) (sym began) in
    let found1 : find_row i w1.db.grants ≡ some g =
      ap (find_row i) (same ∙ begin-SameGrants g.db_type i env w) ∙ found in
    let (confirmed, row, finished) =
      revoke_steps-Returns i actor request_id env w1 w3 u2 g found1 body in
    let finished2 =
      Finished-move {w = w3} {w' = w2} (end_op-Returns g i env w3 w2 released) finished in
    let (is_view, unchanged) = shown-Returns i env w2 w' p row finished2.there last in
    let fr = Precedes-frame in
    record {
      confirmed =
          Confirmed-widen {u = w} {v = w1} {v' = w3} {u' = w'}
            (Precedes-end (begin g.db_type i) env w w1 u1 (begin-Precedes g.db_type i) began)
            confirmed
            (Precedes-move w3 w2 w' unchanged
              (Precedes-end end env w3 w2 tt (end_op-Precedes g.db_type i) released));
      row = row;
      finished =
          Finished-move {w = w2} {w' = w'} (ap (λ (v : World). v.db.grants) unchanged) finished2;
      shown = is_view;
    }

-- When `revoke` returns for a grant that is issuing, active or revoking, then a search of the
-- database for the grant's accounts came back empty while it ran, its row is revoked with no error
-- on it, and the answer shows that row.
pub revoke-Returns :
    (g : Grant) (i actor request_id : Text) (env : Env) (w w' : World) (p : PublicGrant)
    → find_row i w.db.grants ≡ some g
    → is_terminal g.status ≡ false
    → Returns (revoke i actor request_id) env w p w'
    → Revoked g i env w p w'
unfolding revoke get_grant gets ◌>>=◌ try_else
revoke-Returns g i actor request_id env w w' p found open_row h =
    revoke_open-Returns g i actor request_id env w w' p found open_row (rw found at h)
