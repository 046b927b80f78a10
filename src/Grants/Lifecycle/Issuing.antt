-- ===== src/Grants/Lifecycle/Issuing.antt =====
-- `issue`: its row is being issued until the last write of the inner `try`, so a failure before that
-- is cleaned up as one of a row that is being issued.
use vault_db_access.Prelude.{
  ℕ, ◌+◌, ◌≡◌, refl, sym, ap, ◌∙◌, false, inl, inr, some, List, [], ◌∷◌, Text, codes, Exn,
}
use vault_db_access.Models.{issuing, active, failed, GrantRequest}
use vault_db_access.Rows.{
  Grant, find_row, set_status, set_username, set_lease_id, set_expires_at, set_token_accessor,
}
use vault_db_access.Effects.{
  M, World, Env, Outcome, done, raised, killed, hung, Credentials, token_hex, pure, raise, continue,
  try_else, seconds, ◌>>=◌, ◌>>◌,
}
use vault_db_access.Effects.Frame.{
  Frame, Follows, reach_try_else, reach_bind, reach_then, Follows-pure, Follows-raise, Follows-asks,
  Follows-lift, Follows-ask, Follows-time, Follows-bind, Follows-then, Follows-if, Follows-finally,
}
use vault_db_access.Store.{update_grant, audit, insert_grant, new_grant_id, NewGrant}
use vault_db_access.Vault.Frames.{
  Follows-write_role, Follows-create_grant_token, Follows-read_credentials,
}
use vault_db_access.Introspect.Frames.{Follows-catalog}
use vault_db_access.Faults.Frames.{Follows-point, Follows-mutate_statements}
use vault_db_access.Grants.Guarding.{validate_ttl}
use vault_db_access.Grants.Teardown.{type_name}
use vault_db_access.Grants.Issue.{issue_steps, issue_failed, requested_tables, issue_logged, issue}
use vault_db_access.Grants.Lifecycle.Relation.{
  here, next, activate, Lives, Lives-same, Lives-trans, Lives-frame, SameGrants,
}
use vault_db_access.Grants.Lifecycle.Rows.{
  update_grant-Lives, update_grant-found, update_grant-cases, audit-SameGrants, insert_grant-cases,
}
use vault_db_access.Grants.Lifecycle.Ending.{of_issuing, audit-Lives, teardown-Lives}
use vault_db_access.Grants.Lifecycle.Closing.{
  begin-SameGrants, end_op-Lives, public_row-Lives, get_grant-Lives,
}

-- The row `i` is still being issued.
abbrev pub IsIssuing : Text → World → Type 0
IsIssuing i w = (g : Grant) → find_row i w.db.grants ≡ some g → g.status ≡ issuing

abbrev Holds : Text → World → World → Type 0
Holds i w w' = IsIssuing i w → Lives w w' × IsIssuing i w'

Holds-same : (i : Text) (w w' : World) → SameGrants w w' → Holds i w w'
Holds-same i w w' e p = (Lives-same e, λ g found. p g (ap (find_row i) (sym e) ∙ found))

Holds-frame : (i : Text) → Frame (Holds i)
Holds-frame i = record {
  stay = λ w. Holds-same i w w refl;
  chain = λ u v w a b p.
      let (lives, p') = a p in let (lives', p'') = b p' in (Lives-trans lives lives', p'');
  asked = λ c w. Holds-same i w _ refl;
  served = λ s w. Holds-same i w _ refl;
}

-- Storing the accessor leaves the row in the same status.
accessor-Holds :
    (i accessor : Text) → Follows (Holds i) (update_grant i (set_token_accessor accessor ∷ []))
accessor-Holds i accessor =
    let fs = set_token_accessor accessor ∷ [] in
    record {
      at = λ env w p. (
        update_grant-Lives i fs env w (λ g found. (here, rw (p g found) refl)),
        λ g found. elim (update_grant-cases i fs env w) [
          | inl cut ↦ p g (rw cut at found)
          | inr wrote ↦
              let (old, there, e) =
                update_grant-found i fs env w (ap (λ (t : Outcome (Unit {0}) × World). t.0) wrote) g
                  found in
              rw e (p old there)
        ],
      );
    }

-- A part of the inner `try`: where it raises, the row is still being issued.
record Issues {A : Type 0} (i : Text) (m : M A) : Type 0 where
  at :
      (env : Env) (w : World)
      → IsIssuing i w
      → Lives w (m env w).1 × ((e : Exn) → (m env w).0 ≡ raised e → IsIssuing i (m env w).1)

module _ {A B : Type 0} where
  Issues-bind :
      (i : Text) (m : M A) (f : A → M B)
      → Follows (Holds i) m
      → ((a : A) → Issues i (f a))
      → Issues i (m >>= f)
  unfolding ◌>>=◌ try_else raise
  Issues-bind i m f hm hf = record {
    at = λ env w p. go env w (m env w).0 (m env w).1 (hm.at env w p);
  }
    where
      go :
          (env : Env) (w : World) (r : Outcome A) (w' : World)
          → Lives w w' × IsIssuing i w'
          → let out = continue r raise f env w' in
            Lives w out.1 × ((e : Exn) → out.0 ≡ raised e → IsIssuing i out.1)
      go env w (done a) w' (lives, p) =
          let (lives', after) = (hf a).at env w' p in (Lives-trans lives lives', after)
      go env w (raised e) w' (lives, p) = (lives, λ _ _. p)
      go env w killed w' (lives, p) = (lives, λ _ _. p)
      go env w hung w' (lives, p) = (lives, λ _ _. p)

  Issues-then :
      (i : Text) (m : M A) (k : M B) → Follows (Holds i) m → Issues i k → Issues i (m >> k)
  unfolding ◌>>◌
  Issues-then i m k hm hk = Issues-bind i m (λ _. k) hm (λ _. hk)

-- The last write of the inner `try`.
abbrev pub activation : Text → Credentials → ℕ → M Credentials
activation i creds now = do
  update_grant i (
      set_status active
      ∷ set_username creds.username
      ∷ set_lease_id creds.lease_id
      ∷ set_expires_at (now + seconds creds.lease_duration)
      ∷ [])
  pure creds

activation-Issues : (i : Text) (creds : Credentials) (now : ℕ) → Issues i (activation i creds now)
unfolding ◌>>◌ ◌>>=◌ try_else pure raise
activation-Issues i creds now =
    let fs =
      set_status active
      ∷ set_username creds.username
      ∷ set_lease_id creds.lease_id
      ∷ set_expires_at (now + seconds creds.lease_duration)
      ∷ [] in
    record {
      at = λ env w p.
          let moved =
            update_grant-Lives i fs env w
              (λ g found. (rw (p g found) (next here activate), rw (p g found) refl)) in
          elim (update_grant-cases i fs env w) [
            | inl cut ↦ rw cut (rw cut at moved, λ e h. cc)
            | inr wrote ↦ rw wrote (rw wrote at moved, λ e h. cc)
          ];
    }

issue_steps-Issues :
    (req : GrantRequest) (i : Text) (creation revocation : List Text)
    → Issues i (issue_steps req i creation revocation)
unfolding issue_steps
issue_steps-Issues req i creation revocation =
    let fr = Holds-frame i in
    Issues-then i _ _ (Follows-write_role fr i req.db_type creation revocation req.ttl_seconds) (
      Issues-then i _ _ (Follows-point fr _) (
        Issues-bind i _ _ (Follows-create_grant_token fr req.ttl_seconds i) (λ made.
          Issues-then i _ _ (Follows-point fr _) (
            Issues-then i _ _ (accessor-Holds i made.1) (
              Issues-bind i _ _ (Follows-read_credentials fr made.0 i) (λ creds.
                Issues-then i _ _ (Follows-point fr _)
                  (Issues-bind i _ _ (Follows-time fr) (λ now. activation-Issues i creds now))))))))

issue_failed-Lives :
    (i actor request_id : Text) (e : Exn) (env : Env) (w : World)
    → IsIssuing i w
    → Lives w (issue_failed i actor request_id e env w).1
unfolding issue_failed
issue_failed-Lives i actor request_id e env w p =
    let log =
      audit (some request_id) (some i) actor (codes "issue") (codes "error") (type_name e) in
    let logged =
      audit-SameGrants (some request_id) (some i) actor (codes "issue") (codes "error")
        (type_name e) env w in
    reach_then Lives-frame env w log _ (Lives-same logged) (λ _ _.
      teardown-Lives i failed (some request_id) (codes "system") false env (log env w).1
        (λ g found. rw (p g (ap (find_row i) (sym logged) ∙ found)) of_issuing))

attempted-Lives :
    (req : GrantRequest) (actor request_id i : Text) (creation revocation : List Text) (env : Env)
    (w : World)
    → IsIssuing i w
    → Lives w
        (try_else
          (issue_steps req i creation revocation)
          (λ e. issue_failed i actor request_id e >> raise e)
          pure
          env
          w).1
attempted-Lives req actor request_id i creation revocation env w p =
    let steps = issue_steps req i creation revocation in
    let (lives, after) = (issue_steps-Issues req i creation revocation).at env w p in
    reach_try_else Lives-frame env w steps _ _ lives
      (λ e raised_e.
        reach_then Lives-frame env (steps env w).1 (issue_failed i actor request_id e) _
          (issue_failed-Lives i actor request_id e env (steps env w).1 (after e raised_e))
          (λ _ _. (Follows-raise Lives-frame e).at env _))
      (λ creds _. (Follows-pure Lives-frame creds).at env _)

issue_logged-Lives :
    (req : GrantRequest) (actor request_id i : Text) (creation revocation : List Text)
    → Follows Lives (issue_logged req actor request_id i creation revocation)
unfolding issue_logged
issue_logged-Lives req actor request_id i creation revocation =
    let n : NewGrant = record {
      id = i;
      db_type = req.db_type;
      scope = req.scope;
      table_names = requested_tables req;
      commands = req.commands;
      requested_for = req.requested_for;
      issued_by = actor;
      ttl_seconds = req.ttl_seconds;
    } in
    record {
      at = λ env w.
          let (lives, inserted) = insert_grant-cases n env w in
          let w1 = (insert_grant n env w).1 in
          reach_then Lives-frame env w (insert_grant n) _ lives (λ _ done_n.
            let (row, there, fresh) = inserted done_n in
            let p : IsIssuing i w1 = λ g found. let e : g ≡ row = cc (found, there) in rw e fresh in
            reach_bind Lives-frame env w1 _ _
              (attempted-Lives req actor request_id i creation revocation env w1 p)
              (λ creds _.
                (Follows-then Lives-frame _ _ (audit-Lives _ _ _ _ _ _)
                    (Follows-pure Lives-frame creds)).at
                  env _));
    }

-- `issue` moves the rows that are there along the lifecycle only, however it ends.
pub issue-Lives :
    (req : GrantRequest) (actor request_id : Text) → Follows Lives (issue req actor request_id)
unfolding issue new_grant_id validate_ttl
issue-Lives req actor request_id =
    let fr = Lives-frame in
    Follows-then fr _ _
      (Follows-bind fr _ _ (Follows-asks fr _)
        (λ config. Follows-if _ _ _ (Follows-pure fr tt) (Follows-raise fr _)))
      (Follows-bind fr _ _ (Follows-catalog fr req.db_type) (λ cat.
        Follows-bind fr _ _ (Follows-lift fr _) (λ built.
          Follows-bind fr _ _ (Follows-mutate_statements fr built.0) (λ mutated.
            Follows-bind fr _ _
              (Follows-bind fr _ _ (Follows-ask fr (token_hex 5)) (λ digits. Follows-pure fr _))
              (λ i.
                Follows-then fr _ _
                  (record { at = λ env w. Lives-same (begin-SameGrants req.db_type i env w) })
                  (Follows-bind fr _ _
                    (Follows-finally fr _ _
                      (issue_logged-Lives req actor request_id i mutated built.1)
                      (end_op-Lives req.db_type i))
                    (λ creds. Follows-bind fr _ _ (get_grant-Lives i) (λ g.
                      Follows-bind fr _ _ (public_row-Lives g) (λ out. Follows-pure fr _)))))))))
