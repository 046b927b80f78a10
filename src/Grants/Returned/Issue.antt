-- ===== src/Grants/Returned/Issue.antt =====
-- `issue`, when it returns.
use vault_db_access.Prelude.{
  ◌≡◌, sym, ap, ◌∙◌, List, Text, true, ◌&&◌, Bool-cases, inl, inr, Option-cases,
}
use vault_db_access.Prelude.Int.{ℤ, leb_ℤ}
use mathlib.Core.Path.{subst}
use vault_db_access.Models.{GrantRequest}
use vault_db_access.Rows.{Grant, find_row, insert_row}
use vault_db_access.Effects.{
  World, Env, Outcome, done, Credentials, token_hex, time, gets, asks, modify, pure, raise,
  try_else, ◌>>=◌,
}
use vault_db_access.Effects.Frame.{
  Follows, Follows-pure, Follows-raise, Follows-asks, Follows-lift, Follows-ask, Follows-bind,
  Follows-if,
}
use vault_db_access.Effects.Returns.{
  Returns, then_raise-NeverReturns, raise-NeverReturns, then-Returns, bind-Returns,
  try_else-Returns, finally-Returns, pure-Returns,
}
use vault_db_access.Store.{insert_grant, NewGrant, new_row, get_grant, new_grant_id}
use vault_db_access.Introspect.Frames.{Follows-catalog}
use vault_db_access.Faults.Frames.{Follows-mutate_statements}
use vault_db_access.Grants.Guarding.{validate_ttl, end_op, PublicGrant, public_view}
use vault_db_access.Grants.Issue.{
  issue_steps, issue_failed, requested_tables, issue_logged, public_row, issue,
}
use vault_db_access.Grants.Lifecycle.Rows.{find_row-append_new}
use vault_db_access.Grants.Returned.Activation.{Activated, issue_steps-Activated}
use vault_db_access.Grants.Returned.Quiet.{
  IsRow, Quiet, Quiet-frame, audit-Quiet, begin-Quiet, end_op-Quiet, Returns-Quiet, IsRow-Quiet,
}

-- The row that `issue` inserts.
abbrev pub request_row : GrantRequest → Text → Text → NewGrant
request_row req actor i = record {
  id = i;
  db_type = req.db_type;
  scope = req.scope;
  table_names = requested_tables req;
  commands = req.commands;
  requested_for = req.requested_for;
  issued_by = actor;
  ttl_seconds = req.ttl_seconds;
}

insert_grant-IsRow :
    (n : NewGrant) (env : Env) (w w' : World)
    → Returns (insert_grant n) env w tt w'
    → IsRow n.id (new_row n (env.time w.history)) w'
unfolding insert_grant insert_row time gets modify raise ◌>>=◌ try_else
insert_grant-IsRow n env w w' h =
    let row : Grant = new_row n (env.time w.history) in
    elim (Bool-cases (env.is_killed w.history)) [
      | inl dead ↦ cc (rw dead at h)
      | inr alive ↦ elim (Option-cases (find_row n.id w.db.grants)) [
        | inl new ↦
            ap (λ (t : Outcome (Unit {0}) × World). find_row n.id t.1.db.grants)
              (sym (rw (alive, new) at h))
            ∙ find_row-append_new row w.db.grants new
        | inr (old, there) ↦ cc (rw (alive, there) at h)
      ]
    ]

-- The run from `u` to `w` has inserted the row of the request and made it active.
record Granted (req : GrantRequest) (actor i : Text) (env : Env) (creds : Credentials) (u w : World)
    : Type 0 where
  inserted : World
  insert : Returns (insert_grant (request_row req actor i)) env u tt inserted
  final : World
  activated :
      Activated req i env
        (new_row (request_row req actor i) (env.time u.history))
        creds
        inserted
        final
  ends : Quiet final w

issue_logged-Granted :
    (req : GrantRequest) (actor request_id i : Text) (creation revocation : List Text) (env : Env)
    (u w : World) (creds : Credentials)
    → Returns (issue_logged req actor request_id i creation revocation) env u creds w
    → Granted req actor i env creds u w
unfolding issue_logged
issue_logged-Granted req actor request_id i creation revocation env u w creds h =
    let n = request_row req actor i in
    let (_, w1, insert, h1) = then-Returns _ _ env u w creds h in
    let (tried_creds, w2, tried, h2) = bind-Returns _ _ env w1 w creds h1 in
    let (step_creds, w3, steps, h3) =
      try_else-Returns (issue_steps req i creation revocation) _ pure env w1 w2 tried_creds
        (λ e. then_raise-NeverReturns (issue_failed i actor request_id e) e) tried in
    let (same_step, same_w2) = pure-Returns step_creds tried_creds env w3 w2 h3 in
    let (_, w4, logged, h4) = then-Returns _ _ env w2 w creds h2 in
    let (same_tried, same_w) = pure-Returns tried_creds creds env w4 w h4 in
    record {
      inserted = w1;
      insert = insert;
      final = w3;
      activated =
          issue_steps-Activated req i creation revocation env (new_row n (env.time u.history)) w1 w3
            creds (insert_grant-IsRow n env u w1 insert)
            (steps ∙ ap (λ (c : Credentials). (done c, w3)) (same_step ∙ same_tried));
      ends = subst (Quiet w3) same_w (
          subst (λ v. Quiet v w4) (sym same_w2)
            (Returns-Quiet _ env w2 w4 _ (audit-Quiet _ _ _ _ _ _) logged));
    }

-- What the run of an issue from `w` to `w'` has done, when it returned: up to the insertion and after
-- the activation nothing touches the rows; the answer shows the active row, and the password that
-- Vault gave out is returned beside it.
pub record Issued (req : GrantRequest) (actor : Text) (env : Env) (answer : PublicGrant × Text)
    (w w' : World) : Type 0 where
  pub in_bounds :
      (leb_ℤ env.config.ttl_min req.ttl_seconds && leb_ℤ req.ttl_seconds env.config.ttl_max) ≡ true
  pub id : Text
  pub creds : Credentials
  pub inserting : World
  pub inserted : World
  pub final : World
  pub start : Quiet w inserting
  pub insert : Returns (insert_grant (request_row req actor id)) env inserting tt inserted
  pub activated :
      Activated req id env
        (new_row (request_row req actor id) (env.time inserting.history))
        creds
        inserted
        final
  pub ends : Quiet final w'
  pub there : IsRow id activated.row w'
  pub shown : answer.0 ≡ public_view activated.row
  pub password : answer.1 ≡ creds.password

validate_ttl-in_bounds :
    (req : GrantRequest) (env : Env) (w w' : World)
    → Returns (validate_ttl req.ttl_seconds) env w tt w'
    → (leb_ℤ env.config.ttl_min req.ttl_seconds && leb_ℤ req.ttl_seconds env.config.ttl_max) ≡ true
unfolding validate_ttl asks ◌>>=◌ try_else
validate_ttl-in_bounds req env w w' h =
    elim (Bool-cases
      (leb_ℤ env.config.ttl_min req.ttl_seconds && leb_ℤ req.ttl_seconds env.config.ttl_max)) [
        | inl fits ↦ fits
        | inr wide ↦ absurd (raise-NeverReturns _ env w w' tt (rw wide at h))
      ]

validate_ttl-Quiet : (ttl : ℤ) → Follows Quiet (validate_ttl ttl)
unfolding validate_ttl
validate_ttl-Quiet ttl =
    Follows-bind Quiet-frame _ _ (Follows-asks Quiet-frame _)
      (λ config. Follows-if _ _ _ (Follows-pure Quiet-frame tt) (Follows-raise Quiet-frame _))

new_grant_id-Quiet : Follows Quiet new_grant_id
unfolding new_grant_id
new_grant_id-Quiet =
    Follows-bind Quiet-frame _ _ (Follows-ask Quiet-frame (token_hex 5))
      (λ digits. Follows-pure Quiet-frame _)

-- The end of `issue`: the row is read again.
answered :
    (i : Text) (creds : Credentials) (row : Grant) (env : Env) (w w' : World)
    (answer : PublicGrant × Text)
    → IsRow i row w
    → Returns
        (get_grant i >>= λ g. public_row g >>= λ out. pure (out, creds.password))
        env
        w
        answer
        w'
    → (w ≡ w') × (answer.0 ≡ public_view row) × (answer.1 ≡ creds.password)
unfolding get_grant gets ◌>>=◌ try_else public_row pure
answered i creds row env w w' answer there h =
    let (same, at_end) =
      pure-Returns (public_view row, creds.password) answer env w w' (rw there at h) in
    (
      at_end,
      ap (λ (p : PublicGrant × Text). p.0) (sym same),
      ap (λ (p : PublicGrant × Text). p.1) (sym same),
    )

-- When `issue` returns, the requested lifetime was within the bounds, and its run was this, every
-- state reached from the one before it and no other write touching the rows: the row of the request is
-- inserted; the grant's token is made; its accessor is stored in the row; then the credentials are
-- read with that token; then the row is made active with the account, the lease and the expiry of
-- those credentials. That row stands at the end with the accessor and the request in it, the answer
-- shows it, and the password beside it is the one of those credentials.
pub issue-Returns :
    (req : GrantRequest) (actor request_id : Text) (env : Env) (w w' : World)
    (answer : PublicGrant × Text)
    → Returns (issue req actor request_id) env w answer w'
    → Issued req actor env answer w w'
unfolding issue
issue-Returns req actor request_id env w w' answer h =
    let fr = Quiet-frame in
    let (_, w1, checked, h1) = then-Returns _ _ env w w' answer h in
    let (cat, w2, listed, h2) = bind-Returns _ _ env w1 w' answer h1 in
    let ((creation, revocation), w3, built, h3) = bind-Returns _ _ env w2 w' answer h2 in
    let (mutated, w4, mutating, h4) = bind-Returns _ _ env w3 w' answer h3 in
    let (i, w5, named, h5) = bind-Returns _ _ env w4 w' answer h4 in
    let (_, w6, begun, h6) = then-Returns _ _ env w5 w' answer h5 in
    let (creds, w7, granted, h7) = bind-Returns _ _ env w6 w' answer h6 in
    let (w8, body, ended) = finally-Returns _ (end_op req.db_type i) env w6 w7 creds granted in
    let g = issue_logged-Granted req actor request_id i mutated revocation env w6 w8 creds body in
    let over =
      fr.chain g.final w8 w7 g.ends
        (Returns-Quiet _ env w8 w7 tt (end_op-Quiet req.db_type i) ended) in
    let there = IsRow-Quiet i g.activated.row g.final w7 over g.activated.there in
    let (at_end, shown, password) = answered i creds g.activated.row env w7 w' answer there h7 in
    record {
      in_bounds = validate_ttl-in_bounds req env w w1 checked;
      id = i;
      creds = creds;
      inserting = w6;
      inserted = g.inserted;
      final = g.final;
      start =
          fr.chain w w1 w6 (Returns-Quiet _ env w w1 _ (validate_ttl-Quiet req.ttl_seconds) checked)
            (fr.chain w1 w2 w6 (Returns-Quiet _ env w1 w2 _ (Follows-catalog fr req.db_type) listed)
              (fr.chain w2 w3 w6 (Returns-Quiet _ env w2 w3 _ (Follows-lift fr _) built) (
                fr.chain w3 w4 w6
                  (Returns-Quiet _ env w3 w4 _ (Follows-mutate_statements fr creation) mutating)
                  (fr.chain w4 w5 w6 (Returns-Quiet _ env w4 w5 _ new_grant_id-Quiet named)
                    (Returns-Quiet _ env w5 w6 _ (begin-Quiet req.db_type i) begun)))));
      insert = g.insert;
      activated = g.activated;
      ends = subst (Quiet g.final) at_end over;
      there = subst (IsRow i g.activated.row) at_end there;
      shown = shown;
      password = password;
    }
