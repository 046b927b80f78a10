-- ===== src/Grants/Returned/Activation.antt =====
-- The inner `try` of `issue`, when it returns.
use vault_db_access.Prelude.{◌≡◌, refl, ap, ◌∙◌, arith, some, ℕ, List, [], ◌∷◌, Text, ◌+◌}
use vault_db_access.Models.{active, GrantRequest}
use vault_db_access.Rows.{
  Grant, Field, set_status, set_username, set_lease_id, set_expires_at, set_token_accessor,
}
use mathlib.Core.Path.{subst}
use vault_db_access.Effects.{done, World, Env, Credentials, time, seconds}
use vault_db_access.Effects.Frame.{Follows-time}
use vault_db_access.Effects.Returns.{Returns, bind-Returns, then-Returns, pure-Returns}
use vault_db_access.Store.{update_grant}
use vault_db_access.Vault.{create_grant_token, read_credentials}
use vault_db_access.Vault.Frames.{
  Follows-write_role, Follows-create_grant_token, Follows-read_credentials,
}
use vault_db_access.Faults.Frames.{Follows-point}
use vault_db_access.Grants.Issue.{issue_steps}
use vault_db_access.Grants.Lifecycle.Relation.{SameRequest, SameRequest-trans}
use vault_db_access.Grants.Lifecycle.Rows.{stamped, assign_all-SameRequest}
use vault_db_access.Grants.Returned.Quiet.{
  IsRow, Quiet, Quiet-frame, Returns-Quiet, IsRow-Quiet, IsRow-Returns,
}
use vault_db_access.Grants.Returned.Teardown.{update_grant-Returns}

-- The columns that are written last.
abbrev pub activation_fields : Credentials → ℕ → List Field
activation_fields creds now =
    set_status active
    ∷ set_username creds.username
    ∷ set_lease_id creds.lease_id
    ∷ set_expires_at (now + seconds creds.lease_duration)
    ∷ []

-- The run from `u` to `w`, each state reached from the one before it: the token is made, then its
-- accessor is stored, then the credentials are read with the token, then the row is made active; no
-- other write touches the rows.
pub record Steps (req : GrantRequest) (i : Text) (env : Env) (creds : Credentials) (u w : World)
    : Type 0 where
  pub token : Text
  pub accessor : Text
  pub making : World
  pub made : World
  pub storing : World
  pub stored : World
  pub credited : World
  pub timing : World
  pub now : ℕ
  pub activating : World
  pub start : Quiet u making
  pub make : Returns (create_grant_token req.ttl_seconds i) env making (token, accessor) made
  pub then_store : Quiet made storing
  pub store : Returns (update_grant i (set_token_accessor accessor ∷ [])) env storing tt stored
  pub read : Returns (read_credentials token i) env stored creds credited
  pub then_time : Quiet credited timing
  pub clock : Returns time env timing now activating
  pub activate : Returns (update_grant i (activation_fields creds now)) env activating tt w

-- The run from `u` to `w` has made the row `i`, which was `g`, active with what Vault answered.
pub record Activated (req : GrantRequest) (i : Text) (env : Env) (g : Grant) (creds : Credentials)
    (u w : World) : Type 0 where
  pub steps : Steps req i env creds u w
  pub row : Grant
  pub there : IsRow i row w
  pub is_active : row.status ≡ active
  pub named : row.username ≡ some creds.username
  pub requested : SameRequest g row
  pub leased : row.lease_id ≡ some creds.lease_id
  pub expiry : row.expires_at ≡ some (steps.now + seconds creds.lease_duration)
  pub kept_accessor : row.token_accessor ≡ some steps.accessor

-- The row after such a run.
Steps-Activated :
    (req : GrantRequest) (i : Text) (env : Env) (g : Grant) (creds : Credentials) (u w : World)
    → IsRow i g u
    → Steps req i env creds u w
    → Activated req i env g creds u w
Steps-Activated req i env g creds u w row s =
    let fr = Quiet-frame in
    let ahead = set_token_accessor s.accessor ∷ [] in
    let last = activation_fields creds s.now in
    let at_made =
      IsRow-Returns i g (create_grant_token req.ttl_seconds i) env s.making s.made
        (s.token, s.accessor) (Follows-create_grant_token fr req.ttl_seconds i) s.make
        (IsRow-Quiet i g u s.making s.start row) in
    let at_store = IsRow-Quiet i g s.made s.storing s.then_store at_made in
    let noted = stamped ahead (env.time s.storing.history) g in
    let at_stored : IsRow i noted s.stored =
      update_grant-Returns i ahead env s.storing s.stored tt g at_store s.store in
    let at_credited =
      IsRow-Returns i noted (read_credentials s.token i) env s.stored s.credited creds
        (Follows-read_credentials fr s.token i) s.read at_stored in
    let at_last =
      IsRow-Returns i noted time env s.timing s.activating s.now (Follows-time fr) s.clock
        (IsRow-Quiet i noted s.credited s.timing s.then_time at_credited) in
    record {
      steps = s;
      row = stamped last (env.time s.activating.history) noted;
      there = update_grant-Returns i last env s.activating w tt noted at_last s.activate;
      is_active = refl;
      named = refl;
      requested =
          SameRequest-trans {f = g} {g = noted} (ground (arith, assign_all-SameRequest ahead g))
            (ground (arith, assign_all-SameRequest last noted));
      leased = refl;
      expiry = refl;
      kept_accessor = refl;
    }

issue_steps-Steps :
    (req : GrantRequest) (i : Text) (creation revocation : List Text) (env : Env) (u w : World)
    (creds : Credentials)
    → Returns (issue_steps req i creation revocation) env u creds w
    → Steps req i env creds u w
unfolding issue_steps
issue_steps-Steps req i creation revocation env u w creds h =
    let fr = Quiet-frame in
    let (_, w1, role, h1) = then-Returns _ _ env u w creds h in
    let (_, w2, fault, h2) = then-Returns _ _ env w1 w creds h1 in
    let ((token, accessor), w3, make, h3) = bind-Returns _ _ env w2 w creds h2 in
    let (_, w4, fault', h4) = then-Returns _ _ env w3 w creds h3 in
    let (_, w5, store, h5) = then-Returns _ _ env w4 w creds h4 in
    let (read_creds, w6, read, h6) = bind-Returns _ _ env w5 w creds h5 in
    let (_, w7, fault'', h7) = then-Returns _ _ env w6 w creds h6 in
    let (now, w8, clock, h8) = bind-Returns _ _ env w7 w creds h7 in
    let (_, w9, activate, h9) = then-Returns _ _ env w8 w creds h8 in
    let (same_creds, same_world) = pure-Returns read_creds creds env w9 w h9 in
    record {
      token = token;
      accessor = accessor;
      making = w2;
      made = w3;
      storing = w4;
      stored = w5;
      credited = w6;
      timing = w7;
      now = now;
      activating = w8;
      start =
          fr.chain u w1 w2
            (Returns-Quiet _ env u w1 _
              (Follows-write_role fr i req.db_type creation revocation req.ttl_seconds) role)
            (Returns-Quiet _ env w1 w2 _ (Follows-point fr _) fault);
      make = make;
      then_store = Returns-Quiet _ env w3 w4 _ (Follows-point fr _) fault';
      store = store;
      read = read ∙ ap (λ (c : Credentials). (done c, w6)) same_creds;
      then_time = Returns-Quiet _ env w6 w7 _ (Follows-point fr _) fault'';
      clock = clock;
      activate =
          subst (λ c. Returns (update_grant i (activation_fields c now)) env w8 tt w) same_creds
            (activate ∙ ap (λ (v : World). (done tt, v)) same_world);
    }

-- What the inner `try` has done to the row that was inserted.
pub issue_steps-Activated :
    (req : GrantRequest) (i : Text) (creation revocation : List Text) (env : Env) (g : Grant)
    (u w : World) (creds : Credentials)
    → IsRow i g u
    → Returns (issue_steps req i creation revocation) env u creds w
    → Activated req i env g creds u w
issue_steps-Activated req i creation revocation env g u w creds row h =
    Steps-Activated req i env g creds u w row
      (issue_steps-Steps req i creation revocation env u w creds h)
