-- ===== src/Web/Kept.antt =====
-- The table of sessions across the actions of main.py.
use vault_db_access.Prelude.{
  Option, suc, zero, ℕ, busy, ℕ, ◌≡◌, refl, sym, ap, ◌∙◌, Text, List, Result, ok, err, Exn,
}
use vault_db_access.Rows.{Session}
use vault_db_access.Effects.{
  killed, hung, continue, try_else, modify, try_catch, Guards, M, World, Env, Outcome, done, raised,
  lift, raise, asks, time,
}
use vault_db_access.Grants.Returned.History.{Precedes, Precedes-frame}
use vault_db_access.Grants.{with_guards, admit, Kind, take_slot, release}
use vault_db_access.Web.Sessions.{or_503, busy_to_503}
use vault_db_access.Store.{get_session, hash, audit}
use vault_db_access.Effects.Ensures.{
  Ensures-finally, Ensures-then, Ensures-gets, Ensures-weaken, Ensures-bind, Ensures-modify,
  Ensures-raise, Ensures-pure, Ensures-try_else, Ensures, Answered,
}
use vault_db_access.Effects.Frame.{
  Follows-gets, Follows-asks, Follows-bind, Follows-time, Frame, Follows,
}
use mathlib.Core.Path.{subst}
use vault_db_access.Effects.{pure}
use vault_db_access.Effects.Returns.{pure-Returns, raise-NeverReturns}

-- The sessions are not touched.
abbrev pub SameSessions : World → World → Type 0
SameSessions w w' = w'.db.sessions ≡ w.db.sessions

pub SameSessions-frame : Frame SameSessions
SameSessions-frame = record {
  stay = λ w. refl;
  chain = λ u v w a b. b ∙ a;
  asked = λ c w. refl;
  served = λ s w. refl;
}

pub Follows-audit :
    (request_id grant_id : Option Text) (actor action result detail : Text)
    → Follows SameSessions (audit request_id grant_id actor action result detail)
unfolding audit modify
Follows-audit request_id grant_id actor action result detail =
    Follows-bind SameSessions-frame time _ (Follows-time SameSessions-frame)
      (λ now. record { at = λ env w. refl })

pub Follows-get_session : (sid : Text) → Follows SameSessions (get_session sid)
unfolding get_session hash
Follows-get_session sid =
    Follows-bind SameSessions-frame _ _ (Follows-asks SameSessions-frame _)
      (λ key. Follows-gets SameSessions-frame _)

-- The table holds these rows.
abbrev pub Rows : List Session → World → Type 0
Rows ss w = w.db.sessions ≡ ss

-- A later state of the same run, with the same rows.
abbrev pub Onward : World → World → Type 0
Onward w w' = SameSessions w w' × Precedes w w'

pub Onward-frame : Frame Onward
Onward-frame = record {
  stay = λ w. (refl, Precedes-frame.stay w);
  chain = λ u v w a b. (b.0 ∙ a.0, Precedes-frame.chain u v w a.1 b.1);
  asked = λ c w. (refl, Precedes-frame.asked c w);
  served = λ s w. (refl, Precedes-frame.served s w);
}

-- The run has come from `u` to this state, with the rows of `u`.
abbrev pub Since : World → World → Type 0
Since u w = Onward u w

module _ {A : Type 0} {env : Env} where
  pub Ensures-same :
      (ss : List Session) (m : M A)
      → Follows SameSessions m
      → Ensures env (Rows ss) m (λ a w. Answered env (Rows ss) m a × Rows ss w)
  Ensures-same ss m follows = record {
    when = λ w w' a rows h. (
      record { at = w; held_there = rows; answer = ap (λ (t : Outcome A × World). t.0) h },
      ap (λ (t : Outcome A × World). t.1.db.sessions) (sym h) ∙ follows.at env w ∙ rows,
    );
  }

  pub Ensures-Since :
      (u : World) (m : M A)
      → Follows Onward m
      → Ensures env (Since u) m (λ a w. Answered env (Since u) m a × Since u w)
  Ensures-Since u m follows = record {
    when = λ w w' a since h. (
      record { at = w; held_there = since; answer = ap (λ (t : Outcome A × World). t.0) h },
      subst (Since u) (ap (λ (t : Outcome A × World). t.1) h)
          (Onward-frame.chain u w (m env w).1 since (follows.at env w)),
    );
  }

  -- What an action reads of the environment.
  pub Ensures-asks :
      {P : World → Type 0} (f : Env → A) → Ensures env P (asks f) (λ a w. (a ≡ f env) × P w)
  unfolding asks pure
  Ensures-asks {P = P} f = record {
    when = λ w w' a p h.
        let (is_value, same) = pure-Returns (f env) a env w w' h in (sym is_value, subst P same p);
  }

  -- A computation that may raise, and returned.
  pub Ensures-lift :
      {P : World → Type 0} (r : Result A) → Ensures env P (lift r) (λ a w. (r ≡ ok a) × P w)
  unfolding lift pure raise
  Ensures-lift {P = P} (ok a) = record {
    when = λ w w' b p h.
        let (is_value, same) = pure-Returns a b env w w' h in (ap ok is_value, subst P same p);
  }
  Ensures-lift (err e) = record { when = λ w w' b p h. absurd (raise-NeverReturns e env w w' b h) }

module _ {A : Type 0} {env : Env} {P : World → Type 0} {Q : A → World → Type 0} where
  -- What the slots do not matter for holds under an admission if it holds of the body.
  pub Ensures-admit :
      (kind : Kind) (m : M A)
      → ((g : Guards) (w : World) → P w → P (with_guards g w))
      → ((a : A) (g : Guards) (w : World) → Q a w → Q a (with_guards g w))
      → Ensures env P m Q
      → Ensures env P (admit kind m) Q
  unfolding admit release
  Ensures-admit kind m before after h =
      Ensures-bind (λ _. P) _ _ (Ensures-weaken _ (λ w p. p) (λ n w (_, p). p) (Ensures-gets _))
        (λ n.
          Ensures-then P _ _ (taken n)
            (Ensures-finally Q m _ h (λ a. Ensures-modify (Q a) _ (λ w q. after a _ w q))))
    where
      taken : (n : ℕ) → Ensures env P (take_slot kind n) (λ _. P)
      taken zero = Ensures-raise busy
      taken (suc n) = Ensures-modify P _ (λ w p. before _ w p)

  -- A `Busy` that is raised again.
  pub Ensures-or_503 : (m : M A) → Ensures env P m Q → Ensures env P (or_503 m) Q
  unfolding or_503 try_catch
  Ensures-or_503 m h =
      Ensures-try_else Q m _ pure h (λ e. raise-NeverReturns (busy_to_503 e))
        (λ a. Ensures-pure a Q (λ w q. q))

-- A test that raises when it fails.
pub Ensures-test :
    {env : Env} {P : World → Type 0} (r : Result (Unit {0}))
    → Ensures env P (lift r) (λ _ w. (r ≡ ok tt) × P w)
Ensures-test r = Ensures-weaken (lift r) (λ w p. p) (λ u w p. p) (Ensures-lift r)

module _ {env : Env} where
  pub Ensures-hash :
      (P : World → Type 0) (sid : Text)
      → Ensures env P (hash sid) (λ key w. (key ≡ env.sha256 sid) × P w)
  unfolding hash
  Ensures-hash P sid = Ensures-asks (λ env. env.sha256 sid)

  pub Ensures-time : (ss : List Session) → Ensures env (Rows ss) time (λ _. Rows ss)
  Ensures-time ss =
      Ensures-weaken time (λ w rows. rows) (λ now w h. h.1)
        (Ensures-same ss time (Follows-time SameSessions-frame))

  -- The audit log is another table.
  pub Ensures-audit :
      (ss : List Session) (request_id grant_id : Option Text) (actor action result detail : Text)
      → Ensures env (Rows ss) (audit request_id grant_id actor action result detail) (λ _. Rows ss)
  unfolding audit
  Ensures-audit ss request_id grant_id actor action result detail =
      Ensures-bind _ _ _ (Ensures-time ss) (λ now. Ensures-modify _ _ (λ w rows. rows))

  -- Actions that leave the table alone, whatever they answer.
  pub Ensures-alone :
      {A : Type 0} (ss : List Session) (m : M A)
      → Follows SameSessions m
      → Ensures env (Rows ss) m (λ _. Rows ss)
  Ensures-alone ss m follows =
      Ensures-weaken m (λ w p. p) (λ a w p. p.1) (Ensures-same ss m follows)

  -- What is said of the table alone.
  pub Ensures-table :
      {A : Type 0} (T : List Session → Type 0) (m : M A)
      → Follows SameSessions m
      → Ensures env (λ w. T w.db.sessions) m (λ _ w. T w.db.sessions)
  Ensures-table {A = A} T m follows = record {
    when = λ w w' a p h.
        subst T (sym (follows.at env w) ∙ ap (λ (t : Outcome A × World). t.1.db.sessions) h) p;
  }

module _ {A B : Type 0} {env : Env} {R : B → World → Type 0} where
  -- A `try` whose handler may return.
  pub Ensures-try :
      (u : World) (m : M A) (handler : Exn → M B) (f : A → M B)
      → Follows Onward m
      → ((e : Exn) → Ensures env (Since u) (handler e) R)
      → ((a : A) → Answered env (Since u) m a → Ensures env (Since u) (f a) R)
      → Ensures env (Since u) (try_else m handler f) R
  unfolding try_else
  Ensures-try u m handler f follows raised_case returned = record {
    when = λ w w' b rows h. go w w' b rows (m env w).0 refl h;
  }
    where
      go :
          (w w' : World) (b : B)
          → Since u w
          → (r : Outcome A) → (m env w).0 ≡ r
          → continue r handler f env (m env w).1 ≡ (done b, w')
          → R b w'
      go w w' b rows (done a) e k =
          (returned a (record { at = w; held_there = rows; answer = e })).when _ w' b
            (Onward-frame.chain u w (m env w).1 rows (follows.at env w)) k
      go w w' b rows (raised x) e k =
          (raised_case x).when _ w' b (Onward-frame.chain u w (m env w).1 rows (follows.at env w)) k
      go w w' b rows killed e k = cc
      go w w' b rows hung e k = cc
