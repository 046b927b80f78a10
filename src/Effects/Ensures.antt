-- ===== src/Effects/Ensures.antt =====
-- What holds of the state when an action returns: one rule for each way to build an action.
use vault_db_access.Prelude.{◌≡◌, refl, sym, ap, Exn, Bool, true, false, if◌then◌else◌}
use mathlib.Core.Path.{subst}
use vault_db_access.Effects.Calls.{Env, Outcome, done}
use vault_db_access.Effects.Monad.{
  modify, gets, M, World, pure, raise, finally, try_else, ◌>>=◌, ◌>>◌,
}
use vault_db_access.Effects.Returns.{
  Returns, NeverReturns, try_else-Returns, bind-Returns, finally-Returns, pure-Returns,
  raise-NeverReturns,
}

-- From a state where `P` holds, the action returns a value and a state where `Q` holds, if it
-- returns.
pub record Ensures {A : Type 0} (env : Env) (P : World → Type 0) (m : M A) (Q : A → World → Type 0)
    : Type 0 where
  pub when : (w w' : World) (a : A) → P w → Returns m env w a w' → Q a w'

module _ {A B : Type 0} {env : Env} {P : World → Type 0} where
  pub Ensures-bind :
      (Q : A → World → Type 0) {R : B → World → Type 0} (m : M A) (f : A → M B)
      → Ensures env P m Q
      → ((a : A) → Ensures env (Q a) (f a) R)
      → Ensures env P (m >>= f) R
  Ensures-bind Q m f hm hf = record {
    when = λ w w' b p h.
        let (a, w1, first, rest) = bind-Returns m f env w w' b h in
        (hf a).when w1 w' b (hm.when w w1 a p first) rest;
  }

  pub Ensures-then :
      (Q : World → Type 0) {R : B → World → Type 0} (m : M A) (k : M B)
      → Ensures env P m (λ _. Q)
      → Ensures env Q k R
      → Ensures env P (m >> k) R
  unfolding ◌>>◌
  Ensures-then Q m k hm hk = Ensures-bind (λ _. Q) m (λ _. k) hm (λ _. hk)

module _ {A : Type 0} {env : Env} {P : World → Type 0} where
  -- A `try` whose handler raises again.
  pub Ensures-try_else :
      {B : Type 0} (Q : A → World → Type 0) {R : B → World → Type 0} (m : M A) (handler : Exn → M B)
      (f : A → M B)
      → Ensures env P m Q
      → ((e : Exn) → NeverReturns (handler e))
      → ((a : A) → Ensures env (Q a) (f a) R)
      → Ensures env P (try_else m handler f) R
  Ensures-try_else Q m handler f hm never hf = record {
    when = λ w w' b p h.
        let (a, w1, first, rest) = try_else-Returns m handler f env w w' b never h in
        (hf a).when w1 w' b (hm.when w w1 a p first) rest;
  }

  pub Ensures-finally :
      (Q : A → World → Type 0) {R : A → World → Type 0} (m : M A) (cleanup : M (Unit {0}))
      → Ensures env P m Q
      → ((a : A) → Ensures env (Q a) cleanup (λ _. R a))
      → Ensures env P (finally m cleanup) R
  Ensures-finally Q m cleanup hm hc = record {
    when = λ w w' a p h.
        let (w1, body, cleaned) = finally-Returns m cleanup env w w' a h in
        (hc a).when w1 w' tt (hm.when w w1 a p body) cleaned;
  }

  -- Nothing is asked of it.
  pub Ensures-any : (m : M A) → Ensures env P m (λ _ _. Unit)
  Ensures-any m = record { when = λ w w' a p h. tt }

module _ {A : Type 0} {env : Env} {P : World → Type 0} where
  pub Ensures-pure :
      (a : A) (Q : A → World → Type 0) → ((w : World) → P w → Q a w) → Ensures env P (pure a) Q
  Ensures-pure a Q holds = record {
    when = λ w w' b p h.
        let (is_b, same) = pure-Returns a b env w w' h in
        subst (λ v. Q b v) same (subst (λ x. Q x w) is_b (holds w p));
  }

  -- What is known whatever the state is.
  pub Ensures-given :
      {X : Type 0} {Q : A → World → Type 0} (m : M A)
      → (X → Ensures env P m Q)
      → Ensures env (λ w. X × P w) m Q
  Ensures-given m h = record { when = λ w w' a (x, p) r. (h x).when w w' a p r }

-- The action returned this value from some state where `P` held.
pub record Answered {A : Type 0} (env : Env) (P : World → Type 0) (m : M A) (a : A) : Type 0 where
  pub at : World
  pub held_there : P at
  pub answer : (m env at).0 ≡ done a

module _ {A : Type 0} {env : Env} {P : World → Type 0} {Q : A → World → Type 0} where
  pub Ensures-raise : (e : Exn) → Ensures env P (raise e) Q
  Ensures-raise e = record { when = λ w w' a p h. absurd (raise-NeverReturns e env w w' a h) }

  -- Each branch under what its test says.
  pub Ensures-if :
      (b : Bool) (m n : M A)
      → (b ≡ true → Ensures env P m Q)
      → (b ≡ false → Ensures env P n Q)
      → Ensures env P (if b then m else n) Q
  Ensures-if true m n hm hn = hm refl
  Ensures-if false m n hm hn = hn refl

-- A reading of the state, and a change of it.
module _ {env : Env} {P : World → Type 0} where
  pub Ensures-gets : {A : Type 0} (f : World → A) → Ensures env P (gets f) (λ a w. (a ≡ f w) × P w)
  unfolding gets pure
  Ensures-gets f = record {
    when = λ w w' a p h.
        let (is_value, same) = pure-Returns (f w) a env w w' h in
        subst (λ v. (a ≡ f v) × P v) same (sym is_value, p);
  }

  pub Ensures-modify :
      (Q : World → Type 0) (f : World → World)
      → ((w : World) → P w → Q (f w))
      → Ensures env P (modify f) (λ _. Q)
  unfolding modify
  Ensures-modify Q f moves = record {
    when = λ w w' u p h. subst Q (ap (λ (t : Outcome (Unit {0}) × World). t.1) h) (moves w p);
  }

module _ {A : Type 0} {env : Env} {P P' : World → Type 0} {Q Q' : A → World → Type 0} where
  -- The rule of consequence.
  pub Ensures-weaken :
      (m : M A)
      → ((w : World) → P' w → P w)
      → ((a : A) (w : World) → Q a w → Q' a w)
      → Ensures env P m Q
      → Ensures env P' m Q'
  Ensures-weaken m before after h = record {
    when = λ w w' a p r. after a w' (h.when w w' a (before w p) r);
  }
