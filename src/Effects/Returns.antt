-- ===== src/Effects/Returns.antt =====
-- What a run that returned has run: the parts of an action that returned, each of them to its end.
use vault_db_access.Prelude.{◌≡◌, refl, ap, arith, Exn}
use vault_db_access.Effects.Calls.{Outcome, done, raised, killed, hung, Env}
use vault_db_access.Effects.Monad.{
  M, World, pure, raise, continue, try_else, try_catch, on_error, finally, ◌>>=◌, ◌>>◌,
}

-- The action returns this value from this state and leaves that one.
abbrev pub Returns : {A : Type 0} → M A → Env → World → A → World → Type 0
Returns m env w a w' = m env w ≡ (done a, w')

-- The action never returns.
abbrev pub NeverReturns : {A : Type 0} → M A → Type 0
NeverReturns {A = A} m = (env : Env) (w w' : World) (a : A) → ¬ Returns m env w a w'

module _ {B : Type 0} where
  pub raise-NeverReturns : (e : Exn) → NeverReturns (raise {A = B} e)
  unfolding raise
  raise-NeverReturns e env w w' b h = cc

module _ {A B : Type 0} where
  pub try_else-Returns :
      (m : M A) (handler : Exn → M B) (f : A → M B) (env : Env) (w w' : World) (b : B)
      → ((e : Exn) → NeverReturns (handler e))
      → Returns (try_else m handler f) env w b w'
      → (a : A) × (w1 : World) × Returns m env w a w1 × Returns (f a) env w1 b w'
  unfolding try_else
  try_else-Returns m handler f env w w' b never h = go (m env w).0 refl h
    where
      go :
          (r : Outcome A)
          → (m env w).0 ≡ r
          → continue r handler f env (m env w).1 ≡ (done b, w')
          → (a : A) × (w1 : World) × Returns m env w a w1 × Returns (f a) env w1 b w'
      go (done a) e k = (a, (m env w).1, ap (λ (r : Outcome A). (r, (m env w).1)) e, k)
      go (raised x) e k = absurd (never x env (m env w).1 w' b k)
      go killed e k = cc
      go hung e k = cc

  pub bind-Returns :
      (m : M A) (f : A → M B) (env : Env) (w w' : World) (b : B)
      → Returns (m >>= f) env w b w'
      → (a : A) × (w1 : World) × Returns m env w a w1 × Returns (f a) env w1 b w'
  unfolding ◌>>=◌
  bind-Returns m f env w w' b h = try_else-Returns m raise f env w w' b raise-NeverReturns h

  pub then-Returns :
      (m : M A) (k : M B) (env : Env) (w w' : World) (b : B)
      → Returns (m >> k) env w b w'
      → (a : A) × (w1 : World) × Returns m env w a w1 × Returns k env w1 b w'
  unfolding ◌>>◌
  then-Returns m k env w w' b h = bind-Returns m (λ _. k) env w w' b h

  pub then_raise-NeverReturns : (m : M A) (e : Exn) → NeverReturns (m >> raise {A = B} e)
  then_raise-NeverReturns m e env w w' b h =
      let (a, w1, first, last) = then-Returns m (raise e) env w w' b h in
      raise-NeverReturns e env w1 w' b last

module _ {A : Type 0} where
  pub pure-Returns :
      (a b : A) (env : Env) (w w' : World) → Returns (pure a) env w b w' → (a ≡ b) × (w ≡ w')
  unfolding pure
  pure-Returns a b env w w' h = ground (arith, h)

  pub finally-Returns :
      (m : M A) (cleanup : M (Unit {0})) (env : Env) (w w' : World) (a : A)
      → Returns (finally m cleanup) env w a w'
      → (w1 : World) × Returns m env w a w1 × Returns cleanup env w1 tt w'
  unfolding finally on_error try_catch
  finally-Returns m cleanup env w w' a h =
      let (b, w1, tried, rest) = bind-Returns (on_error m cleanup) _ env w w' a h in
      let (c, w2, body, same) =
        try_else-Returns m _ pure env w w1 b (then_raise-NeverReturns cleanup) tried in
      let (u, w3, cleaned, last) = then-Returns cleanup (pure b) env w1 w' a rest in
      let (is_b, at_w1) = pure-Returns c b env w2 w1 same in
      let (is_a, at_end) = pure-Returns b a env w3 w' last in
      (w2, cc (body, is_b, is_a), cc (cleaned, at_w1, at_end))
