-- ===== src/Effects/Halts.antt =====
-- Actions that do not use up the rounds of a loop, in a world where no request does and the clock runs
-- on.
use vault_db_access.Prelude.{
  ◌≡◌, refl, ◌+◌, ◌≤◌, Bool, true, false, List, [], ◌∷◌, Exn, if◌then◌else◌, Result, ok, err, arith,
  Bool-cases, inl, inr,
}
use vault_db_access.Effects.Calls.{Outcome, done, raised, killed, hung, Call, sleep, Env}
use vault_db_access.Effects.Monad.{
  die, asks, finally, M, World, pure, raise, lift, gets, modify, ask, time, continue, try_else,
  try_catch, on_error, quietly, for_each, ◌>>=◌, ◌>>◌,
}
use vault_db_access.Effects.Frame.{Frame, Follows}

-- Every request to the outside ends, the clock never goes back, and a sleep takes the 0.3 s.
pub record RunsOn (env : Env) : Type 0 where
  pub answers : (c : Call) (h : List Call) → ¬ (env.answer c h ≡ hung)
  pub grows : (c : Call) (h : List Call) → env.time h ≤ env.time (c ∷ h)
  pub sleeps : (h : List Call) → env.time h + 3 ≤ env.time (sleep ∷ h)

pub record Halts {A : Type 0} (env : Env) (m : M A) : Type 0 where
  pub never : (w : World) → ¬ ((m env w).0 ≡ hung)

-- The clock at one state and at a later one.
abbrev pub Later : Env → World → World → Type 0
Later env w w' = env.time w.history ≤ env.time w'.history

pub Later-frame : (env : Env) → RunsOn env → Frame (Later env)
Later-frame env on = record {
  stay = λ w. omega arith;
  chain = λ u v w a b. omega (arith, a, b);
  asked = λ c w. on.grows c w.history;
  served = λ s w. omega arith;
}

module _ {A : Type 0} {env : Env} where
  pub Halts-pure : (a : A) → Halts env (pure a)
  unfolding pure
  Halts-pure a = record { never = λ w h. cc }

  pub Halts-raise : (e : Exn) → Halts env (raise {A = A} e)
  unfolding raise
  Halts-raise e = record { never = λ w h. cc }

  pub Halts-lift : (r : Result A) → Halts env (lift r)
  unfolding lift
  Halts-lift (ok a) = record { never = λ w h. cc }
  Halts-lift (err e) = record { never = λ w h. cc }

  pub Halts-gets : (f : World → A) → Halts env (gets f)
  unfolding gets
  Halts-gets f = record { never = λ w h. cc }

  pub Halts-asks : (f : Env → A) → Halts env (asks f)
  unfolding asks
  Halts-asks f = record { never = λ w h. cc }

  pub Halts-die : Halts env (die {A = A})
  unfolding die
  Halts-die = record { never = λ w h. cc }

  pub Halts-if : (b : Bool) (m n : M A) → Halts env m → Halts env n → Halts env (if b then m else n)
  Halts-if true m n hm hn = hm
  Halts-if false m n hm hn = hn

module _ {env : Env} where
  pub Halts-modify : (f : World → World) → Halts env (modify f)
  unfolding modify
  Halts-modify f = record { never = λ w h. cc }

  pub Halts-ask : RunsOn env → (c : Call) → Halts env (ask c)
  unfolding ask
  Halts-ask on c = record { never = λ w h. on.answers c w.history h }

  pub Halts-time : Halts env time
  unfolding time
  Halts-time = record {
    never = λ w h. elim (Bool-cases (env.is_killed w.history)) [
      | inl dead ↦ cc (rw dead at h)
      | inr alive ↦ cc (rw alive at h)
    ];
  }

module _ {A B : Type 0} {env : Env} where
  -- At one state: what runs after `m` may use how `m` ended.
  pub never_try_else :
      (w : World) (m : M A) (handler : Exn → M B) (f : A → M B)
      → ¬ ((m env w).0 ≡ hung)
      → ((e : Exn) → ¬ ((handler e env (m env w).1).0 ≡ hung))
      → ((a : A) → (m env w).0 ≡ done a → ¬ ((f a env (m env w).1).0 ≡ hung))
      → ¬ ((try_else m handler f env w).0 ≡ hung)
  unfolding try_else
  never_try_else w m handler f hm hh hf = go (m env w).0 refl
    where
      go : (r : Outcome A) → (m env w).0 ≡ r → ¬ ((continue r handler f env (m env w).1).0 ≡ hung)
      go (done a) e = hf a e
      go (raised x) e = hh x
      go killed e = λ h. cc
      go hung e = absurd (hm e)

  pub never_bind :
      (w : World) (m : M A) (f : A → M B)
      → ¬ ((m env w).0 ≡ hung)
      → ((a : A) → (m env w).0 ≡ done a → ¬ ((f a env (m env w).1).0 ≡ hung))
      → ¬ (((m >>= f) env w).0 ≡ hung)
  unfolding ◌>>=◌
  never_bind w m f hm hf =
      never_try_else w m raise f hm (λ e. (Halts-raise {A = B} {env = env} e).never (m env w).1) hf

  pub Halts-try_else :
      (m : M A) (handler : Exn → M B) (f : A → M B)
      → Halts env m
      → ((e : Exn) → Halts env (handler e))
      → ((a : A) → Halts env (f a))
      → Halts env (try_else m handler f)
  Halts-try_else m handler f hm hh hf = record {
    never = λ w.
        never_try_else w m handler f (hm.never w) (λ e. (hh e).never _) (λ a e. (hf a).never _);
  }

  pub Halts-bind :
      (m : M A) (f : A → M B) → Halts env m → ((a : A) → Halts env (f a)) → Halts env (m >>= f)
  Halts-bind m f hm hf = record {
    never = λ w. never_bind w m f (hm.never w) (λ a e. (hf a).never _);
  }

  pub Halts-then : (m : M A) (k : M B) → Halts env m → Halts env k → Halts env (m >> k)
  unfolding ◌>>◌
  Halts-then m k hm hk = Halts-bind m (λ _. k) hm (λ _. hk)

module _ {A : Type 0} {env : Env} where
  pub Halts-try_catch :
      (m : M A) (handler : Exn → M A)
      → Halts env m
      → ((e : Exn) → Halts env (handler e))
      → Halts env (try_catch m handler)
  unfolding try_catch
  Halts-try_catch m handler hm hh = Halts-try_else m handler pure hm hh Halts-pure

  pub Halts-on_error :
      (m : M A) (cleanup : M (Unit {0}))
      → Halts env m
      → Halts env cleanup
      → Halts env (on_error m cleanup)
  unfolding on_error
  Halts-on_error m cleanup hm hc =
      Halts-try_catch m _ hm (λ e. Halts-then cleanup (raise e) hc (Halts-raise e))

module _ {A : Type 0} {env : Env} where
  pub Halts-finally :
      (m : M A) (cleanup : M (Unit {0}))
      → Halts env m
      → Halts env cleanup
      → Halts env (finally m cleanup)
  unfolding finally
  Halts-finally m cleanup hm hc =
      Halts-bind _ _ (Halts-on_error m cleanup hm hc)
        (λ a. Halts-then cleanup (pure a) hc (Halts-pure a))

module _ {env : Env} where
  pub Halts-quietly : (m : M (Unit {0})) → Halts env m → Halts env (quietly m)
  unfolding quietly
  Halts-quietly m hm = Halts-try_catch m _ hm (λ e. Halts-if _ _ _ (Halts-pure tt) (Halts-raise e))

  pub Halts-for_each {ℓ} :
      {X : Type ℓ} (xs : List X) (body : X → M (Unit {0}))
      → ((x : X) → Halts env (body x))
      → Halts env (for_each xs body)
  unfolding for_each
  Halts-for_each [] body h = Halts-pure tt
  Halts-for_each (x ∷ xs) body h = Halts-then _ _ (h x) (Halts-for_each xs body h)

pub ruleset halting = (
  Halts-pure, Halts-raise, Halts-lift, Halts-gets, Halts-if, Halts-modify, Halts-ask, Halts-time,
  Halts-try_else, Halts-bind, Halts-then, Halts-try_catch, Halts-on_error, Halts-quietly,
  Halts-for_each,
)

module _ {A : Type 0} {env : Env} (w : World) where
  pub never_if :
      (b : Bool) (m n : M A)
      → (b ≡ true → ¬ ((m env w).0 ≡ hung))
      → (b ≡ false → ¬ ((n env w).0 ≡ hung))
      → ¬ (((if b then m else n) env w).0 ≡ hung)
  never_if true m n hm hn = hm refl
  never_if false m n hm hn = hn refl

  -- What runs after an action that ends runs at a later state.
  pub never_bind_on :
      {B : Type 0} (on : RunsOn env) (m : M A) (f : A → M B)
      → Halts env m
      → Follows (Later env) m
      → ((a : A) (w' : World) → (m env w).0 ≡ done a → Later env w w' → ¬ ((f a env w').0 ≡ hung))
      → ¬ (((m >>= f) env w).0 ≡ hung)
  never_bind_on on m f hm later hf =
      never_bind w m f (hm.never w) (λ a e. hf a (m env w).1 e (later.at env w))
