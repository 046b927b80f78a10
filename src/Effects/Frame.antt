-- ===== src/Effects/Frame.antt =====
-- Relations between the state before and after an action, one rule for each way to build an action.
-- A frame is a preorder that every request to the outside and every login respects: code that only
-- makes requests then respects it too.
use vault_db_access.Prelude.{
  ◌≡◌, refl, Bool, true, false, List, [], ◌∷◌, Exn, if◌then◌else◌, Result, ok, err,
}
use vault_db_access.Effects.Calls.{Outcome, done, raised, killed, hung, Call, clock, Env}
use vault_db_access.Effects.Monad.{
  M, World, Service, pure, raise, out_of_rounds, die, lift, gets, asks, ask, time, continue,
  try_else, try_catch, on_error, finally, quietly, for_each, ◌>>=◌, ◌>>◌,
}

pub record Frame (R : World → World → Type 0) : Type 0 where
  pub stay : (w : World) → R w w
  pub chain : (u v w : World) → R u v → R v w → R u w
  pub asked : (c : Call) (w : World) → R w (record w { history = c ∷ w.history })
  pub served : (s : Service) (w : World) → R w (record w { service = s })

-- However the action ends, the state after it is related to the state before.
pub record Follows {A : Type 0} (R : World → World → Type 0) (m : M A) : Type 0 where
  pub at : (env : Env) (w : World) → R w (m env w).1

module _ {R : World → World → Type 0} {A : Type 0} where
  pub Follows-pure : (fr : Frame R) (a : A) → Follows R (pure a)
  unfolding pure
  Follows-pure fr a = record { at = λ env w. fr.stay w }

  pub Follows-raise : (fr : Frame R) (e : Exn) → Follows R (raise {A = A} e)
  unfolding raise
  Follows-raise fr e = record { at = λ env w. fr.stay w }

  pub Follows-out_of_rounds : (fr : Frame R) → Follows R (out_of_rounds {A = A})
  unfolding out_of_rounds
  Follows-out_of_rounds fr = record { at = λ env w. fr.stay w }

  pub Follows-die : (fr : Frame R) → Follows R (die {A = A})
  unfolding die
  Follows-die fr = record { at = λ env w. fr.stay w }

  pub Follows-lift : (fr : Frame R) (r : Result A) → Follows R (lift r)
  unfolding lift
  Follows-lift fr (ok a) = record { at = λ env w. fr.stay w }
  Follows-lift fr (err e) = record { at = λ env w. fr.stay w }

  pub Follows-gets : (fr : Frame R) (f : World → A) → Follows R (gets f)
  unfolding gets
  Follows-gets fr f = record { at = λ env w. fr.stay w }

  pub Follows-asks : (fr : Frame R) (f : Env → A) → Follows R (asks f)
  unfolding asks
  Follows-asks fr f = record { at = λ env w. fr.stay w }

  pub Follows-if :
      (b : Bool) (m n : M A) → Follows R m → Follows R n → Follows R (if b then m else n)
  Follows-if true m n hm hn = hm
  Follows-if false m n hm hn = hn

module _ {R : World → World → Type 0} where
  pub Follows-ask : (fr : Frame R) (c : Call) → Follows R (ask c)
  unfolding ask
  Follows-ask fr c = record { at = λ env w. fr.asked c w }

  pub Follows-time : (fr : Frame R) → Follows R time
  unfolding time
  Follows-time fr = record { at = λ env w. fr.asked clock w }

module _ {R : World → World → Type 0} {A B : Type 0} where
  continue-at :
      (fr : Frame R) (env : Env) (u w : World) (r : Outcome A) (handler : Exn → M B)
      (after : A → M B)
      → R u w
      → ((e : Exn) → Follows R (handler e))
      → ((a : A) → Follows R (after a))
      → R u (continue r handler after env w).1
  continue-at fr env u w (done a) handler after h hh ha = fr.chain _ _ _ h ((ha a).at env w)
  continue-at fr env u w (raised e) handler after h hh ha = fr.chain _ _ _ h ((hh e).at env w)
  continue-at fr env u w killed handler after h hh ha = h
  continue-at fr env u w hung handler after h hh ha = h

  pub Follows-try_else :
      (fr : Frame R) (m : M A) (handler : Exn → M B) (after : A → M B)
      → Follows R m
      → ((e : Exn) → Follows R (handler e))
      → ((a : A) → Follows R (after a))
      → Follows R (try_else m handler after)
  unfolding try_else
  Follows-try_else fr m handler after hm hh ha = record {
    at = λ env w.
        let (r, w') = m env w in continue-at fr env w w' r handler after (hm.at env w) hh ha;
  }

  pub Follows-bind :
      (fr : Frame R) (m : M A) (f : A → M B)
      → Follows R m
      → ((a : A) → Follows R (f a))
      → Follows R (m >>= f)
  unfolding ◌>>=◌
  Follows-bind fr m f hm hf = Follows-try_else fr m raise f hm (Follows-raise fr) hf

  pub Follows-then :
      (fr : Frame R) (m : M A) (k : M B) → Follows R m → Follows R k → Follows R (m >> k)
  unfolding ◌>>◌
  Follows-then fr m k hm hk = Follows-bind fr m (λ _. k) hm (λ _. hk)

module _ {R : World → World → Type 0} {A : Type 0} where
  pub Follows-try_catch :
      (fr : Frame R) (m : M A) (handler : Exn → M A)
      → Follows R m
      → ((e : Exn) → Follows R (handler e))
      → Follows R (try_catch m handler)
  unfolding try_catch
  Follows-try_catch fr m handler hm hh = Follows-try_else fr m handler pure hm hh (Follows-pure fr)

  pub Follows-on_error :
      (fr : Frame R) (m : M A) (cleanup : M (Unit {0}))
      → Follows R m
      → Follows R cleanup
      → Follows R (on_error m cleanup)
  unfolding on_error
  Follows-on_error fr m cleanup hm hc =
      Follows-try_catch fr m (λ e. cleanup >> raise e) hm
        (λ e. Follows-then fr cleanup (raise e) hc (Follows-raise fr e))

  pub Follows-finally :
      (fr : Frame R) (m : M A) (cleanup : M (Unit {0}))
      → Follows R m
      → Follows R cleanup
      → Follows R (finally m cleanup)
  unfolding finally
  Follows-finally fr m cleanup hm hc =
      Follows-bind fr (on_error m cleanup) (λ a. cleanup >> pure a)
        (Follows-on_error fr m cleanup hm hc)
        (λ a. Follows-then fr cleanup (pure a) hc (Follows-pure fr a))

module _ {R : World → World → Type 0} where
  pub Follows-quietly : (fr : Frame R) (m : M (Unit {0})) → Follows R m → Follows R (quietly m)
  unfolding quietly
  Follows-quietly fr m hm =
      Follows-try_catch fr m _ hm (λ e. Follows-if _ _ _ (Follows-pure fr tt) (Follows-raise fr e))

module _ {R : World → World → Type 0} where
  pub Follows-for_each {ℓ} :
      {X : Type ℓ} (fr : Frame R) (xs : List X) (body : X → M (Unit {0}))
      → ((x : X) → Follows R (body x))
      → Follows R (for_each xs body)
  unfolding for_each
  Follows-for_each fr [] body h = Follows-pure fr tt
  Follows-for_each fr (x ∷ xs) body h =
      Follows-then fr (body x) (for_each xs body) (h x) (Follows-for_each fr xs body h)

pub ruleset frame_rules = (
  Follows-pure, Follows-raise, Follows-out_of_rounds, Follows-die, Follows-lift, Follows-gets,
  Follows-asks, Follows-if, Follows-ask, Follows-time, Follows-try_else, Follows-bind, Follows-then,
  Follows-try_catch, Follows-on_error, Follows-finally, Follows-quietly, Follows-for_each,
)

-- The same rules at one state: what runs after `m` may use how `m` ended.
module _ {R : World → World → Type 0} {A B : Type 0} where
  pub reach_try_else :
      (fr : Frame R) (env : Env) (w : World) (m : M A) (handler : Exn → M B) (after : A → M B)
      → R w (m env w).1
      → ((e : Exn) → (m env w).0 ≡ raised e → R (m env w).1 (handler e env (m env w).1).1)
      → ((a : A) → (m env w).0 ≡ done a → R (m env w).1 (after a env (m env w).1).1)
      → R w (try_else m handler after env w).1
  unfolding try_else
  reach_try_else fr env w m handler after h hh ha = go (m env w).0 refl
    where
      go : (r : Outcome A) → (m env w).0 ≡ r → R w (continue r handler after env (m env w).1).1
      go (done a) e = fr.chain _ _ _ h (ha a e)
      go (raised x) e = fr.chain _ _ _ h (hh x e)
      go killed e = h
      go hung e = h

  pub reach_bind :
      (fr : Frame R) (env : Env) (w : World) (m : M A) (f : A → M B)
      → R w (m env w).1
      → ((a : A) → (m env w).0 ≡ done a → R (m env w).1 (f a env (m env w).1).1)
      → R w ((m >>= f) env w).1
  unfolding ◌>>=◌
  reach_bind fr env w m f h ha =
      reach_try_else fr env w m raise f h (λ e _. (Follows-raise {A = B} fr e).at env (m env w).1)
        ha

  pub reach_then :
      (fr : Frame R) (env : Env) (w : World) (m : M A) (k : M B)
      → R w (m env w).1
      → ((a : A) → (m env w).0 ≡ done a → R (m env w).1 (k env (m env w).1).1)
      → R w ((m >> k) env w).1
  unfolding ◌>>◌
  reach_then fr env w m k h ha = reach_bind fr env w m (λ _. k) h ha

module _ {R : World → World → Type 0} {A : Type 0} where
  pub reach_on_error :
      (fr : Frame R) (env : Env) (w : World) (m : M A) (cleanup : M (Unit {0}))
      → R w (m env w).1
      → Follows R cleanup
      → R w (on_error m cleanup env w).1
  unfolding on_error try_catch
  reach_on_error fr env w m cleanup h hc =
      reach_try_else fr env w m _ pure h
        (λ e _. (Follows-then fr cleanup (raise e) hc (Follows-raise fr e)).at env _)
        (λ a _. (Follows-pure fr a).at env _)

  pub reach_finally :
      (fr : Frame R) (env : Env) (w : World) (m : M A) (cleanup : M (Unit {0}))
      → R w (m env w).1
      → Follows R cleanup
      → R w (finally m cleanup env w).1
  unfolding finally
  reach_finally fr env w m cleanup h hc =
      reach_bind fr env w (on_error m cleanup) _ (reach_on_error fr env w m cleanup h hc)
        (λ a _. (Follows-then fr cleanup (pure a) hc (Follows-pure fr a)).at env _)
