-- ===== src/Effects/Yields.antt =====
-- What an action may return and what it may raise, whatever the state is.
use vault_db_access.Prelude.{◌≡◌, refl, Exn, Bool, true, false, if◌then◌else◌}
use mathlib.Core.Path.{subst}
use vault_db_access.Effects.Calls.{Env, Outcome, done, raised, killed, hung}
use vault_db_access.Effects.Monad.{M, World, pure, raise, continue, try_else, try_catch, ◌>>=◌}

pub record Yields {A : Type 0} (Q : A → Type 0) (E : Exn → Type 0) (m : M A) : Type 0 where
  pub returns : (env : Env) (w : World) (a : A) → (m env w).0 ≡ done a → Q a
  pub raises : (env : Env) (w : World) (e : Exn) → (m env w).0 ≡ raised e → E e

module _ {A : Type 0} {Q : A → Type 0} {E : Exn → Type 0} where
  pub Yields-pure : (a : A) → Q a → Yields Q E (pure a)
  unfolding pure
  Yields-pure a q = record { returns = λ env w b h. subst Q (same h) q; raises = λ env w e h. cc }
    where
      same : {a b : A} → done a ≡ done b → a ≡ b
      same h = cc h

  pub Yields-raise : (e : Exn) → E e → Yields Q E (raise e)
  unfolding raise
  Yields-raise e q = record { returns = λ env w b h. cc; raises = λ env w x h. subst E (same h) q }
    where
      same : {e x : Exn} → ◌≡◌ {A = Outcome A} (raised e) (raised x) → e ≡ x
      same h = cc h

  pub Yields-if :
      (b : Bool) (m n : M A) → Yields Q E m → Yields Q E n → Yields Q E (if b then m else n)
  Yields-if true m n hm hn = hm
  Yields-if false m n hm hn = hn

pub Yields-any : {A : Type 0} (m : M A) → Yields (λ _. Unit) (λ _. Unit) m
Yields-any m = record { returns = λ env w a h. tt; raises = λ env w e h. tt }

module _ {A B : Type 0} {Q : A → Type 0} {R : B → Type 0} {E F : Exn → Type 0} where
  pub Yields-try_else :
      (m : M A) (handler : Exn → M B) (f : A → M B)
      → Yields Q E m
      → ((e : Exn) → E e → Yields R F (handler e))
      → ((a : A) → Q a → Yields R F (f a))
      → Yields R F (try_else m handler f)
  unfolding try_else
  Yields-try_else m handler f hm hh hf = record {
    returns = λ env w b h. returned env w (m env w).0 refl b h;
    raises = λ env w x h. failed env w (m env w).0 refl x h;
  }
    where
      returned :
          (env : Env) (w : World) (r : Outcome A)
          → (m env w).0 ≡ r
          → (b : B) → (continue r handler f env (m env w).1).0 ≡ done b
          → R b
      returned env w (done a) e b h = (hf a (hm.returns env w a e)).returns env _ b h
      returned env w (raised x) e b h = (hh x (hm.raises env w x e)).returns env _ b h
      returned env w killed e b h = cc
      returned env w hung e b h = cc

      failed :
          (env : Env) (w : World) (r : Outcome A)
          → (m env w).0 ≡ r
          → (x : Exn) → (continue r handler f env (m env w).1).0 ≡ raised x
          → F x
      failed env w (done a) e x h = (hf a (hm.returns env w a e)).raises env _ x h
      failed env w (raised y) e x h = (hh y (hm.raises env w y e)).raises env _ x h
      failed env w killed e x h = cc
      failed env w hung e x h = cc

module _ {A B : Type 0} {Q : A → Type 0} {R : B → Type 0} {E : Exn → Type 0} where
  pub Yields-bind :
      (m : M A) (f : A → M B)
      → Yields Q E m
      → ((a : A) → Q a → Yields R E (f a))
      → Yields R E (m >>= f)
  unfolding ◌>>=◌
  Yields-bind m f hm hf = Yields-try_else m raise f hm Yields-raise hf

module _ {A : Type 0} {Q : A → Type 0} {E F : Exn → Type 0} where
  pub Yields-try_catch :
      (m : M A) (handler : Exn → M A)
      → Yields Q E m
      → ((e : Exn) → E e → Yields Q F (handler e))
      → Yields Q F (try_catch m handler)
  unfolding try_catch
  Yields-try_catch m handler hm hh = Yields-try_else m handler pure hm hh Yields-pure
