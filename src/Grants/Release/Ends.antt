-- ===== src/Grants/Release/Ends.antt =====
-- How the guards stand after an action that returns and after one that raises. A process that is
-- killed keeps no guards.
use vault_db_access.Prelude.{◌≡◌, refl, Bool, true, false, List, [], ◌∷◌, Exn, eq_Text}
use vault_db_access.Effects.{
  M, World, Env, Guards, Outcome, done, raised, killed, hung, continue, try_else, quietly, for_each,
  finally, on_error, try_catch, pure, raise, ◌>>=◌, ◌>>◌,
}
use vault_db_access.Effects.Frame.{Follows-raise, Follows-pure, Follows-if}
use vault_db_access.Grants.Release.Left.{NothingLeft, NothingLeft-same, NothingLeft-trans}
use vault_db_access.Grants.Release.Kept.{Kept, Kept-frame}

abbrev pub is_over : {A : Type 0} → Outcome A → Bool
is_over (done a) = true
is_over (raised e) = true
is_over killed = false
is_over hung = false

-- The guards after an action that returns and after one that raises.
pub record Ends {A : Type 0} (D E : Guards → Guards → Type 0) (m : M A) : Type 0 where
  pub returned :
      (env : Env) (w : World) (a : A) → (m env w).0 ≡ done a → D w.guards (m env w).1.guards
  pub failed :
      (env : Env) (w : World) (e : Exn) → (m env w).0 ≡ raised e → E w.guards (m env w).1.guards

-- Nothing is left behind, whether the action returns or raises.
abbrev pub Releases : {A : Type 0} → M A → Type 0
Releases m = Ends NothingLeft NothingLeft m

-- No change, and no such ending.
abbrev pub Same : Guards → Guards → Type 0
Same g g' = g' ≡ g

abbrev pub Never : Guards → Guards → Type 0
Never g g' = ⊥

module _ {A : Type 0} where
  raise-Ends : (e : Exn) → Ends Never Same (raise {A = A} e)
  unfolding raise
  raise-Ends e = record { returned = λ env w a h. cc; failed = λ env w x h. refl }

  pure-Ends : (a : A) → Ends Same Never (pure a)
  unfolding pure
  pure-Ends a = record { returned = λ env w b h. refl; failed = λ env w x h. cc }

  pub Kept-Ends : (m : M A) → Kept m → Ends Same Same m
  Kept-Ends m kept = record {
    returned = λ env w a h. kept.at env w;
    failed = λ env w x h. kept.at env w;
  }

-- One relation after the other.
abbrev pub Then : (P Q R : Guards → Guards → Type 0) → Type 0
Then P Q R = (g h k : Guards) → P g h → Q h k → R g k

module _ {A B : Type 0} where
  Ends-try_else :
      {D1 E1 D2 E2 D3 E3 D E : Guards → Guards → Type 0} (m : M A) (handler : Exn → M B)
      (f : A → M B)
      → Ends D1 E1 m
      → ((e : Exn) → Ends D2 E2 (handler e))
      → ((a : A) → Ends D3 E3 (f a))
      → Then E1 D2 D
      → Then E1 E2 E
      → Then D1 D3 D
      → Then D1 E3 E
      → Ends D E (try_else m handler f)
  unfolding try_else
  Ends-try_else {D = D} {E = E} m handler f hm hh hf ed ee dd de = record {
    returned = λ env w b h. return_at env w (m env w).0 refl b h;
    failed = λ env w e h. fail_at env w (m env w).0 refl e h;
  }
    where
      return_at :
          (env : Env) (w : World) (r : Outcome A)
          → (m env w).0 ≡ r
          → (b : B) → (continue r handler f env (m env w).1).0 ≡ done b
          → D w.guards (continue r handler f env (m env w).1).1.guards
      return_at env w (done a) e b h = dd _ _ _ (hm.returned env w a e) ((hf a).returned env _ b h)
      return_at env w (raised x) e b h = ed _ _ _ (hm.failed env w x e) ((hh x).returned env _ b h)
      return_at env w killed e b h = cc
      return_at env w hung e b h = cc

      fail_at :
          (env : Env) (w : World) (r : Outcome A)
          → (m env w).0 ≡ r
          → (x : Exn) → (continue r handler f env (m env w).1).0 ≡ raised x
          → E w.guards (continue r handler f env (m env w).1).1.guards
      fail_at env w (done a) e b h = de _ _ _ (hm.returned env w a e) ((hf a).failed env _ b h)
      fail_at env w (raised x) e b h = ee _ _ _ (hm.failed env w x e) ((hh x).failed env _ b h)
      fail_at env w killed e b h = cc
      fail_at env w hung e b h = cc

  pub Ends-bind :
      {D1 E1 D2 E2 D E : Guards → Guards → Type 0} (m : M A) (f : A → M B)
      → Ends D1 E1 m
      → ((a : A) → Ends D2 E2 (f a))
      → Then D1 D2 D
      → Then D1 E2 E
      → ((g h : Guards) → E1 g h → E g h)
      → Ends D E (m >>= f)
  unfolding ◌>>=◌ raise
  Ends-bind m f hm hf dd de ee =
      Ends-try_else m raise f hm raise-Ends hf (λ g h k _ never. absurd never)
        (λ g h k p same. rw same (ee g h p)) dd de

  pub Releases-try_else :
      (m : M A) (handler : Exn → M B) (f : A → M B)
      → Releases m
      → ((e : Exn) → Releases (handler e))
      → ((a : A) → Releases (f a))
      → Releases (try_else m handler f)
  Releases-try_else m handler f hm hh hf =
      let next : Then NothingLeft NothingLeft NothingLeft = λ g h k. NothingLeft-trans in
      Ends-try_else m handler f hm hh hf next next next next

module _ {A : Type 0} where
  pub Releases-Kept : (m : M A) → Kept m → Releases m
  Releases-Kept m kept = record {
    returned = λ env w a h. NothingLeft-same (kept.at env w);
    failed = λ env w e h. NothingLeft-same (kept.at env w);
  }

module _ {A B : Type 0} where
  pub Releases-bind :
      (m : M A) (f : A → M B) → Releases m → ((a : A) → Releases (f a)) → Releases (m >>= f)
  unfolding ◌>>=◌
  Releases-bind m f hm hf =
      Releases-try_else m raise f hm (λ e. Releases-Kept (raise e) (Follows-raise Kept-frame e)) hf

  pub Releases-then : (m : M A) (k : M B) → Releases m → Releases k → Releases (m >> k)
  unfolding ◌>>◌
  Releases-then m k hm hk = Releases-bind m (λ _. k) hm (λ _. hk)

pub Releases-quietly : (m : M (Unit {0})) → Releases m → Releases (quietly m)
unfolding quietly try_catch
Releases-quietly m hm =
    Releases-try_else m _ pure hm
      (λ e.
        Releases-Kept _
          (Follows-if _ _ _ (Follows-pure Kept-frame tt) (Follows-raise Kept-frame e)))
      (λ u. Releases-Kept _ (Follows-pure Kept-frame u))

pub Releases-for_each {ℓ} :
    {X : Type ℓ} (xs : List X) (body : X → M (Unit {0}))
    → ((x : X) → Releases (body x))
    → Releases (for_each xs body)
unfolding for_each
Releases-for_each [] body h = Releases-Kept _ (Follows-pure Kept-frame tt)
Releases-for_each (x ∷ xs) body h =
    Releases-then (body x) (for_each xs body) (h x) (Releases-for_each xs body h)

-- The cleanup runs once, however the body of the `try` ends.
module _ {A : Type 0} where
  pub finally-Ends :
      {P C Q : Guards → Guards → Type 0} (m : M A) (cleanup : M (Unit {0}))
      → Ends P P m
      → Ends C Never cleanup
      → Then P C Q
      → Ends Q Q (finally m cleanup)
  unfolding finally on_error try_catch ◌>>◌
  finally-Ends {P = P} {C = C} {Q = Q} m cleanup hm hc pc =
      let stopped : Ends P Q (on_error m cleanup) =
        Ends-try_else m _ pure hm
          (λ e.
            Ends-bind {D = Never} {E = C} cleanup (λ _. raise e) hc (λ _. raise-Ends e)
              (λ g h k p q. q) (λ g h k p q. rw q p) (λ g h p. absurd p))
          pure-Ends (λ g h k p q. absurd q) pc (λ g h k p q. rw q p) (λ g h k p q. absurd q) in
      Ends-bind (on_error m cleanup) _ stopped
        (λ a.
          Ends-bind {D = C} {E = Never} cleanup (λ _. pure a) hc (λ _. pure-Ends a)
            (λ g h k p q. rw q p) (λ g h k p q. q) (λ g h p. p))
        pc (λ g h k p q. absurd q) (λ g h p. p)

-- What `Releases` says of a run.
pub Releases-at :
    {A : Type 0} (m : M A)
    → Releases m
    → (env : Env) (w : World) → is_over (m env w).0 ≡ true
    → NothingLeft w.guards (m env w).1.guards
Releases-at {A = A} m h env w over = go (m env w).0 refl over
  where
    go :
        (r : Outcome A)
        → (m env w).0 ≡ r
        → is_over r ≡ true
        → NothingLeft w.guards (m env w).1.guards
    go (done a) e o = h.returned env w a e
    go (raised x) e o = h.failed env w x e
    go killed e o = cc
    go hung e o = cc
