-- ===== src/Grants/Release/Admission.antt =====
-- `admit` around an operation.
use vault_db_access.Prelude.{ℕ, zero, suc, ◌≡◌, refl, sym, ap, ◌∙◌, true}
use vault_db_access.Effects.{
  M, World, Env, Guards, Slots, gets, finally, raise, modify, try_else, ◌>>=◌, ◌>>◌,
}
use vault_db_access.Grants.Guarding.{
  Kind, issuing_op, revoking_op, auth_op, session_op, free, set_free, take_slot, release, admit,
}
use vault_db_access.Grants.Release.Left.{NothingLeft, NothingLeft-same}
use vault_db_access.Grants.Release.Ends.{
  is_over, Ends, Releases, Releases-at, Ends-bind, finally-Ends, Never, Then,
}

-- `admit` takes a slot that is free, or raises `Busy`.
abbrev Taken : Kind → ℕ → Guards → Guards → Type 0
Taken kind n g g' = (k : ℕ) × (n ≡ suc k) × (g' ≡ record g { slots = set_free kind k g.slots })

take_slot-Ends : (kind : Kind) (n : ℕ) → Ends (Taken kind n) NothingLeft (take_slot kind n)
unfolding raise modify
take_slot-Ends kind zero = record {
  returned = λ env w a h. cc;
  failed = λ env w e h. NothingLeft-same refl;
}
take_slot-Ends kind (suc k) = record {
  returned = λ env w a h. (k, refl, refl);
  failed = λ env w e h. cc;
}

abbrev Freed : Kind → Guards → Guards → Type 0
Freed kind g g' = g' ≡ record g { slots = set_free kind (suc (free kind g.slots)) g.slots }

release-Ends : (kind : Kind) → Ends (Freed kind) Never (release kind)
unfolding release modify
release-Ends kind = record { returned = λ env w a h. refl; failed = λ env w e h. cc }

-- What the body of the `with` leaves, and the slot given back.
abbrev Closed : Kind → Guards → Guards → Type 0
Closed kind g k = (h : Guards) × NothingLeft g h × Freed kind h k

slots_back :
    (kind : Kind) (s : Slots) (k : ℕ)
    → free kind s ≡ suc k
    → set_free kind (suc (free kind (set_free kind k s))) (set_free kind k s) ≡ s
slots_back issuing_op s k e = rw (sym e) refl
slots_back revoking_op s k e = rw (sym e) refl
slots_back auth_op s k e = rw (sym e) refl
slots_back session_op s k e = rw (sym e) refl

abbrev Balanced : Kind → ℕ → Guards → Guards → Type 0
Balanced kind n g k = free kind g.slots ≡ n → NothingLeft g k

Taken-Closed : (kind : Kind) (n : ℕ) → Then (Taken kind n) (Closed kind) (Balanced kind n)
Taken-Closed kind n g h k (left_over, one_more, taken) (body, left, freed) there =
    let slots : body.slots ≡ set_free kind left_over g.slots =
      left.slots_as_before ∙ ap (λ (x : Guards). x.slots) taken in
    record {
      postgres_as_before =
          rw freed (left.postgres_as_before ∙ ap (λ (x : Guards). x.postgres_held) taken);
      clickhouse_as_before =
          rw freed (left.clickhouse_as_before ∙ ap (λ (x : Guards). x.clickhouse_held) taken);
      slots_as_before =
          ap (λ (x : Guards). x.slots) freed
          ∙ ap (λ s. set_free kind (suc (free kind s)) s) slots
          ∙ slots_back kind g.slots left_over (there ∙ one_more);
      no_new_flight = λ i m. rw taken at left.no_new_flight i (rw freed at m);
    }

guarded-Balanced :
    {A : Type 0} (kind : Kind) (n : ℕ) (m : M A)
    → Releases m
    → Ends (Balanced kind n) (Balanced kind n) (take_slot kind n >> finally m (release kind))
unfolding ◌>>◌
guarded-Balanced kind n m h =
    let closed : Ends (Closed kind) (Closed kind) (finally m (release kind)) =
      finally-Ends m (release kind) h (release-Ends kind) (λ g b k p q. (b, p, q)) in
    Ends-bind (take_slot kind n) (λ _. finally m (release kind)) (take_slot-Ends kind n)
      (λ _. closed) (Taken-Closed kind n) (Taken-Closed kind n) (λ g k p _. p)

admit-Releases : {A : Type 0} (kind : Kind) (m : M A) → Releases m → Releases (admit kind m)
unfolding admit gets ◌>>=◌ try_else
admit-Releases kind m h = record {
  returned =
      λ env w a e. (guarded-Balanced kind (free kind w.guards.slots) m h).returned env w a e refl;
  failed =
      λ env w x e. (guarded-Balanced kind (free kind w.guards.slots) m h).failed env w x e refl;
}

-- When an operation that leaves every lock and slot as it was runs under `admit`, they are again as
-- they were when it is over, having returned or raised, and no grant is newly in flight.
pub admit-NothingLeft :
    {A : Type 0} (kind : Kind) (m : M A)
    → Releases m
    → (env : Env) (w : World) → is_over (admit kind m env w).0 ≡ true
    → NothingLeft w.guards (admit kind m env w).1.guards
admit-NothingLeft kind m h = Releases-at (admit kind m) (admit-Releases kind m h)
