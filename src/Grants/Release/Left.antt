-- ===== src/Grants/Release/Left.antt =====
-- What the locks, the slots and the set of grants in flight keep of an operation.
use vault_db_access.Prelude.{
  ◌≡◌, refl, sym, ◌∙◌, true, false, not, List, Text, contains, contains-keep, ◌==◌, eq_Text, ==_iff,
  Bool-cases, inl, inr, arith,
}
use vault_db_access.Models.{DbType, postgres, clickhouse}
use vault_db_access.Effects.{Guards}
use vault_db_access.Grants.Guarding.{begun, ended, held, add_to, discard}

-- The locks and the slots are as they were, and no grant is in flight that was not.
pub record NothingLeft (g g' : Guards) : Type 0 where
  pub postgres_as_before : g'.postgres_held ≡ g.postgres_held
  pub clickhouse_as_before : g'.clickhouse_held ≡ g.clickhouse_held
  pub slots_as_before : g'.slots ≡ g.slots
  pub no_new_flight : (i : Text) → contains g'.inflight i ≡ true → contains g.inflight i ≡ true

pub NothingLeft-same : {g g' : Guards} → g' ≡ g → NothingLeft g g'
NothingLeft-same e = record {
  postgres_as_before = rw e refl;
  clickhouse_as_before = rw e refl;
  slots_as_before = rw e refl;
  no_new_flight = λ i h. rw e at h;
}

pub NothingLeft-trans : {g h k : Guards} → NothingLeft g h → NothingLeft h k → NothingLeft g k
NothingLeft-trans a b = record {
  postgres_as_before = b.postgres_as_before ∙ a.postgres_as_before;
  clickhouse_as_before = b.clickhouse_as_before ∙ a.clickhouse_as_before;
  slots_as_before = b.slots_as_before ∙ a.slots_as_before;
  no_new_flight = λ i h. a.no_new_flight i (b.no_new_flight i h);
}

-- What the set of grants in flight holds once `i` was added and discarded.
contains-discard :
    (i j : Text) (xs : List Text)
    → contains (discard i (add_to i xs)) j ≡ true
    → contains xs j ≡ true
contains-discard i j xs h =
    let e = contains-keep (λ k. not (i == k)) (add_to i xs) j in
    elim (Bool-cases (contains xs i)) [
      | inl old ↦ ground (arith, old, e)
      | inr new ↦ ground (arith, new, e, ==_iff i j, ==_iff j i)
    ]

pub ended-begun :
    (db : DbType) (i : Text) (g : Guards)
    → held db g ≡ false
    → NothingLeft g (ended db i (begun db i g))
ended-begun postgres i g unheld = record {
  postgres_as_before = sym unheld;
  clickhouse_as_before = refl;
  slots_as_before = refl;
  no_new_flight = λ j. contains-discard i j g.inflight;
}
ended-begun clickhouse i g unheld = record {
  postgres_as_before = refl;
  clickhouse_as_before = sym unheld;
  slots_as_before = refl;
  no_new_flight = λ j. contains-discard i j g.inflight;
}
