-- ===== src/Grants/Lifecycle/Relation.antt =====
-- The lifecycle of a grant as a relation on statuses, on rows and on states of the portal.
use vault_db_access.Prelude.{◌≡◌, refl, ap, ◌∙◌, true, some, Text, arith}
use vault_db_access.Models.{
  Status, issuing, active, revoking, revoked, expired, failed, is_terminal,
}
use vault_db_access.Rows.{Grant, find_row}
use vault_db_access.Effects.{World}
use vault_db_access.Effects.Frame.{Frame}

-- One move of the lifecycle.
pub data Step : Status → Status → Type 0 where
  activate : Step issuing active
  fail : Step issuing failed
  roll_back : Step issuing revoking
  start_revoking : Step active revoking
  expire : Step active expired
  finish_revoking : Step revoking revoked

pub data Evolves (s : Status) : Status → Type 0 where
  here : Evolves s s
  next : {t u : Status} → Evolves s t → Step t u → Evolves s u

pub Evolves-trans : {s t u : Status} → Evolves s t → Evolves t u → Evolves s u
Evolves-trans e here = e
Evolves-trans e (next f st) = next (Evolves-trans e f) st

-- The columns that `issue` fills in are kept.
pub record SameRequest (g h : Grant) : Type 0 where
  pub id : h.id ≡ g.id
  pub db_type : h.db_type ≡ g.db_type
  pub scope : h.scope ≡ g.scope
  pub table_names : h.table_names ≡ g.table_names
  pub commands : h.commands ≡ g.commands
  pub requested_for : h.requested_for ≡ g.requested_for
  pub issued_by : h.issued_by ≡ g.issued_by
  pub ttl_seconds : h.ttl_seconds ≡ g.ttl_seconds
  pub created_at : h.created_at ≡ g.created_at

-- What may become of a row.
pub record Becomes (g h : Grant) : Type 0 where
  pub evolves : Evolves g.status h.status
  pub same : SameRequest g h
  pub frozen : is_terminal g.status ≡ true → h ≡ g

pub SameRequest-refl : (g : Grant) → SameRequest g g
SameRequest-refl g = ground arith

pub SameRequest-trans : {f g h : Grant} → SameRequest f g → SameRequest g h → SameRequest f h
SameRequest-trans a b = ground arith

pub Becomes-refl : (g : Grant) → Becomes g g
Becomes-refl g = record { evolves = here; same = SameRequest-refl g; frozen = λ _. refl }

pub Becomes-trans : {f g h : Grant} → Becomes f g → Becomes g h → Becomes f h
Becomes-trans {f} {g} {h} a b = record {
  evolves = Evolves-trans a.evolves b.evolves;
  same = SameRequest-trans a.same b.same;
  frozen = λ t. b.frozen (ap (λ (x : Grant). is_terminal x.status) (a.frozen t) ∙ t) ∙ a.frozen t;
}

-- Every row that is there stays there, and becomes what it may.
pub record Lives (w w' : World) : Type 0 where
  pub row :
      (i : Text) (g : Grant)
      → find_row i w.db.grants ≡ some g
      → (h : Grant) × (find_row i w'.db.grants ≡ some h) × Becomes g h

pub Lives-same : {w w' : World} → w'.db.grants ≡ w.db.grants → Lives w w'
Lives-same e = record { row = λ i g found. (g, ap (find_row i) e ∙ found, Becomes-refl g) }

pub Lives-trans : {u v w : World} → Lives u v → Lives v w → Lives u w
Lives-trans a b = record {
  row = λ i g found.
      let (h, found', become) = a.row i g found in
      let (k, found'', become') = b.row i h found' in (k, found'', Becomes-trans become become');
}

pub Lives-frame : Frame Lives
Lives-frame = record {
  stay = λ w. Lives-same refl;
  chain = λ u v w. Lives-trans;
  asked = λ c w. Lives-same refl;
  served = λ s w. Lives-same refl;
}

-- The rows are not touched at all.
abbrev pub SameGrants : World → World → Type 0
SameGrants w w' = w'.db.grants ≡ w.db.grants

pub SameGrants-frame : Frame SameGrants
SameGrants-frame = record {
  stay = λ w. refl;
  chain = λ u v w a b. b ∙ a;
  asked = λ c w. refl;
  served = λ s w. refl;
}
