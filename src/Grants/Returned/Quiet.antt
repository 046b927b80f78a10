-- ===== src/Grants/Returned/Quiet.antt =====
-- Parts of a run between two writes of grants.py.
use vault_db_access.Prelude.{◌≡◌, some, refl, ap, ◌∙◌, Text, Option}
use mathlib.Core.Path.{subst}
use vault_db_access.Models.{DbType}
use vault_db_access.Rows.{Grant, find_row}
use vault_db_access.Effects.{modify, M, World, Env, Outcome}
use vault_db_access.Effects.Frame.{Frame, Follows}
use vault_db_access.Effects.Returns.{Returns}
use vault_db_access.Store.{audit}
use vault_db_access.Grants.Guarding.{begin, end_op}
use vault_db_access.Grants.Lifecycle.Relation.{SameGrants}
use vault_db_access.Grants.Lifecycle.Rows.{audit-SameGrants}
use vault_db_access.Grants.Lifecycle.Closing.{begin-SameGrants}
use vault_db_access.Grants.Returned.History.{
  Precedes, Precedes-frame, audit-Precedes, begin-Precedes, end_op-Precedes,
}

-- The row `i` is `g`.
abbrev pub IsRow : Text → Grant → World → Type 0
IsRow i g w = find_row i w.db.grants ≡ some g

-- The run went on from the first state to the second without touching the rows of `grants`.
abbrev pub Quiet : World → World → Type 0
Quiet u v = SameGrants u v × Precedes u v

pub Quiet-frame : Frame Quiet
Quiet-frame = record {
  stay = λ w. (refl, Precedes-frame.stay w);
  chain = λ u v w a b. (b.0 ∙ a.0, Precedes-frame.chain u v w a.1 b.1);
  asked = λ c w. (refl, Precedes-frame.asked c w);
  served = λ s w. (refl, Precedes-frame.served s w);
}

Quiet-both : {A : Type 0} (m : M A) → Follows SameGrants m → Follows Precedes m → Follows Quiet m
Quiet-both m same before = record { at = λ env w. (same.at env w, before.at env w) }

pub audit-Quiet :
    (request_id grant_id : Option Text) (actor action result detail : Text)
    → Follows Quiet (audit request_id grant_id actor action result detail)
audit-Quiet request_id grant_id actor action result detail =
    Quiet-both _ (record { at = audit-SameGrants request_id grant_id actor action result detail })
      (audit-Precedes request_id grant_id actor action result detail)

pub begin-Quiet : (db : DbType) (i : Text) → Follows Quiet (begin db i)
begin-Quiet db i = Quiet-both _ (record { at = begin-SameGrants db i }) (begin-Precedes db i)

pub end_op-Quiet : (db : DbType) (i : Text) → Follows Quiet (end_op db i)
unfolding end_op modify
end_op-Quiet db i = Quiet-both _ (record { at = λ env w. refl }) (end_op-Precedes db i)

-- An action that leaves the rows alone, when it returns.
pub Returns-Quiet :
    {A : Type 0} (m : M A) (env : Env) (w w' : World) (a : A)
    → Follows Quiet m
    → Returns m env w a w'
    → Quiet w w'
Returns-Quiet {A = A} m env w w' a follows h =
    subst (Quiet w) (ap (λ (t : Outcome A × World). t.1) h) (follows.at env w)

pub IsRow-Quiet : (i : Text) (g : Grant) (u v : World) → Quiet u v → IsRow i g u → IsRow i g v
IsRow-Quiet i g u v (same, before) row = ap (find_row i) same ∙ row

pub IsRow-Returns :
    {A : Type 0} (i : Text) (g : Grant) (m : M A) (env : Env) (w w' : World) (a : A)
    → Follows Quiet m
    → Returns m env w a w'
    → IsRow i g w
    → IsRow i g w'
IsRow-Returns i g m env w w' a follows h row =
    IsRow-Quiet i g w w' (Returns-Quiet m env w w' a follows h) row
