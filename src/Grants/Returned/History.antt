-- ===== src/Grants/Returned/History.antt =====
-- The order of two states of one run, by the requests made so far.
use vault_db_access.Prelude.{◌≡◌, refl, sym, ap, ◌∙◌, Option, List, [], ◌∷◌, ◌++◌, Text}
use mathlib.Core.List.{append_assoc}
use vault_db_access.Models.{DbType}
use vault_db_access.Rows.{Field}
use vault_db_access.Effects.{World, Call, modify}
use vault_db_access.Effects.Frame.{
  Frame, Follows, Follows-time, Follows-bind, Follows-gets, Follows-if, Follows-raise,
}
use vault_db_access.Store.{update_grant, audit}
use vault_db_access.Grants.Guarding.{begin, end_op}

-- The second state was reached from the first or from one with the same requests.
abbrev pub Precedes : World → World → Type 0
Precedes u v = (calls : List Call) × (v.history ≡ calls ++ u.history)

pub Precedes-frame : Frame Precedes
Precedes-frame = record {
  stay = λ w. ([], refl);
  chain = λ u v w (first, e) (last, f).
      (last ++ first, f ∙ ap (λ h. last ++ h) e ∙ sym (append_assoc last first u.history));
  asked = λ c w. (c ∷ [], refl);
  served = λ s w. ([], refl);
}

pub Precedes-move : (u v v' : World) → v' ≡ v → Precedes u v → Precedes u v'
Precedes-move u v v' same before = rw same before

modify-Precedes :
    (f : World → World) → ((w : World) → (f w).history ≡ w.history) → Follows Precedes (modify f)
unfolding modify
modify-Precedes f same = record { at = λ env w. ([], same w) }

pub update_grant-Precedes : (i : Text) (fs : List Field) → Follows Precedes (update_grant i fs)
unfolding update_grant
update_grant-Precedes i fs =
    Follows-bind Precedes-frame _ _ (Follows-time Precedes-frame)
      (λ now. modify-Precedes _ (λ w. refl))

pub audit-Precedes :
    (request_id grant_id : Option Text) (actor action result detail : Text)
    → Follows Precedes (audit request_id grant_id actor action result detail)
unfolding audit
audit-Precedes request_id grant_id actor action result detail =
    Follows-bind Precedes-frame _ _ (Follows-time Precedes-frame)
      (λ now. modify-Precedes _ (λ w. refl))

pub begin-Precedes : (db : DbType) (i : Text) → Follows Precedes (begin db i)
unfolding begin
begin-Precedes db i =
    Follows-bind Precedes-frame _ _ (Follows-gets Precedes-frame _)
      (λ taken. Follows-if _ _ _ (Follows-raise Precedes-frame _) (modify-Precedes _ (λ w. refl)))

pub end_op-Precedes : (db : DbType) (i : Text) → Follows Precedes (end_op db i)
unfolding end_op
end_op-Precedes db i = modify-Precedes _ (λ w. refl)
