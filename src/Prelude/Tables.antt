-- ===== src/Prelude/Tables.antt =====
-- Dictionaries from texts, as lists of pairs.
use mathlib.Core.Option.{Option, none, some}
use mathlib.Core.List.{List, [], ◌∷◌}
use vault_db_access.Prelude.Tests.{◌==◌, if◌then◌else◌}
use vault_db_access.Prelude.Strings.{Text, eq_Text}

module _ {ℓ} {V : Type ℓ} where
  -- `d.get(k)`
  unfoldable pub lookup : Text → List (Text × V) → Option V
  lookup k [] = none
  lookup k ((j, v) ∷ rest) = if j == k then some v else lookup k rest

  -- `form.get(k)`: of a name that is given more than once the last value counts.
  unfoldable pub lookup_last : Text → List (Text × V) → Option V
  lookup_last k [] = none
  lookup_last k ((j, v) ∷ rest) = elim (lookup_last k rest) [
    | some w ↦ some w
    | none ↦ if j == k then some v else none
  ]

  -- `form.getlist(k)`
  unfoldable pub lookup_all : Text → List (Text × V) → List V
  lookup_all k [] = []
  lookup_all k ((j, v) ∷ rest) =
      let later = lookup_all k rest in if j == k then v ∷ later else later

  abbrev pub or_else : Option V → V → V
  or_else none d = d
  or_else (some v) d = v
