-- ===== src/Statements/Chosen.antt =====
-- `_tables`: what it returns has been checked, and what it checks.
use vault_db_access.Prelude.{
  ◌≡◌, ◌≢◌, refl, ap, ◌∙◌, Bool, true, false, ◌&&◌, ◌||◌, List, [], ◌∷◌, arith, ◌==◌, eq_ℕ, eq_Text,
  ==_iff, all, contains, fromkeys, contains-fromkeys, distinct-fromkeys, distinct, Text, ok,
  Message, ◌>>=◌, ◌>>◌, ok->>=, no_tables_in_schema, no_table_selected,
}
use vault_db_access.Models.{Scope}
use vault_db_access.Statements.Templates.{
  matches_identifier, insert_sorted, sorted, check_tables, or_empty, chosen_tables,
}

-- A table that may stand in a statement.
abbrev pub grantable : List Text → Text → Bool
grantable known t = matches_identifier t && contains known t

pub check_tables-eq-ok :
    (ts known : List Text) (u : Unit {0})
    → check_tables ts known ≡ ok u
    → all (grantable known) ts ≡ true
unfolding check_tables
check_tables-eq-ok [] known u h = refl
check_tables-eq-ok (t ∷ ts) known u h = ground (arith, check_tables-eq-ok ts known u)

contains-insert_sorted :
    (t a : Text) (us : List Text) → contains (insert_sorted t us) a ≡ (a == t || contains us a)
unfolding insert_sorted
contains-insert_sorted t a [] = refl
contains-insert_sorted t a (u ∷ us) = ground (arith, contains-insert_sorted t a us)

pub contains-sorted : (ts : List Text) (a : Text) → contains (sorted ts) a ≡ contains ts a
unfolding sorted
contains-sorted [] a = refl
contains-sorted (t ∷ ts) a =
    contains-insert_sorted t a (sorted ts) ∙ ap (λ b. a == t || b) (contains-sorted ts a)

distinct-insert_sorted :
    (t : Text) (us : List Text)
    → distinct us ≡ true
    → contains us t ≡ false
    → distinct (insert_sorted t us) ≡ true
unfolding insert_sorted
distinct-insert_sorted t [] d n = refl
distinct-insert_sorted t (u ∷ us) d n =
    ground
      (arith, distinct-insert_sorted t us, contains-insert_sorted t u us, ==_iff u t, ==_iff t u)

pub distinct-sorted : (ts : List Text) → distinct ts ≡ true → distinct (sorted ts) ≡ true
unfolding sorted
distinct-sorted [] d = refl
distinct-sorted (t ∷ ts) d =
    distinct-insert_sorted t (sorted ts) (distinct-sorted ts (ground arith))
      (rw (contains-sorted ts t) (ground arith))

-- What the request asked for: every known table, or the listed ones.
abbrev pub requested : Scope → List Text → List Text → List Text
requested Scope.database tables known = known
requested Scope.tables tables known = tables

abbrev pub IsChosen : Scope → List Text → List Text → List Text → Type 0
IsChosen scope tables known chosen =
    (all (grantable known) chosen ≡ true)
    × (chosen ≢ [])
    × (distinct chosen ≡ true)
    × ((t : Text) → contains chosen t ≡ contains (requested scope tables known) t)

or_empty-eq-ok :
    (ts : List Text) (m : Message) {us : List Text} → or_empty ts m ≡ ok us → (us ≡ ts) × (us ≢ [])
or_empty-eq-ok [] m h = cc
or_empty-eq-ok (t ∷ ts) m h = (ground arith, λ e. cc)

finish :
    (ts known : List Text) (m : Message) {chosen : List Text}
    → (do us ← or_empty ts m; check_tables us known; ok us) ≡ ok chosen
    → (chosen ≡ ts) × (chosen ≢ []) × (all (grantable known) chosen ≡ true)
finish [] known m h = cc
finish (t ∷ ts) known m {chosen} h =
    let (u, checked, same) = ok->>= (check_tables (t ∷ ts) known) (λ _. ok (t ∷ ts)) h in
    let back : chosen ≡ t ∷ ts = cc same in
    (back, λ e. cc, rw back (check_tables-eq-ok (t ∷ ts) known u checked))

-- Whatever is chosen is a valid, existing table, chosen once, and nothing else was asked for.
pub chosen_tables-IsChosen :
    (scope : Scope) (tables known chosen : List Text)
    → distinct known ≡ true
    → chosen_tables scope tables known ≡ ok chosen
    → IsChosen scope tables known chosen
unfolding chosen_tables
chosen_tables-IsChosen Scope.database tables known chosen d h =
    let (same, ne, fine) = finish (sorted known) known no_tables_in_schema h in
    (fine, ne, rw same (distinct-sorted known d), λ t. rw same (contains-sorted known t))
chosen_tables-IsChosen Scope.tables tables known chosen d h =
    let (same, ne, fine) = finish (fromkeys tables) known no_table_selected h in
    (fine, ne, rw same (distinct-fromkeys tables), λ t. rw same (contains-fromkeys tables t))
