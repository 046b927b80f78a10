-- ===== src/Prelude/Lists.antt =====
-- Lists measured by native numbers, Boolean membership, `dict.fromkeys`, and predicates on lists.
use Prim.Native.Nat.{ℕ, suc, zero, ◌+◌}
use mathlib.Core.Path.{◌≡◌, refl, ap}
use mathlib.Core.Bool.{Bool, true, false, not, ◌&&◌, ◌||◌}
use mathlib.Core.List.{List, [], ◌∷◌, ◌++◌}
use mathlib.Core.Logic.{inl, inr}
use native.Mathlib.Omega.{arith}
use vault_db_access.Prelude.Tests.{Eq, ◌==◌, ==_iff, if◌then◌else◌, Bool-cases}

module _ {ℓ} {A : Type ℓ} where
  abbrev pub length : List A → ℕ
  length [] = 0
  length (x ∷ xs) = suc (length xs)

  abbrev pub take : ℕ → List A → List A
  take zero xs = []
  take (suc n) [] = []
  take (suc n) (x ∷ xs) = x ∷ take n xs

  abbrev pub drop : ℕ → List A → List A
  drop zero xs = xs
  drop (suc n) [] = []
  drop (suc n) (x ∷ xs) = drop n xs

  -- `all(p(x) for x in xs)` and `any(p(x) for x in xs)`
  abbrev pub all : (A → Bool) → List A → Bool
  all p [] = true
  all p (x ∷ xs) = p x && all p xs

  abbrev pub any : (A → Bool) → List A → Bool
  any p [] = false
  any p (x ∷ xs) = p x || any p xs

  -- `[x for x in xs if p(x)]`
  abbrev pub keep : (A → Bool) → List A → List A
  keep p [] = []
  keep p (x ∷ xs) = let rest = keep p xs in if p x then x ∷ rest else rest

  pub length-append : (xs ys : List A) → length (xs ++ ys) ≡ length xs + length ys
  length-append [] ys = omega arith
  length-append (x ∷ xs) ys = omega (arith, length-append xs ys)

  pub all-append :
      (p : A → Bool) (xs ys : List A) → all p xs ≡ true → all p ys ≡ true → all p (xs ++ ys) ≡ true
  all-append p [] ys hx hy = hy
  all-append p (x ∷ xs) ys hx hy = ground (arith, all-append p xs ys)

module _ {ℓ} {A : Type ℓ} ⦃e : Eq A⦄ where
  -- `a in xs`
  abbrev pub contains : List A → A → Bool
  contains [] a = false
  contains (x ∷ xs) a = a == x || contains xs a

  -- No element twice.
  abbrev pub distinct : List A → Bool
  distinct [] = true
  distinct (x ∷ xs) = not (contains xs x) && distinct xs

  -- `list(dict.fromkeys(xs))`: the first occurrence of each, in order; `seen` holds the keys so far.
  pub fromkeys_from : List A → List A → List A
  fromkeys_from seen [] = []
  fromkeys_from seen (x ∷ xs) = elim (contains seen x) [
    | true ↦ fromkeys_from seen xs
    | false ↦ x ∷ fromkeys_from (x ∷ seen) xs
  ]

  unfoldable pub fromkeys : List A → List A
  unfolding fromkeys_from
  fromkeys = fromkeys_from []

  pub ==_refl : (a : A) → (a == a) ≡ true
  ==_refl a = (==_iff a a).1 refl

  fromkeys_from_lem :
      (seen xs : List A) (a : A)
      → contains (fromkeys_from seen xs) a ≡ (contains xs a && not (contains seen a))
  unfolding fromkeys_from
  fromkeys_from_lem seen [] a = refl
  fromkeys_from_lem seen (x ∷ xs) a = elim (Bool-cases (contains seen x)) [
    | inl old ↦ ground (arith, old, fromkeys_from_lem seen xs a, ==_iff a x)
    | inr new ↦ ground (arith, new, fromkeys_from_lem (x ∷ seen) xs a, ==_iff a x)
  ]

  distinct-fromkeys_from : (seen xs : List A) → distinct (fromkeys_from seen xs) ≡ true
  unfolding fromkeys_from
  distinct-fromkeys_from seen [] = refl
  distinct-fromkeys_from seen (x ∷ xs) = elim (Bool-cases (contains seen x)) [
    | inl old ↦ ground (arith, old, distinct-fromkeys_from seen xs)
    | inr new ↦ ground (
      arith,
      new,
      distinct-fromkeys_from (x ∷ seen) xs,
      fromkeys_from_lem (x ∷ seen) xs x,
      ==_refl x,
    )
  ]

  all-fromkeys_from :
      (p : A → Bool) (seen xs : List A) → all p xs ≡ true → all p (fromkeys_from seen xs) ≡ true
  unfolding fromkeys_from
  all-fromkeys_from p seen [] h = refl
  all-fromkeys_from p seen (x ∷ xs) h =
      ground (arith, all-fromkeys_from p seen xs, all-fromkeys_from p (x ∷ seen) xs)

  pub all-fromkeys : (p : A → Bool) (xs : List A) → all p xs ≡ true → all p (fromkeys xs) ≡ true
  unfolding fromkeys
  all-fromkeys p xs h = all-fromkeys_from p [] xs h

  pub contains-fromkeys : (xs : List A) (a : A) → contains (fromkeys xs) a ≡ contains xs a
  unfolding fromkeys
  contains-fromkeys xs a = ground (arith, fromkeys_from_lem [] xs a)

  pub distinct-fromkeys : (xs : List A) → distinct (fromkeys xs) ≡ true
  unfolding fromkeys
  distinct-fromkeys xs = distinct-fromkeys_from [] xs

  -- What a test accepts on a whole list it accepts on each member.
  pub all_at :
      (p : A → Bool) (xs : List A) (a : A) → all p xs ≡ true → contains xs a ≡ true → p a ≡ true
  all_at p [] a h m = ground arith
  all_at p (x ∷ xs) a h m = elim (Bool-cases (a == x)) [
    | inl same ↦ ground (arith, (==_iff a x).0 same)
    | inr other ↦ ground (arith, other, all_at p xs a)
  ]

  -- A filtered list holds what the list holds and the filter accepts.
  pub contains-keep :
      (p : A → Bool) (xs : List A) (a : A) → contains (keep p xs) a ≡ (contains xs a && p a)
  contains-keep p [] a = refl
  contains-keep p (x ∷ xs) a = elim (Bool-cases (a == x)) [
    | inl same ↦
        let e : a ≡ x = (==_iff a x).0 same in ground (arith, same, ap p e, contains-keep p xs a)
    | inr other ↦ ground (arith, other, contains-keep p xs a)
  ]
