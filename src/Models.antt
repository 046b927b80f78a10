-- ===== src/Models.antt =====
-- middleware/app/models.py: the enumerations, and what pydantic is told to check of a grant request.
use mathlib.Core.Path.{subst}
use vault_db_access.Prelude.{
  ◌≤◌, refl, length, ◌⊎◌, inl, inr, Bool-cases, ℕ, ◌≡◌, Bool, true, false, not, ◌&&◌, ◌||◌, List,
  [], ◌∷◌, arith, Eq, ◌==◌, eq_ℕ, leb, if◌then◌else◌, all, contains, Text, codes, value_error,
  not_printable, Result, ok, err, ◌↔◌,
}
use vault_db_access.Prelude.Int.{ℤ}

pub data DbType : Type 0 where
  postgres clickhouse : DbType

pub data Scope : Type 0 where
  database tables : Scope

pub data Status : Type 0 where
  issuing active revoking revoked expired failed : Status

-- Equality of enumeration members.
abbrev pub db_type_eq : DbType → DbType → Bool
db_type_eq postgres postgres = true
db_type_eq clickhouse clickhouse = true
db_type_eq _ _ = false

abbrev pub status_eq : Status → Status → Bool
status_eq issuing issuing = true
status_eq active active = true
status_eq revoking revoking = true
status_eq revoked revoked = true
status_eq expired expired = true
status_eq failed failed = true
status_eq _ _ = false

pub status_eq_iff : (a b : Status) → (status_eq a b ≡ true) ↔ (a ≡ b)
status_eq_iff a b = ground arith

instance abbrev pub eq_Status : Eq Status
eq_Status = record { same = status_eq; same_iff = status_eq_iff }

-- `TERMINAL`
abbrev pub is_terminal : Status → Bool
is_terminal revoked = true
is_terminal expired = true
is_terminal failed = true
is_terminal _ = false

-- The members' values, which are what the store and the API hold.
abbrev pub db_value : DbType → Text
db_value postgres = codes "postgres"
db_value clickhouse = codes "clickhouse"

abbrev pub scope_value : Scope → Text
scope_value database = codes "database"
scope_value tables = codes "tables"

-- A validated `GrantRequest`.
pub record GrantRequest : Type 0 where
  pub db_type : DbType
  pub scope : Scope
  pub table_names : List Text
  pub commands : List Text
  pub ttl_seconds : ℤ
  pub requested_for : Text

-- The characters that `str.strip` removes.
is_space : ℕ → Bool
is_space c =
    (leb 9 c && leb c 13)
    || (leb 28 c && leb c 32)
    || contains (0x85 ∷ 0xa0 ∷ 0x1680 ∷ 0x2028 ∷ 0x2029 ∷ 0x202f ∷ 0x205f ∷ 0x3000 ∷ []) c
    || (leb 0x2000 c && leb c 0x200a)

drop_space : Text → Text
drop_space [] = []
drop_space (c ∷ s) = if is_space c then drop_space s else c ∷ s

drop_space_end : Text → Text
drop_space_end [] = []
drop_space_end (c ∷ s) =
    let rest = drop_space_end s in
    elim rest [ [] ↦ if is_space c then [] else c ∷ [] | d ∷ ds ↦ c ∷ d ∷ ds ]

-- `v.strip()`
unfoldable pub strip : Text → Text
unfolding drop_space drop_space_end is_space
strip s = drop_space_end (drop_space s)

length-drop_space : (s : Text) → length (drop_space s) ≤ length s
unfolding drop_space
length-drop_space [] = ground arith
length-drop_space (c ∷ s) = ground (arith, length-drop_space s)

length-drop_space_end : (s : Text) → length (drop_space_end s) ≤ length s
unfolding drop_space_end
length-drop_space_end [] = ground arith
length-drop_space_end (c ∷ s) =
    let shorter = length-drop_space_end s in
    elim (List-cases (drop_space_end s)) [
      | inl nil ↦ rw nil (ground arith)
      | inr (d, (ds, e)) ↦ rw e (ground (arith, rw e at shorter))
    ]
  where
    List-cases : (t : Text) → (t ≡ []) ⊎ ((d : ℕ) × ((ds : Text) × (t ≡ d ∷ ds)))
    List-cases [] = inl refl
    List-cases (d ∷ ds) = inr (d, (ds, refl))

-- Stripping does not lengthen a text.
pub length-strip : (s : Text) → length (strip s) ≤ length s
unfolding strip
length-strip s = ground (arith, length-drop_space s, length-drop_space_end (drop_space s))

-- A character of `_PRINTABLE`, `[^\x00-\x1f\x7f]`.
unfoldable pub is_printable : ℕ → Bool
is_printable c = leb 0x20 c && not (c == 0x7f)

-- `GrantRequest._clean`; `fullmatch` of the `+` wants at least one character.
unfoldable pub clean : Text → Result Text
unfolding strip is_printable
clean v =
    let s = strip v in
    elim s [
      | [] ↦ err (value_error not_printable)
      | c ∷ cs ↦ if all is_printable (c ∷ cs) then ok (c ∷ cs) else err (value_error not_printable)
    ]

-- What a cleaned text is.
pub clean-ok :
    (v s : Text)
    → clean v ≡ ok s
    → (1 ≤ length s) × (length s ≤ length v) × (all is_printable s ≡ true)
unfolding clean
clean-ok v s h = go (strip v) (length-strip v) h
  where
    go :
        (t : Text)
        → length t ≤ length v
        → (elim t [
          | [] ↦ err (value_error not_printable)
          | c ∷ cs ↦
              if all is_printable (c ∷ cs) then ok (c ∷ cs) else err (value_error not_printable)
        ])
          ≡ ok s
        → (1 ≤ length s) × (length s ≤ length v) × (all is_printable s ≡ true)
    go [] short h = cc
    go (c ∷ cs) short h = elim (Bool-cases (all is_printable (c ∷ cs))) [
      | inl good ↦
          let same : c ∷ cs ≡ s = cc (rw good at h) in
          subst (λ x. (1 ≤ length x) × (length x ≤ length v) × (all is_printable x ≡ true)) same
            (ground arith, short, good)
      | inr bad ↦ cc (rw bad at h)
    ]
