-- ===== src/Statements/Identifier.antt =====
-- What `IDENTIFIER_RE` and `ACCOUNT_RE` keep out.
use vault_db_access.Prelude.{
  ℕ, ◌≡◌, refl, true, false, inl, inr, [], ◌∷◌, arith, ◌==◌, eq_ℕ, ==_iff, Bool-cases, all,
  contains, Text, ok,
}
use vault_db_access.Statements.Templates.{is_head, is_word, matches_identifier, valid_identifier}

-- No character outside `[A-Za-z0-9_]` occurs in what is all of it.
pub word-not-contains :
    (s : Text) (q : ℕ) → all is_word s ≡ true → is_word q ≡ false → contains s q ≡ false
word-not-contains [] q h k = refl
word-not-contains (c ∷ s) q h k = elim (Bool-cases (q == c)) [
  | inl same ↦ ground (arith, (==_iff q c).0 same)
  | inr other ↦ ground (arith, other, word-not-contains s q)
]

pub matches_identifier-word : (s : Text) → matches_identifier s ≡ true → all is_word s ≡ true
unfolding matches_identifier is_head is_word
matches_identifier-word [] h = refl
matches_identifier-word (c ∷ s) h = ground arith

pub valid_identifier-eq-ok :
    (s t : Text) → valid_identifier s ≡ ok t → (s ≡ t) × (matches_identifier s ≡ true)
unfolding valid_identifier
valid_identifier-eq-ok s t h = ground arith
