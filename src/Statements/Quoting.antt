-- ===== src/Statements/Quoting.antt =====
-- An independent reader of the SQL texts: it cuts a statement at a quote character, so what stands
-- between two quotes is one quoted identifier or literal.
use vault_db_access.Prelude.{
  ℕ, ◌≡◌, refl, ap, ◌∙◌, not, ◌||◌, all, join, ==_iff, true, false, List, [], ◌∷◌, ◌++◌, arith,
  ◌==◌, eq_ℕ, if◌then◌else◌, contains, Text,
}

abbrev pub push : ℕ → List Text → List Text
push c [] = (c ∷ []) ∷ []
push c (w ∷ ws) = (c ∷ w) ∷ ws

-- The pieces of a text between the occurrences of a quote character.
unfoldable pub split : ℕ → Text → List Text
split q [] = [] ∷ []
split q (c ∷ s) = let rest = split q s in if c == q then [] ∷ rest else push c rest

split_free : (q : ℕ) (s : Text) → contains s q ≡ false → split q s ≡ s ∷ []
unfolding split
split_free q [] h = refl
split_free q (c ∷ s) h = ground (arith, split_free q s, ==_iff c q, ==_iff q c)

split_at :
    (q : ℕ) (s rest : Text) → contains s q ≡ false → split q (s ++ (q ∷ rest)) ≡ s ∷ split q rest
unfolding split
split_at q [] rest h = ground (arith, ==_iff q q)
split_at q (c ∷ s) rest h = ground (arith, split_at q s rest, ==_iff c q, ==_iff q c)

-- Texts without the quote character, joined by it, are read back one by one.
pub split-join :
    (q : ℕ) (s : Text) (ss : List Text)
    → all (λ w. not (contains w q)) (s ∷ ss) ≡ true
    → split q (join (q ∷ []) (s ∷ ss)) ≡ s ∷ ss
unfolding join
split-join q s [] h = split_free q s (ground arith)
split-join q s (t ∷ ss) h =
    split_at q s (join (q ∷ []) (t ∷ ss)) (ground arith)
    ∙ ap (λ ws. s ∷ ws) (split-join q t ss (ground arith))

pub contains-append : (s t : Text) (q : ℕ) → contains (s ++ t) q ≡ (contains s q || contains t q)
contains-append [] t q = refl
contains-append (c ∷ s) t q = ground (arith, contains-append s t q)
