-- ===== src/Grants/Release/Guarded.antt =====
-- `_begin`, a `try`, and `_end` in its `finally`.
use vault_db_access.Prelude.{◌≡◌, refl, ap, ◌∙◌, false, Text, eq_Text, Bool-cases, inl, inr}
use vault_db_access.Models.{DbType}
use vault_db_access.Effects.{M, Guards, try_else, finally, raise, modify, gets, ◌>>=◌, ◌>>◌}
use vault_db_access.Grants.Guarding.{begin, end_op, begun, ended, held}
use vault_db_access.Grants.Release.Left.{NothingLeft, NothingLeft-same, ended-begun}
use vault_db_access.Grants.Release.Kept.{Kept}
use vault_db_access.Grants.Release.Ends.{
  Ends, Releases, Never, Then, Kept-Ends, Ends-bind, finally-Ends,
}

-- `_begin` takes a lock that is free, or raises and leaves all as it was.
abbrev Begun : DbType → Text → Guards → Guards → Type 0
Begun db i g g' = (held db g ≡ false) × (g' ≡ begun db i g)

begin-Ends : (db : DbType) (i : Text) → Ends (Begun db i) NothingLeft (begin db i)
unfolding begin gets modify raise ◌>>=◌ try_else
begin-Ends db i = record {
  returned = λ env w a h. elim (Bool-cases (held db w.guards)) [
    | inl taken ↦ cc (rw taken at h)
    | inr unheld ↦ rw unheld (refl, refl)
  ];
  failed = λ env w e h. elim (Bool-cases (held db w.guards)) [
    | inl taken ↦ rw taken (NothingLeft-same refl)
    | inr unheld ↦ cc (rw unheld at h)
  ];
}

abbrev Ended : DbType → Text → Guards → Guards → Type 0
Ended db i g g' = g' ≡ ended db i g

end_op-Ends : (db : DbType) (i : Text) → Ends (Ended db i) Never (end_op db i)
unfolding end_op modify
end_op-Ends db i = record { returned = λ env w a h. refl; failed = λ env w x h. cc }

-- `_end` runs once, however the body of the `try` ends.
module _ {A : Type 0} where
  Ended-Ends :
      (db : DbType) (i : Text) (m : M A)
      → Kept m
      → Ends (Ended db i) (Ended db i) (finally m (end_op db i))
  Ended-Ends db i m kept =
      finally-Ends m (end_op db i) (Kept-Ends m kept) (end_op-Ends db i)
        (λ g h k p q. rw q (rw p refl))

module _ {A B : Type 0} where
  -- `_begin`, a `try` whose `finally` is `_end`, and what follows it.
  pub guarded-Releases :
      (db : DbType) (i : Text) (m : M A) (f : A → M B)
      → Kept m
      → ((a : A) → Kept (f a))
      → Releases (begin db i >> (finally m (end_op db i) >>= f))
  unfolding ◌>>◌
  guarded-Releases db i m f hm hf =
      let closed : Ends (Ended db i) (Ended db i) (finally m (end_op db i) >>= f) =
        Ends-bind (finally m (end_op db i)) f (Ended-Ends db i m hm) (λ a. Kept-Ends (f a) (hf a))
          (λ g h k p q. q ∙ p) (λ g h k p q. q ∙ p) (λ g h p. p) in
      let back : Then (Begun db i) (Ended db i) NothingLeft =
        λ g h k p q. rw (q ∙ ap (ended db i) p.1) (ended-begun db i g p.0) in
      Ends-bind (begin db i) (λ _. finally m (end_op db i) >>= f) (begin-Ends db i) (λ _. closed)
        back back (λ g h p. p)

-- The same where nothing follows.
pub guarded_only-Releases :
    {A : Type 0} (db : DbType) (i : Text) (m : M A)
    → Kept m
    → Releases (begin db i >> finally m (end_op db i))
unfolding ◌>>◌
guarded_only-Releases db i m hm =
    let back : Then (Begun db i) (Ended db i) NothingLeft =
      λ g h k p q. rw (q ∙ ap (ended db i) p.1) (ended-begun db i g p.0) in
    Ends-bind (begin db i) (λ _. finally m (end_op db i)) (begin-Ends db i)
      (λ _. Ended-Ends db i m hm) back back (λ g h p. p)
