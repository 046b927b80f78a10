-- ===== src/Web/Limits.antt =====
-- The size limit of `Guard`.
use vault_db_access.Prelude.{
  ◌⊎◌, ap, ℕ, ◌≡◌, refl, ◌↔◌, Bool, true, false, List, [], ◌∷◌, ◌+◌, ◌≤◌, ◌<◌, ltb, arith,
  Bool-cases, inl, inr,
}
use vault_db_access.Web.Guard.{body_limit, Chunk, request, disconnect, counting_receive}

abbrev pub body_bytes : List Chunk → ℕ
body_bytes [] = 0
body_bytes (request n ∷ rest) = n + body_bytes rest
body_bytes (disconnect ∷ rest) = body_bytes rest

-- What an application that has already been handed `received` bytes is handed of a stream.
pub record IsLimited (received : ℕ) (stream handed : List Chunk) (exceeded : Bool) : Type 0 where
  pub within : received + body_bytes handed ≤ body_limit
  pub whole : (exceeded ≡ true) ⊎ (handed ≡ stream)
  pub reported : (exceeded ≡ true) ↔ (body_limit < received + body_bytes stream)

wholly :
    {exceeded : Bool} {handed stream : List Chunk} (c : Chunk)
    → (exceeded ≡ true) ⊎ (handed ≡ stream)
    → (exceeded ≡ true) ⊎ (c ∷ handed ≡ c ∷ stream)
wholly c (inl over) = inl over
wholly c (inr same) = inr (ap (λ cs. c ∷ cs) same)

-- As long as no more than the limit was handed over before: of every stream no more bytes than the limit
-- are handed over in all, a stream that fits is handed over as it is, and `exceeded` is set exactly
-- when the stream holds more.
pub counting_receive-IsLimited :
    (received : ℕ) (stream : List Chunk)
    → received ≤ body_limit
    → let (handed, exceeded) = counting_receive received stream in
      IsLimited received stream handed exceeded
unfolding counting_receive
counting_receive-IsLimited received [] h = record {
  within = omega (arith, h);
  whole = inr refl;
  reported = ground (arith, h);
}
counting_receive-IsLimited received (disconnect ∷ rest) h =
    let limited = counting_receive-IsLimited received rest h in
    record {
      within = limited.within;
      whole = wholly disconnect limited.whole;
      reported = limited.reported;
    }
counting_receive-IsLimited received (request n ∷ rest) h =
    elim (Bool-cases (ltb body_limit (received + n))) [
      | inl over ↦ rw over (record {
        within = omega (arith, h);
        whole = inl refl;
        reported = (λ _. more over, λ _. refl);
      })
      | inr fits ↦
          let limited = counting_receive-IsLimited (received + n) rest (room fits) in
          rw fits (record {
            within = ground (arith, limited.within);
            whole = wholly (request n) limited.whole;
            reported = ground (arith, limited.reported);
          })
    ]
  where
    room : ltb body_limit (received + n) ≡ false → received + n ≤ body_limit
    room f = ground (arith, f)

    more : ltb body_limit (received + n) ≡ true → body_limit < received + (n + body_bytes rest)
    more f = ground (arith, f)
