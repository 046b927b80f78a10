-- ===== src/Statements/Accounts.antt =====
-- The maintenance statements, read back at their single quotes.
use vault_db_access.Prelude.{
  ℕ, ◌≡◌, refl, ap, ◌∙◌, true, false, not, ◌&&◌, inl, inr, Option, none, some, List, [], ◌∷◌, ◌++◌,
  arith, zero, suc, ◌==◌, eq_ℕ, eq_Text, ==_iff, Bool-cases, Bool, all, contains, take, drop, Text,
  codes, join, map, Result, ok, err, if◌then◌else◌,
}
use vault_db_access.Models.{DbType, postgres, clickhouse}
use vault_db_access.Statements.Maintenance.{
  is_hex, is_suffix_char, matches_grant_id, matches_account, valid_account, quoted_call,
  lockout_statements, terminate_statements, drop_statements,
}
use vault_db_access.Statements.Quoting.{split, split-join}

abbrev pub apostrophe : ℕ
apostrophe = 39

-- What the database reads: each statement cut at its single quotes.
abbrev pub read_back : Result (List Text) → Option (List (List Text))
read_back (ok ss) = some (map (split apostrophe) ss)
read_back (err e) = none

abbrev pub lockout_pieces : DbType → Text → List (List Text)
lockout_pieces postgres account =
    (codes "SELECT vdba.lockout_role(" ∷ account ∷ codes ");" ∷ []) ∷ []
lockout_pieces clickhouse account = []

abbrev pub kill_pieces : Text → List Text
kill_pieces account = codes "KILL QUERY WHERE user = " ∷ account ∷ codes " SYNC;" ∷ []

abbrev pub terminate_pieces : DbType → Text → List (List Text)
terminate_pieces postgres account =
    (codes "SELECT pg_terminate_backend(pid) FROM pg_stat_activity WHERE usename = "
      ∷ account
      ∷ codes ";"
      ∷ [])
    ∷ []
terminate_pieces clickhouse account = kill_pieces account ∷ []

abbrev pub drop_pieces : DbType → Text → List (List Text)
drop_pieces postgres account = (codes "SELECT vdba.cleanup_role(" ∷ account ∷ codes ");" ∷ []) ∷ []
drop_pieces clickhouse account =
    kill_pieces account ∷ (codes "DROP USER IF EXISTS " ∷ account ∷ codes ";" ∷ []) ∷ []

-- Not a single quote.
abbrev is_plain : ℕ → Bool
is_plain c = not (c == apostrophe)

all-take-drop :
    (p : ℕ → Bool) (n : ℕ) (s : Text)
    → all p (take n s) ≡ true
    → all p (drop n s) ≡ true
    → all p s ≡ true
all-take-drop p zero s h k = k
all-take-drop p (suc n) [] h k = refl
all-take-drop p (suc n) (c ∷ s) h k = ground (arith, all-take-drop p n s)

all-weaken :
    (p q : ℕ → Bool) (s : Text)
    → ((c : ℕ) → p c ≡ true → q c ≡ true)
    → all p s ≡ true
    → all q s ≡ true
all-weaken p q [] imp h = refl
all-weaken p q (c ∷ s) imp h = ground (arith, imp c, all-weaken p q s imp)

hex-plain : (c : ℕ) → is_hex c ≡ true → is_plain c ≡ true
unfolding is_hex
hex-plain c h = ground arith

suffix-plain : (c : ℕ) → is_suffix_char c ≡ true → is_plain c ≡ true
unfolding is_suffix_char
suffix-plain c h = ground arith

plain-not-contains : (s : Text) → all is_plain s ≡ true → contains s apostrophe ≡ false
plain-not-contains [] h = refl
plain-not-contains (c ∷ s) h =
    ground (arith, plain-not-contains s, ==_iff c apostrophe, ==_iff apostrophe c)

literal-plain : (s t : Text) → (s == t) ≡ true → all is_plain t ≡ true → all is_plain s ≡ true
literal-plain s t same h = rw ((==_iff s t).0 same) h

grant_id-plain : (s : Text) → matches_grant_id s ≡ true → all is_plain s ≡ true
unfolding matches_grant_id
grant_id-plain s h =
    all-take-drop is_plain 5 s (literal-plain (take 5 s) (codes "vdba_") (ground arith) refl)
      (all-weaken is_hex is_plain (drop 5 s) hex-plain (ground arith))

drop-drop : (n : ℕ) (s : Text) → drop 1 (drop n s) ≡ drop (suc n) s
drop-drop zero s = refl
drop-drop (suc n) [] = refl
drop-drop (suc n) (c ∷ s) = drop-drop n s

four_tests :
    (a b c d : Bool) → (a && b && c && d) ≡ true → (a ≡ true) × (b ≡ true) × (c ≡ true) × (d ≡ true)
four_tests a b c d h = ground arith

-- What `ACCOUNT_RE` accepts has no single quote in it.
pub account-plain : (s : Text) → matches_account s ≡ true → contains s apostrophe ≡ false
unfolding matches_account
account-plain s h =
    let (_, id, line, rest) = four_tests _ _ _ _ h in
    let middle = literal-plain (take 1 (drop 15 s)) (codes "_") line refl in
    let last = all-weaken is_suffix_char is_plain (drop 16 s) suffix-plain rest in
    plain-not-contains s (
      all-take-drop is_plain 15 s (grant_id-plain (take 15 s) id)
        (all-take-drop is_plain 1 (drop 15 s) middle (rw (drop-drop 15 s) last)))

quoted_call-split :
    (before after : Text) (account : Text)
    → contains before apostrophe ≡ false
    → contains account apostrophe ≡ false
    → contains after apostrophe ≡ false
    → split apostrophe (before ++ (apostrophe ∷ (account ++ (apostrophe ∷ after))))
      ≡ before ∷ account ∷ after ∷ []
unfolding join
quoted_call-split before after account b a c =
    split-join apostrophe before (account ∷ after ∷ []) (rw (b, a, c) refl)

-- The reading of one function's statements, as the test decides.
abbrev pub ReadsAs : Text → Result (List Text) → List (List Text) → Type 0
ReadsAs account built pieces =
    read_back built ≡ (if matches_account account then some pieces else none)

-- The statements that lock an account out, terminate its sessions and drop it are built exactly for
-- a name that `ACCOUNT_RE` accepts, and read back at their single quotes each of them is a fixed text
-- around that name as its one literal.
pub maintenance-pieces :
    (db : DbType) (account : Text)
    → ReadsAs account (lockout_statements db account) (lockout_pieces db account)
      × ReadsAs account (terminate_statements db account) (terminate_pieces db account)
      × ReadsAs account (drop_statements db account) (drop_pieces db account)
unfolding lockout_statements terminate_statements drop_statements valid_account quoted_call
maintenance-pieces db account = elim (Bool-cases (matches_account account)) [
  | inl fits ↦ allowed db fits
  | inr other ↦ refused db other
]
  where
    refused :
        (k : DbType)
        → matches_account account ≡ false
        → ReadsAs account (lockout_statements k account) (lockout_pieces k account)
          × ReadsAs account (terminate_statements k account) (terminate_pieces k account)
          × ReadsAs account (drop_statements k account) (drop_pieces k account)
    refused postgres other = rw other (refl, refl, refl)
    refused clickhouse other = rw other (refl, refl, refl)

    allowed :
        (k : DbType)
        → matches_account account ≡ true
        → ReadsAs account (lockout_statements k account) (lockout_pieces k account)
          × ReadsAs account (terminate_statements k account) (terminate_pieces k account)
          × ReadsAs account (drop_statements k account) (drop_pieces k account)
    allowed postgres fits =
        let free = account-plain account fits in
        let cut =
          λ (b a : Text) (p : contains b apostrophe ≡ false) (q : contains a apostrophe ≡ false).
            quoted_call-split b a account p free q in
        rw fits (
          ap (λ ws. some (ws ∷ []))
              (cut (codes "SELECT vdba.lockout_role(") (codes ");") refl refl),
          ap (λ ws. some (ws ∷ []))
              (cut (codes "SELECT pg_terminate_backend(pid) FROM pg_stat_activity WHERE usename = ")
                (codes ";") refl refl),
          ap (λ ws. some (ws ∷ []))
              (cut (codes "SELECT vdba.cleanup_role(") (codes ");") refl refl),
        )
    allowed clickhouse fits =
        let free = account-plain account fits in
        let cut =
          λ (b a : Text) (p : contains b apostrophe ≡ false) (q : contains a apostrophe ≡ false).
            quoted_call-split b a account p free q in
        let kill = cut (codes "KILL QUERY WHERE user = ") (codes " SYNC;") refl refl in
        rw fits (
          refl,
          ap (λ ws. some (ws ∷ [])) kill,
          ap (λ ws. some ws)
              (ap
                  (λ ws.
                    ws ∷ split apostrophe (quoted_call "DROP USER IF EXISTS '" account "';") ∷ [])
                  kill
                ∙ ap (λ ws. kill_pieces account ∷ ws ∷ [])
                    (cut (codes "DROP USER IF EXISTS ") (codes ";") refl refl)),
        )
