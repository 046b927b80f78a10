-- ===== src/Statements/Creation.antt =====
-- The whole lists of creation statements, read back.
use vault_db_access.Prelude.{
  ℕ, ◌≡◌, refl, true, false, not, List, [], ◌∷◌, ◌++◌, arith, eq_ℕ, eq_Text, all, contains,
  fromkeys, map, map-append, Text, codes, ok, ◌>>=◌, join, ok->>=, all_at, all-append, all-fromkeys,
}
use vault_db_access.Statements.Templates.{
  is_word, command_list, matches_identifier, valid_identifier, Sequences, owned, grant_table,
  grant_sequence, sequence_grants, all_sequence_grants, grant_clickhouse,
}
use vault_db_access.Statements.Quoting.{split, contains-append}
use vault_db_access.Statements.Identifier.{
  word-not-contains, matches_identifier-word, valid_identifier-eq-ok,
}
use vault_db_access.Statements.Commands.{command_list-eq-ok}
use vault_db_access.Statements.Chosen.{grantable}
use vault_db_access.Statements.Pieces.{
  quote, backquote, table_pieces, sequence_pieces, clickhouse_pieces, split-grant_table,
  split-grant_sequence, split-grant_clickhouse,
}

-- A quote character that no allowed command holds stands in no list of them.
join-not-contains :
    (q : ℕ) (ds allowed : List Text)
    → all (contains allowed) ds ≡ true
    → all (λ d. not (contains d q)) allowed ≡ true
    → contains (codes ", ") q ≡ false
    → contains (join (codes ", ") ds) q ≡ false
unfolding join
join-not-contains q [] allowed h free sep = refl
join-not-contains q (d ∷ []) allowed h free sep =
    ground (arith, all_at (λ w. not (contains w q)) allowed d free)
join-not-contains q (d ∷ e ∷ ds) allowed h free sep = ground (
  arith,
  all_at (λ w. not (contains w q)) allowed d free,
  join-not-contains q (e ∷ ds) allowed,
  contains-append d (codes ", " ++ join (codes ", ") (e ∷ ds)) q,
  contains-append (codes ", ") (join (codes ", ") (e ∷ ds)) q,
)

pub command_list-not-contains :
    (q : ℕ) (cs allowed : List Text) (cmds : Text)
    → command_list cs allowed ≡ ok cmds
    → all (λ d. not (contains d q)) allowed ≡ true
    → contains (codes ", ") q ≡ false
    → contains cmds q ≡ false
command_list-not-contains q cs allowed cmds h free sep =
    let (permitted, _, made) = command_list-eq-ok cs allowed cmds h in
    rw made (
      join-not-contains q (fromkeys cs) allowed (all-fromkeys (contains allowed) cs permitted) free
        sep)

identifier-not-contains :
    (q : ℕ) (t : Text) → is_word q ≡ false → matches_identifier t ≡ true → contains t q ≡ false
identifier-not-contains q t h m = word-not-contains t q (matches_identifier-word t m) h

pub map-split-tables :
    (cmds : Text) (known chosen : List Text)
    → contains cmds quote ≡ false
    → all (grantable known) chosen ≡ true
    → map (split quote) (map (grant_table cmds) chosen) ≡ map (table_pieces cmds) chosen
map-split-tables cmds known [] p h = refl
map-split-tables cmds known (t ∷ ts) p h = ground (
  arith,
  split-grant_table cmds t p,
  identifier-not-contains quote t (unfold is_word in refl),
  map-split-tables cmds known ts p,
)

pub map-split-sequences :
    (seqs : List Text)
    → all matches_identifier seqs ≡ true
    → map (split quote) (map grant_sequence seqs) ≡ map sequence_pieces seqs
map-split-sequences [] h = refl
map-split-sequences (s ∷ seqs) h = ground (
  arith,
  split-grant_sequence s,
  identifier-not-contains quote s (unfold is_word in refl),
  map-split-sequences seqs,
)

-- The sequences that the catalog gives as owned by some of the tables, in the tables' order.
abbrev pub owned_by : Sequences → List Text → List Text
owned_by sequences [] = []
owned_by sequences (t ∷ ts) = owned sequences t ++ owned_by sequences ts

sequence_grants-eq-ok :
    (seqs out : List Text)
    → sequence_grants seqs ≡ ok out
    → (out ≡ map grant_sequence seqs) × (all matches_identifier seqs ≡ true)
unfolding sequence_grants
sequence_grants-eq-ok [] out h = ground arith
sequence_grants-eq-ok (s ∷ seqs) out h =
    let (name, valid, h1) =
      ok->>= (valid_identifier s)
        (λ _. sequence_grants seqs >>= λ (rest : List Text). ok (grant_sequence s ∷ rest)) h in
    let (rest, made, h2) =
      ok->>= (sequence_grants seqs) (λ (rest : List Text). ok (grant_sequence s ∷ rest)) h1 in
    let (same, fine) = sequence_grants-eq-ok seqs rest made in
    (ground arith, ground (arith, valid_identifier-eq-ok s name valid))

pub all_sequence_grants-eq-ok :
    (sequences : Sequences) (ts out : List Text)
    → all_sequence_grants sequences ts ≡ ok out
    → (out ≡ map grant_sequence (owned_by sequences ts))
      × (all matches_identifier (owned_by sequences ts) ≡ true)
unfolding all_sequence_grants
all_sequence_grants-eq-ok sequences [] out h = ground arith
all_sequence_grants-eq-ok sequences (t ∷ ts) out h =
    let (here, first, h1) =
      ok->>= (sequence_grants (owned sequences t))
        (λ (here : List Text).
          all_sequence_grants sequences ts >>= λ (rest : List Text). ok (here ++ rest))
        h in
    let (rest, made, h2) =
      ok->>= (all_sequence_grants sequences ts) (λ (rest : List Text). ok (here ++ rest)) h1 in
    let (e, fine) = sequence_grants-eq-ok (owned sequences t) here first in
    let (e', fine') = all_sequence_grants-eq-ok sequences ts rest made in
    let back : out ≡ here ++ rest = cc h2 in
    (
      rw (back, e, e', map-append) refl,
      all-append matches_identifier (owned sequences t) (owned_by sequences ts) fine fine',
    )

pub map-split-clickhouse :
    (cmds : Text) (known chosen : List Text)
    → contains cmds backquote ≡ false
    → all (grantable known) chosen ≡ true
    → map (split backquote) (map (grant_clickhouse cmds) chosen)
      ≡ map (clickhouse_pieces cmds) chosen
map-split-clickhouse cmds known [] p h = refl
map-split-clickhouse cmds known (t ∷ ts) p h = ground (
  arith,
  split-grant_clickhouse cmds t p,
  identifier-not-contains backquote t (unfold is_word in refl),
  map-split-clickhouse cmds known ts p,
)
