-- ===== src/Statements/Pieces.antt =====
-- Single statements, read back: a fixed text around one quoted name.
use vault_db_access.Prelude.{
  ℕ, ◌≡◌, sym, ap, true, false, not, List, [], ◌∷◌, ◌++◌, eq_ℕ, eq_Text, all, contains, Text, codes,
  join, append_assoc,
}
use vault_db_access.Statements.Templates.{grant_table, grant_sequence, grant_clickhouse}
use vault_db_access.Statements.Quoting.{split, split-join, contains-append}

-- The pieces of `GRANT … ON TABLE "public"."t" TO "{{name}}";` at the double quotes.
abbrev pub table_pieces : Text → Text → List Text
table_pieces cmds t =
    (codes "GRANT " ++ (cmds ++ codes " ON TABLE "))
    ∷ codes "public"
    ∷ codes "."
    ∷ t
    ∷ codes " TO "
    ∷ codes "{{name}}"
    ∷ codes ";"
    ∷ []

abbrev pub sequence_pieces : Text → List Text
sequence_pieces seq =
    codes "GRANT USAGE ON SEQUENCE "
    ∷ codes "public"
    ∷ codes "."
    ∷ seq
    ∷ codes " TO "
    ∷ codes "{{name}}"
    ∷ codes ";"
    ∷ []

abbrev pub quote : ℕ
quote = 34

table_pieces_free :
    (cmds t : Text)
    → contains cmds quote ≡ false
    → contains t quote ≡ false
    → all (λ w. not (contains w quote)) (table_pieces cmds t) ≡ true
table_pieces_free cmds t p q = rw (contains-append cmds (codes " ON TABLE ") quote, p, q)

pub split-grant_table :
    (cmds t : Text)
    → contains cmds quote ≡ false
    → contains t quote ≡ false
    → split quote (grant_table cmds t) ≡ table_pieces cmds t
unfolding grant_table join
split-grant_table cmds t p q =
    let joined : grant_table cmds t ≡ join (quote ∷ []) (table_pieces cmds t) =
      ap (λ (x : Text). codes "GRANT " ++ x) (sym (append_assoc cmds (codes " ON TABLE ") _)) in
    rw joined (split-join quote _ _ (table_pieces_free cmds t p q))

pub split-grant_sequence :
    (seq : Text)
    → contains seq quote ≡ false
    → split quote (grant_sequence seq) ≡ sequence_pieces seq
unfolding grant_sequence join
split-grant_sequence seq q =
    split-join quote (codes "GRANT USAGE ON SEQUENCE ")
      (codes "public" ∷ codes "." ∷ seq ∷ codes " TO " ∷ codes "{{name}}" ∷ codes ";" ∷ []) (rw q)

-- The pieces of a ClickHouse grant at its back quotes.
abbrev pub backquote : ℕ
backquote = 96

abbrev pub clickhouse_pieces : Text → Text → List Text
clickhouse_pieces cmds t =
    (codes "GRANT " ++ (cmds ++ codes " ON "))
    ∷ codes "appdb"
    ∷ codes "."
    ∷ t
    ∷ codes " TO '{{name}}';"
    ∷ []

pub split-grant_clickhouse :
    (cmds t : Text)
    → contains cmds backquote ≡ false
    → contains t backquote ≡ false
    → split backquote (grant_clickhouse cmds t) ≡ clickhouse_pieces cmds t
unfolding grant_clickhouse join
split-grant_clickhouse cmds t p q =
    let joined : grant_clickhouse cmds t ≡ join (backquote ∷ []) (clickhouse_pieces cmds t) =
      ap (λ (x : Text). codes "GRANT " ++ x) (sym (append_assoc cmds (codes " ON ") _)) in
    rw joined (split-join backquote _ _ (rw (contains-append cmds (codes " ON ") backquote, p, q)))
