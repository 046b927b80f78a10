-- ===== src/Requests.antt =====
-- How middleware/app/models.py and the form of main.py come to a `GrantRequest`.
use vault_db_access.Prelude.{
  ℕ, ◌+◌, ◌-◌, ◌*◌, Bool, true, false, not, ◌&&◌, Option, none, some, List, [], ◌∷◌, ◌==◌, eq_ℕ,
  eq_Text, leb, if◌then◌else◌, length, Text, codes, is_digit, value_error, invalid_model,
  invalid_int, Result, ok, err, lookup_last, lookup_all, or_else, ◌>>=◌, ◌>>◌,
}
use mathlib.Core.Option
use vault_db_access.Prelude.Int.{ℤ, pos, negate}
use vault_db_access.Models.{
  DbType, postgres, clickhouse, Scope, database, tables, GrantRequest, strip, clean,
}
pub mod Bounds

-- A request before it is validated: what the JSON body or the form gives for each field, and the names
-- of further fields. Values of another type than the field's are refused before that by pydantic.
pub record RawRequest : Type 0 where
  pub db_type : Option Text
  pub scope : Option Text
  pub table_names : List Text
  pub commands : List Text
  pub ttl_seconds : ℤ
  pub requested_for : Text
  pub extra : List Text

unfoldable pub read_db_type : Option Text → Result DbType
read_db_type none = err invalid_model
read_db_type (some t) =
    if t == codes "postgres"
    then ok postgres
    else if t == codes "clickhouse"
    then ok clickhouse
    else err invalid_model

unfoldable pub read_scope : Option Text → Result Scope
read_scope none = err invalid_model
read_scope (some t) =
    if t == codes "database"
    then ok database
    else if t == codes "tables"
    then ok tables
    else err invalid_model

abbrev pub require : Bool → Result (Unit {0})
require true = ok tt
require false = err invalid_model

-- A validator's `ValueError` becomes the `ValidationError` of the model.
abbrev pub validated : Result Text → Result Text
validated (ok t) = ok t
validated (err e) = err invalid_model

abbrev pub within : ℕ → ℕ → ℕ → Bool
within lo hi n = leb lo n && leb n hi

-- `GrantRequest.model_validate`
unfoldable pub model_validate : RawRequest → Result GrantRequest
unfolding read_db_type read_scope clean
model_validate raw = do
  require (within 0 0 (length raw.extra))
  db ← read_db_type raw.db_type
  sc ← read_scope raw.scope
  require (within 0 200 (length raw.table_names))
  require (within 1 8 (length raw.commands))
  require (within 1 120 (length raw.requested_for))
  name ← validated (clean raw.requested_for)
  ok (record {
    db_type = db;
    scope = sc;
    table_names = raw.table_names;
    commands = raw.commands;
    ttl_seconds = raw.ttl_seconds;
    requested_for = name;
  })

-- `int` of a text, in ASCII digits: a sign, and digits with single underscores between them. (Python
-- takes other decimal digits of Unicode too, and refuses more than 4300 of them.)
unfoldable pub read_digits : ℕ → Text → Option ℕ
read_digits acc [] = some acc
read_digits acc (c ∷ []) = if is_digit c then some (10 * acc + (c - b'0')) else none
read_digits acc (c ∷ d ∷ s) =
    let next = read_digits (10 * acc + (c - b'0')) (d ∷ s) in
    let skip = read_digits (10 * acc + (c - b'0')) s in
    if not (is_digit c)
    then none
    else (if d == b'_' then (elim s [ [] ↦ none | e ∷ t ↦ skip ]) else next)

abbrev non_empty_digits : Text → Option ℕ
non_empty_digits [] = none
non_empty_digits (c ∷ s) = read_digits 0 (c ∷ s)

abbrev signed : Text → Option ℤ
signed [] = none
signed (c ∷ s) =
    if c == b'-'
    then Option.map negate (non_empty_digits s)
    else if c == b'+'
    then Option.map pos (non_empty_digits s)
    else Option.map pos (non_empty_digits (c ∷ s))

unfoldable pub parse_int : Text → Result ℤ
unfolding strip read_digits
parse_int t = elim (signed (strip t)) [ none ↦ err (value_error (invalid_int t)) | some n ↦ ok n ]

-- The fields of the form, as they are given to `model_validate`.
unfoldable pub form_request : List (Text × Text) → Result GrantRequest
unfolding parse_int model_validate lookup_last lookup_all
form_request form = do
  ttl ← parse_int (strip (or_else (lookup_last (codes "ttl_seconds") form) []))
  model_validate (record {
    db_type = lookup_last (codes "db_type") form;
    scope = lookup_last (codes "scope") form;
    table_names = lookup_all (codes "tables") form;
    commands = lookup_all (codes "commands") form;
    ttl_seconds = ttl;
    requested_for = or_else (lookup_last (codes "requested_for") form) [];
    extra = [];
  })
