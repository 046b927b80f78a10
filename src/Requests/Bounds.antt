-- ===== src/Requests/Bounds.antt =====
-- What a validated request is bounded by.
use vault_db_access.Prelude.{
  ℕ, ◌≡◌, refl, ◌≤◌, Bool, true, false, Text, all, length, arith, ok, err, Result, ok-chain,
}
use mathlib.Core.Path.{subst}
use vault_db_access.Models.{DbType, Scope, GrantRequest, is_printable, clean, clean-ok}
use vault_db_access.Requests.{
  RawRequest, read_db_type, read_scope, require, within, validated, model_validate,
}

-- Within the limits of the model's fields, and the same request.
pub record IsBounded (raw : RawRequest) (req : GrantRequest) : Type 0 where
  pub no_more_fields : length raw.extra ≡ 0
  pub tables_kept : req.table_names ≡ raw.table_names
  pub tables_at_most : length req.table_names ≤ 200
  pub commands_kept : req.commands ≡ raw.commands
  pub some_command : 1 ≤ length req.commands
  pub commands_at_most : length req.commands ≤ 8
  pub ttl_kept : req.ttl_seconds ≡ raw.ttl_seconds
  pub named : 1 ≤ length req.requested_for
  pub name_at_most : length req.requested_for ≤ 120
  pub printable : all is_printable req.requested_for ≡ true

require-ok : (b : Bool) (u : Unit {0}) → require b ≡ ok u → b ≡ true
require-ok true u h = refl
require-ok false u h = cc

within-bounds : (lo hi n : ℕ) → within lo hi n ≡ true → (lo ≤ n) × (n ≤ hi)
within-bounds lo hi n h = ground (arith, h)

required : (lo hi n : ℕ) (u : Unit {0}) → require (within lo hi n) ≡ ok u → (lo ≤ n) × (n ≤ hi)
required lo hi n u h = within-bounds lo hi n (require-ok _ u h)

validated-ok : (r : Result Text) (t : Text) → validated r ≡ ok t → r ≡ ok t
validated-ok (ok s) t h = h
validated-ok (err e) t h = cc

bounded :
    (raw : RawRequest) (db : DbType) (sc : Scope) (name : Text) (req : GrantRequest)
    {u1 u2 u3 u4 : Unit {0}}
    → require (within 0 0 (length raw.extra)) ≡ ok u1
    → require (within 0 200 (length raw.table_names)) ≡ ok u2
    → require (within 1 8 (length raw.commands)) ≡ ok u3
    → require (within 1 120 (length raw.requested_for)) ≡ ok u4
    → validated (clean raw.requested_for) ≡ ok name
    → ok (record {
      db_type = db;
      scope = sc;
      table_names = raw.table_names;
      commands = raw.commands;
      ttl_seconds = raw.ttl_seconds;
      requested_for = name;
    })
      ≡ ok req
    → IsBounded raw req
bounded raw db sc name req no_extra few_tables few_commands short cleaned h =
    let (named, shorter, printable) =
      clean-ok raw.requested_for name (validated-ok _ name cleaned) in
    subst (IsBounded raw) (the_request h) (record {
      no_more_fields = ground (arith, required 0 0 (length raw.extra) _ no_extra);
      tables_kept = refl;
      tables_at_most = (required 0 200 (length raw.table_names) _ few_tables).1;
      commands_kept = refl;
      some_command = (required 1 8 (length raw.commands) _ few_commands).0;
      commands_at_most = (required 1 8 (length raw.commands) _ few_commands).1;
      ttl_kept = refl;
      named = named;
      name_at_most = ground (arith, shorter, required 1 120 (length raw.requested_for) _ short);
      printable = printable;
    })
  where
    the_request : {x y : GrantRequest} → ok x ≡ ok y → x ≡ y
    the_request e = cc e

-- When `model_validate` accepts a request, then it has no unknown field, at most 200 tables, one to eight
-- commands and a name of 1 to 120 printable characters, and its tables, commands and lifetime are
-- those that were sent.
pub model_validate-IsBounded :
    (raw : RawRequest) (req : GrantRequest) → model_validate raw ≡ ok req → IsBounded raw req
unfolding model_validate
model_validate-IsBounded raw = ok-chain (require (within 0 0 (length raw.extra))) _ (λ u1 no_extra.
    ok-chain (read_db_type raw.db_type) _ (λ db is_db.
      ok-chain (read_scope raw.scope) _ (λ sc is_scope.
        ok-chain (require (within 0 200 (length raw.table_names))) _ (λ u2 few_tables.
          ok-chain (require (within 1 8 (length raw.commands))) _ (λ u3 few_commands.
            ok-chain (require (within 1 120 (length raw.requested_for))) _ (λ u4 short.
              ok-chain (validated (clean raw.requested_for)) _ (λ name cleaned req h.
                bounded raw db sc name req no_extra few_tables few_commands short cleaned h)))))))
