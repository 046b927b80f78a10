-- ===== src/Statements/Maintenance.antt =====
-- The statements that are run as the database manager through Vault.
use Prim.Native.String.{String}
use vault_db_access.Prelude.{
  ℕ, Bool, ◌&&◌, ◌||◌, List, [], ◌∷◌, ◌++◌, ◌==◌, eq_ℕ, eq_Text, leb, if◌then◌else◌, length, all,
  take, Text, codes, value_error, invalid_account, Result, ok, err, ◌>>◌,
}
use vault_db_access.Prelude.{drop}
use vault_db_access.Models.{DbType, postgres, clickhouse}

-- `[0-9a-f]` and `[a-z0-9]`
unfoldable pub is_hex : ℕ → Bool
is_hex c = (leb b'0' c && leb c b'9') || (leb b'a' c && leb c b'f')

unfoldable pub is_suffix_char : ℕ → Bool
is_suffix_char c = (leb b'a' c && leb c b'z') || (leb b'0' c && leb c b'9')

-- `vdba_[0-9a-f]{10}`, which is also the pattern `GRANT_ID` of main.py.
unfoldable pub matches_grant_id : Text → Bool
unfolding is_hex
matches_grant_id s = take 5 s == codes "vdba_" && length s == 15 && all is_hex (drop 5 s)

-- `ACCOUNT_RE.fullmatch(name)`: a grant id, `_`, and six of `[a-z0-9]`.
unfoldable pub matches_account : Text → Bool
unfolding matches_grant_id is_suffix_char
matches_account name =
    length name == 22
    && matches_grant_id (take 15 name)
    && take 1 (drop 15 name) == codes "_"
    && all is_suffix_char (drop 16 name)

unfoldable pub valid_account : Text → Result Text
unfolding matches_account
valid_account name =
    if matches_account name then ok name else err (value_error (invalid_account name))

unfoldable pub quoted_call : String → Text → String → Text
quoted_call before account after = codes before ++ (account ++ codes after)

unfoldable pub lockout_statements : DbType → Text → Result (List Text)
unfolding valid_account quoted_call
lockout_statements postgres account = do
  valid_account account
  ok (quoted_call "SELECT vdba.lockout_role('" account "');" ∷ [])
lockout_statements clickhouse account = do valid_account account; ok []

unfoldable pub terminate_statements : DbType → Text → Result (List Text)
unfolding valid_account quoted_call
terminate_statements postgres account = do
  valid_account account
  ok (
      quoted_call "SELECT pg_terminate_backend(pid) FROM pg_stat_activity WHERE usename = '" account
        "';"
      ∷ [])
terminate_statements clickhouse account = do
  valid_account account
  ok (quoted_call "KILL QUERY WHERE user = '" account "' SYNC;" ∷ [])

unfoldable pub drop_statements : DbType → Text → Result (List Text)
unfolding valid_account quoted_call
drop_statements postgres account = do
  valid_account account
  ok (quoted_call "SELECT vdba.cleanup_role('" account "');" ∷ [])
drop_statements clickhouse account = do
  valid_account account
  ok (
      quoted_call "KILL QUERY WHERE user = '" account "' SYNC;"
      ∷ quoted_call "DROP USER IF EXISTS '" account "';"
      ∷ [])
