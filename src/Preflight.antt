-- ===== src/Preflight.antt =====
-- middleware/app/preflight.py
use vault_db_access.Prelude.{
  ℕ, Bool, true, false, not, ◌&&◌, ◌||◌, Option, none, some, List, [], ◌∷◌, ◌++◌, ◌==◌, eq_ℕ,
  eq_Text, leb, ltb, if◌then◌else◌, all, contains, length, Text, codes, has_part, lower, is_digit,
  or_else,
}
pub mod Laws

-- `os.environ`
abbrev pub Environ : Type 0
Environ = Text → Option Text

-- `REQUIRED_SECRETS`
abbrev pub required_secrets : List Text
required_secrets =
    codes "POSTGRES_ADMIN_PASSWORD"
    ∷ codes "PG_MANAGER_PASSWORD"
    ∷ codes "PG_INTROSPECT_PASSWORD"
    ∷ codes "CLICKHOUSE_ADMIN_PASSWORD"
    ∷ codes "CLICKHOUSE_MANAGER_PASSWORD"
    ∷ codes "CLICKHOUSE_INTROSPECT_PASSWORD"
    ∷ codes "VDBA_ADMIN_PASSWORD"
    ∷ []

-- `MIN_LENGTH`
abbrev pub min_length : ℕ
min_length = 16

-- The lines of the report, by the variable that they name.
pub data Problem : Type 0 where
  is_empty placeholder unsafe_characters too_short : Text → Problem

-- `[A-Za-z0-9_-]`
abbrev pub is_safe_char : ℕ → Bool
is_safe_char c =
    (leb b'A' c && leb c b'Z')
    || (leb b'a' c && leb c b'z')
    || is_digit c
    || (c == b'_')
    || (c == b'-')

-- The tests of one value, in their order.
unfoldable pub problem_of : Text → Text → Option Problem
problem_of name [] = some (is_empty name)
problem_of name (c ∷ s) =
    if has_part (codes "changeme") (lower (c ∷ s))
    then some (placeholder name)
    else (if not (all is_safe_char (c ∷ s))
        then some (unsafe_characters name)
        else (if ltb (length (c ∷ s)) min_length then some (too_short name) else none))

-- A line for a value that has one.
abbrev pub reported : Option Problem → List Problem → List Problem
reported none rest = rest
reported (some p) rest = p ∷ rest

unfoldable pub secret_problems : Environ → List Text → List Problem
unfolding problem_of
secret_problems env [] = []
secret_problems env (name ∷ names) =
    reported (problem_of name (or_else (env name) [])) (secret_problems env names)

abbrev pub admin_user : Text
admin_user = codes "VDBA_ADMIN_USER"

abbrev pub user_problems : Option Text → List Problem
user_problems none = is_empty admin_user ∷ []
user_problems (some []) = is_empty admin_user ∷ []
user_problems (some (c ∷ s)) = []

unfoldable pub problems : Environ → List Problem
unfolding secret_problems
problems env = secret_problems env required_secrets ++ user_problems (env admin_user)
