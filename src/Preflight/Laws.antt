-- ===== src/Preflight/Laws.antt =====
-- What a clean report means.
use vault_db_access.Prelude.{
  ◌≡◌, refl, ◌↔◌, true, false, ◌≤◌, Option, none, some, List, [], ◌∷◌, ◌++◌, all, length, Text,
  codes, has_part, lower, arith, or_else,
}
use vault_db_access.Preflight.{
  reported, Environ, required_secrets, min_length, Problem, is_safe_char, problem_of,
  secret_problems, admin_user, user_problems, problems,
}

-- A secret that can stand in a quoted SQL text and is long enough to be one.
pub record IsSecret (value : Text) : Type 0 where
  pub long : min_length ≤ length value
  pub plain : all is_safe_char value ≡ true
  pub own : has_part (codes "changeme") (lower value) ≡ false

problem_of-none : (name value : Text) → problem_of name value ≡ none → IsSecret value
unfolding problem_of
problem_of-none name [] h = cc
problem_of-none name (c ∷ s) h = ground arith

IsSecret-problem_of : (name value : Text) → IsSecret value → problem_of name value ≡ none
unfolding problem_of
IsSecret-problem_of name [] h = ground arith
IsSecret-problem_of name (c ∷ s) h = ground arith

-- Each of the variables holds a secret.
abbrev pub AllSecret : Environ → List Text → Type 0
AllSecret env [] = Unit
AllSecret env (name ∷ names) = IsSecret (or_else (env name) []) × AllSecret env names

-- The administrator has a name.
abbrev pub IsNamed : Option Text → Type 0
IsNamed none = ⊥
IsNamed (some []) = ⊥
IsNamed (some (c ∷ s)) = Unit

append-eq-nil : (ps qs : List Problem) → ps ++ qs ≡ [] → (ps ≡ []) × (qs ≡ [])
append-eq-nil [] qs h = (refl, h)
append-eq-nil (p ∷ ps) qs h = cc

reported-nil :
    (o : Option Problem) (ps : List Problem) → reported o ps ≡ [] → (o ≡ none) × (ps ≡ [])
reported-nil none ps h = (refl, h)
reported-nil (some p) ps h = cc

nil-reported : (o : Option Problem) (ps : List Problem) → o ≡ none → ps ≡ [] → reported o ps ≡ []
nil-reported none ps clear rest = rest
nil-reported (some p) ps clear rest = cc

secret_problems-nil :
    (env : Environ) (names : List Text) → secret_problems env names ≡ [] → AllSecret env names
unfolding secret_problems
secret_problems-nil env [] h = tt
secret_problems-nil env (name ∷ names) h =
    let (clear, rest) =
      reported-nil (problem_of name (or_else (env name) [])) (secret_problems env names) h in
    (problem_of-none name (or_else (env name) []) clear, secret_problems-nil env names rest)

AllSecret-secret_problems :
    (env : Environ) (names : List Text) → AllSecret env names → secret_problems env names ≡ []
unfolding secret_problems
AllSecret-secret_problems env [] h = refl
AllSecret-secret_problems env (name ∷ names) h =
    nil-reported (problem_of name (or_else (env name) [])) (secret_problems env names)
      (IsSecret-problem_of name (or_else (env name) []) h.0)
      (AllSecret-secret_problems env names h.1)

user_problems-nil : (o : Option Text) → (user_problems o ≡ []) ↔ IsNamed o
user_problems-nil none = (λ h. cc, λ h. absurd h)
user_problems-nil (some []) = (λ h. cc, λ h. absurd h)
user_problems-nil (some (c ∷ s)) = (λ h. tt, λ h. refl)

-- The stack starts exactly when each required secret is at least 16 characters of letters, digits,
-- `_` and `-` that do not contain the placeholder in any case, and the administrator has a name.
pub problems-nil_iff :
    (env : Environ)
    → (problems env ≡ []) ↔ (AllSecret env required_secrets × IsNamed (env admin_user))
unfolding problems
problems-nil_iff env = (
  λ h.
      let (secrets, user) =
        append-eq-nil (secret_problems env required_secrets) (user_problems (env admin_user)) h in
      (
        secret_problems-nil env required_secrets secrets,
        (user_problems-nil (env admin_user)).0 user,
      ),
  λ (secrets, user).
      rw (AllSecret-secret_problems env required_secrets secrets)
        ((user_problems-nil (env admin_user)).1 user),
)
