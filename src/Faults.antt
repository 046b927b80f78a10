-- ===== src/Faults.antt =====
-- middleware/app/faults.py: the hooks of the tests, which do nothing unless they are switched on.
pub mod Frames
pub mod Halts
use vault_db_access.Prelude.{
  Bool, true, false, List, [], ◌∷◌, ◌++◌, ◌==◌, eq_Text, if◌then◌else◌, Text, codes, Exn, os_error,
}
use vault_db_access.Models.{strip}
use vault_db_access.Effects.{
  M, Env, Call, read_fault_file, unlink_fault_file, ask, asks, pure, raise, die, try_else, ◌>>=◌,
  ◌>>◌,
}

-- `except OSError`
abbrev unless_os_error : {A : Type 0} → M A → Exn → M A
unless_os_error m os_error = m
unless_os_error m e = raise e

-- `os._exit(137)` ends the process at once.
abbrev armed_at : Text → Text → M (Unit {0})
armed_at name armed = if strip armed == name then (do ask unlink_fault_file; die) else pure tt

unfoldable pub point : Text → M (Unit {0})
point name = do
  hooks ← asks (λ env. env.config.test_hooks)
  if hooks
      then (try_else (ask read_fault_file) (unless_os_error (pure tt)) (armed_at name))
      else pure tt

abbrev pub bogus_statement : Text
bogus_statement = codes "GRANT BOGUS PRIVILEGE ON nothing TO '{{name}}';"

abbrev tamper : List Text → Text → M (List Text)
tamper creation armed =
    if strip armed == codes "bad_statement"
    then (do ask unlink_fault_file; pure (creation ++ (bogus_statement ∷ [])))
    else pure creation

unfoldable pub mutate_statements : List Text → M (List Text)
mutate_statements creation = do
  hooks ← asks (λ env. env.config.test_hooks)
  if hooks
      then (try_else (do armed ← ask read_fault_file; tamper creation armed)
          (unless_os_error (pure creation)) pure)
      else pure creation
