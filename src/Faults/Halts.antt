-- ===== src/Faults/Halts.antt =====
-- The hooks end.
use vault_db_access.Prelude.{List, Text, Exn, os_error}
use vault_db_access.Effects.{M, Env, read_fault_file, unlink_fault_file, pure}
use vault_db_access.Effects.Halts.{
  RunsOn, Halts, Halts-pure, Halts-raise, Halts-die, Halts-asks, Halts-ask, Halts-bind, Halts-then,
  Halts-if, Halts-try_else,
}
use vault_db_access.Faults.{unless_os_error, point, mutate_statements}

module _ {env : Env} (on : RunsOn env) where
  Halts-unless_os_error :
      {A : Type 0} (m : M A) (e : Exn) → Halts env m → Halts env (unless_os_error m e)
  Halts-unless_os_error m os_error h = h
  Halts-unless_os_error m _ h = Halts-raise _

  pub Halts-point : (name : Text) → Halts env (point name)
  unfolding point
  Halts-point name = Halts-bind _ _ (Halts-asks _) (λ hooks.
      Halts-if hooks _ _
        (Halts-try_else _ _ _ (Halts-ask on read_fault_file)
          (λ e. Halts-unless_os_error (pure tt) e (Halts-pure tt))
          (λ armed.
            Halts-if _ _ _ (Halts-then _ _ (Halts-ask on unlink_fault_file) Halts-die)
              (Halts-pure tt)))
        (Halts-pure tt))

  pub Halts-mutate_statements : (creation : List Text) → Halts env (mutate_statements creation)
  unfolding mutate_statements
  Halts-mutate_statements creation = Halts-bind _ _ (Halts-asks _) (λ hooks.
      Halts-if hooks _ _
        (Halts-try_else _ _ _
          (Halts-bind _ _ (Halts-ask on read_fault_file) (λ armed.
            Halts-if _ _ _ (Halts-then _ _ (Halts-ask on unlink_fault_file) (Halts-pure _))
              (Halts-pure creation)))
          (λ e. Halts-unless_os_error (pure creation) e (Halts-pure creation)) Halts-pure)
        (Halts-pure creation))
