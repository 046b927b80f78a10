-- ===== src/Faults/Frames.antt =====
-- The hooks respect every frame.
use vault_db_access.Prelude.{List, eq_Text, Text, Exn, os_error}
use vault_db_access.Effects.{M, World, read_fault_file, unlink_fault_file, pure}
use vault_db_access.Effects.Frame.{
  Frame, Follows, Follows-pure, Follows-raise, Follows-die, Follows-asks, Follows-ask, Follows-bind,
  Follows-then, Follows-if, Follows-try_else,
}
use vault_db_access.Faults.{unless_os_error, armed_at, tamper, point, mutate_statements}

module _ {R : World → World → Type 0} where
  Follows-unless_os_error :
      {A : Type 0} (fr : Frame R) (m : M A) (e : Exn)
      → Follows R m
      → Follows R (unless_os_error m e)
  Follows-unless_os_error fr m os_error h = h
  Follows-unless_os_error fr m _ h = Follows-raise fr _

  Follows-armed_at : (fr : Frame R) (name armed : Text) → Follows R (armed_at name armed)
  Follows-armed_at fr name armed =
      Follows-if _ _ _ (Follows-then fr _ _ (Follows-ask fr unlink_fault_file) (Follows-die fr))
        (Follows-pure fr tt)

  pub Follows-point : (fr : Frame R) (name : Text) → Follows R (point name)
  unfolding point
  Follows-point fr name = Follows-bind fr _ _ (Follows-asks fr _) (λ hooks.
      Follows-if hooks _ _
        (Follows-try_else fr _ _ _ (Follows-ask fr read_fault_file)
          (λ e. Follows-unless_os_error fr (pure tt) e (Follows-pure fr tt))
          (Follows-armed_at fr name))
        (Follows-pure fr tt))

  Follows-tamper :
      (fr : Frame R) (creation : List Text) (armed : Text) → Follows R (tamper creation armed)
  Follows-tamper fr creation armed =
      Follows-if _ _ _ (Follows-then fr _ _ (Follows-ask fr unlink_fault_file) (Follows-pure fr _))
        (Follows-pure fr creation)

  pub Follows-mutate_statements :
      (fr : Frame R) (creation : List Text) → Follows R (mutate_statements creation)
  unfolding mutate_statements
  Follows-mutate_statements fr creation = Follows-bind fr _ _ (Follows-asks fr _) (λ hooks.
      Follows-if hooks _ _
        (Follows-try_else fr _ _ _
          (Follows-bind fr _ _ (Follows-ask fr read_fault_file) (Follows-tamper fr creation))
          (λ e. Follows-unless_os_error fr (pure creation) e (Follows-pure fr creation))
          (Follows-pure fr))
        (Follows-pure fr creation))
