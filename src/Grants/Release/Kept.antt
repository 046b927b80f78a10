-- ===== src/Grants/Release/Kept.antt =====
-- What runs between taking a lock and giving it back does not touch the locks, the slots or the set
-- of grants in flight.
use vault_db_access.Prelude.{
  ◌≡◌, refl, ◌∙◌, Bool, Option, none, some, List, Text, Exn, integrity_error,
}
use vault_db_access.Models.{Status, GrantRequest}
use vault_db_access.Rows.{Grant, Field}
use vault_db_access.Effects.{World, M, modify, raise}
use vault_db_access.Effects.Frame.{
  Frame, Follows, Follows-pure, Follows-raise, Follows-gets, Follows-time, Follows-bind,
  Follows-then, Follows-if, Follows-try_else,
}
use vault_db_access.Store.{update_grant, audit, get_grant, insert_grant, NewGrant, with_grants}
use vault_db_access.Vault.Frames.{
  Follows-write_role, Follows-create_grant_token, Follows-read_credentials,
}
use vault_db_access.Faults.Frames.{Follows-point}
use vault_db_access.Grants.Teardown.{teardown, teardown_row, teardown_failed, teardown_done}
use vault_db_access.Grants.Frames.{Follows-teardown_steps}
use vault_db_access.Grants.Issue.{issue_steps, issue_failed, issue_logged, public_row, revoke_steps}
use vault_db_access.Grants.Reconcile.{finish_as, finish_fresh}

abbrev pub KeepsGuards : World → World → Type 0
KeepsGuards w w' = w'.guards ≡ w.guards

abbrev pub Kept : {A : Type 0} → M A → Type 0
Kept m = Follows KeepsGuards m

pub Kept-frame : Frame KeepsGuards
Kept-frame = record {
  stay = λ w. refl;
  chain = λ u v w a b. b ∙ a;
  asked = λ c w. refl;
  served = λ s w. refl;
}

pub modify-Kept : (f : World → World) → ((w : World) → (f w).guards ≡ w.guards) → Kept (modify f)
unfolding modify
modify-Kept f same = record { at = λ env w. same w }

pub update_grant-Kept : (i : Text) (fs : List Field) → Kept (update_grant i fs)
unfolding update_grant
update_grant-Kept i fs =
    Follows-bind Kept-frame _ _ (Follows-time Kept-frame) (λ now. modify-Kept _ (λ w. refl))

pub audit-Kept :
    (request_id grant_id : Option Text) (actor action result detail : Text)
    → Kept (audit request_id grant_id actor action result detail)
unfolding audit
audit-Kept request_id grant_id actor action result detail =
    Follows-bind Kept-frame _ _ (Follows-time Kept-frame) (λ now. modify-Kept _ (λ w. refl))

pub get_grant-Kept : (i : Text) → Kept (get_grant i)
unfolding get_grant
get_grant-Kept i = Follows-gets Kept-frame _

insert_grant-Kept : (n : NewGrant) → Kept (insert_grant n)
unfolding insert_grant
insert_grant-Kept n =
    Follows-bind Kept-frame _ _ (Follows-time Kept-frame)
      (λ now. Follows-bind Kept-frame _ _ (Follows-gets Kept-frame _) by_result)
  where
    by_result :
        (o : Option (List Grant))
        → Kept {A = Unit {0}}
            (elim o [ none ↦ raise integrity_error | some gs ↦ modify (with_grants gs) ])
    by_result none = Follows-raise Kept-frame _
    by_result (some gs) = modify-Kept _ (λ w. refl)

teardown_failed-Kept :
    (i : Text) (request_id : Option Text) (actor : Text) (raise_errors : Bool) (e : Exn)
    → Kept (teardown_failed i request_id actor raise_errors e)
unfolding teardown_failed
teardown_failed-Kept i request_id actor raise_errors e =
    let fr = Kept-frame in
    Follows-if _ _ _
      (Follows-then fr _ _ (update_grant-Kept i _) (
        Follows-then fr _ _ (audit-Kept _ _ _ _ _ _)
          (Follows-if _ _ _ (Follows-raise fr e) (Follows-pure fr tt))))
      (Follows-raise fr e)

teardown_row-Kept :
    (o : Option Grant) (i : Text) (final : Status) (request_id : Option Text) (actor : Text)
    (raise_errors : Bool)
    → Kept (teardown_row o i final request_id actor raise_errors)
unfolding teardown_row teardown_done
teardown_row-Kept none i final request_id actor raise_errors = Follows-pure Kept-frame tt
teardown_row-Kept (some g) i final request_id actor raise_errors =
    let fr = Kept-frame in
    Follows-try_else fr _ _ _ (Follows-teardown_steps fr i g)
      (teardown_failed-Kept i request_id actor raise_errors)
      (λ _. Follows-then fr _ _ (update_grant-Kept i _) (audit-Kept _ _ _ _ _ _))

pub teardown-Kept :
    (i : Text) (final : Status) (request_id : Option Text) (actor : Text) (raise_errors : Bool)
    → Kept (teardown i final request_id actor raise_errors)
unfolding teardown
teardown-Kept i final request_id actor raise_errors =
    Follows-bind Kept-frame _ _ (get_grant-Kept i)
      (λ o. teardown_row-Kept o i final request_id actor raise_errors)

pub finish_fresh-Kept : (i : Text) (o : Option Grant) → Kept (finish_fresh i o)
unfolding finish_fresh
finish_fresh-Kept i none = Follows-pure Kept-frame tt
finish_fresh-Kept i (some g) =
    Follows-bind Kept-frame _ _ (Follows-time Kept-frame) (λ now. by_final _)
  where
    by_final : (o : Option Status) → Kept (finish_as i o)
    by_final none = Follows-pure Kept-frame tt
    by_final (some final) = teardown-Kept i final none _ _

pub public_row-Kept : (o : Option Grant) → Kept (public_row o)
unfolding public_row
public_row-Kept none = Follows-raise Kept-frame _
public_row-Kept (some g) = Follows-pure Kept-frame _

pub revoke_steps-Kept : (i actor request_id : Text) → Kept (revoke_steps i actor request_id)
unfolding revoke_steps
revoke_steps-Kept i actor request_id =
    let fr = Kept-frame in
    Follows-then fr _ _ (update_grant-Kept i _)
      (Follows-then fr _ _ (audit-Kept _ _ _ _ _ _) (teardown-Kept i _ _ actor _))

issue_steps-Kept :
    (req : GrantRequest) (i : Text) (creation revocation : List Text)
    → Kept (issue_steps req i creation revocation)
unfolding issue_steps
issue_steps-Kept req i creation revocation =
    let fr = Kept-frame in
    Follows-then fr _ _ (Follows-write_role fr i req.db_type creation revocation req.ttl_seconds) (
      Follows-then fr _ _ (Follows-point fr _) (
        Follows-bind fr _ _ (Follows-create_grant_token fr req.ttl_seconds i) (λ made.
          Follows-then fr _ _ (Follows-point fr _) (
            Follows-then fr _ _ (update_grant-Kept i _) (
              Follows-bind fr _ _ (Follows-read_credentials fr made.0 i) (λ creds.
                Follows-then fr _ _ (Follows-point fr _) (
                  Follows-bind fr _ _ (Follows-time fr) (λ now.
                    Follows-then fr _ _ (update_grant-Kept i _) (Follows-pure fr creds)))))))))

issue_failed-Kept : (i actor request_id : Text) (e : Exn) → Kept (issue_failed i actor request_id e)
unfolding issue_failed
issue_failed-Kept i actor request_id e =
    Follows-then Kept-frame _ _ (audit-Kept _ _ _ _ _ _) (teardown-Kept i _ _ _ _)

pub issue_logged-Kept :
    (req : GrantRequest) (actor request_id i : Text) (creation revocation : List Text)
    → Kept (issue_logged req actor request_id i creation revocation)
unfolding issue_logged
issue_logged-Kept req actor request_id i creation revocation =
    let fr = Kept-frame in
    Follows-then fr _ _ (insert_grant-Kept _) (
      Follows-bind fr _ _
        (Follows-try_else fr _ _ _ (issue_steps-Kept req i creation revocation)
          (λ e. Follows-then fr _ _ (issue_failed-Kept i actor request_id e) (Follows-raise fr e))
          (Follows-pure fr))
        (λ creds. Follows-then fr _ _ (audit-Kept _ _ _ _ _ _) (Follows-pure fr creds)))
