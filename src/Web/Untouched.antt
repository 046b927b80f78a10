-- ===== src/Web/Untouched.antt =====
-- What main.py does before and beside its routes leaves the rows of `grants` alone.
use vault_db_access.Vault.{revoke_token_quietly}
use vault_db_access.Prelude.{
  ◌≡◌, refl, Bool, true, false, Option, none, some, List, [], ◌∷◌, Text, Exn, zero, suc, ℕ,
}
use vault_db_access.Rows.{Session}
use vault_db_access.Effects.{
  try_catch, asks, M, World, Env, token_urlsafe, modify, ◌>>=◌, ◌>>◌, raise,
}
use vault_db_access.Effects.Frame.{
  Follows, Follows-pure, Follows-raise, Follows-lift, Follows-gets, Follows-asks, Follows-if,
  Follows-ask, Follows-time, Follows-bind, Follows-then, Follows-try_catch, Follows-finally,
}
use vault_db_access.Store.{
  audit, hash, get_session, delete_session, touch_session, create_session, keep_session,
}
use vault_db_access.Vault.Frames.{
  Follows-user_policies, Follows-token_policies, Follows-revoke_token_quietly,
}
use vault_db_access.Grants.{admit, take_slot, release, Kind}
use vault_db_access.Grants.Lifecycle.Relation.{
  Lives-same, Lives-frame, Lives, SameGrants, SameGrants-frame,
}
use vault_db_access.Grants.Lifecycle.Rows.{audit-SameGrants}
use vault_db_access.Web.Http.{Request}
use vault_db_access.Web.Sessions.{
  or_503, revalidate, drop_session, end_session, recheck, session_of, session_by, current_session,
  check_csrf, admin_of, require_admin,
}

-- The audit log is another table.
pub audit-Untouched :
    (request_id grant_id : Option Text) (actor action result detail : Text)
    → Follows SameGrants (audit request_id grant_id actor action result detail)
audit-Untouched request_id grant_id actor action result detail = record {
  at = audit-SameGrants request_id grant_id actor action result detail;
}

-- A change of another table or of the guards.
pub modify-SameGrants :
    (f : World → World)
    → ((w : World) → (f w).db.grants ≡ w.db.grants)
    → Follows SameGrants (modify f)
unfolding modify
modify-SameGrants f same = record { at = λ env w. same w }

pub bind-SameGrants :
    {A B : Type 0} (m : M A) (f : A → M B)
    → Follows SameGrants m
    → ((a : A) → Follows SameGrants (f a))
    → Follows SameGrants (m >>= f)
bind-SameGrants = Follows-bind SameGrants-frame

pub then-SameGrants :
    {A B : Type 0} (m : M A) (k : M B)
    → Follows SameGrants m
    → Follows SameGrants k
    → Follows SameGrants (m >> k)
then-SameGrants = Follows-then SameGrants-frame

pub asks-SameGrants : {A : Type 0} (f : Env → A) → Follows SameGrants (asks f)
asks-SameGrants = Follows-asks SameGrants-frame

pub get_session-SameGrants : (sid : Text) → Follows SameGrants (get_session sid)
unfolding get_session hash
get_session-SameGrants sid =
    bind-SameGrants _ _ (asks-SameGrants _) (λ key. Follows-gets SameGrants-frame _)

pub delete_session-SameGrants : (sid : Text) → Follows SameGrants (delete_session sid)
unfolding delete_session hash
delete_session-SameGrants sid =
    bind-SameGrants _ _ (asks-SameGrants _) (λ key. modify-SameGrants _ (λ w. refl))

touch_session-SameGrants :
    (sid : Text) (checked : Bool) → Follows SameGrants (touch_session sid checked)
unfolding touch_session hash
touch_session-SameGrants sid checked =
    bind-SameGrants _ _ (Follows-time SameGrants-frame)
      (λ now. bind-SameGrants _ _ (asks-SameGrants _) (λ key. modify-SameGrants _ (λ w. refl)))

keep_session-SameGrants : (o : Option (List Session)) → Follows SameGrants (keep_session o)
keep_session-SameGrants none = Follows-raise SameGrants-frame _
keep_session-SameGrants (some ss) = modify-SameGrants _ (λ w. refl)

pub create_session-SameGrants :
    (username token : Text) → Follows SameGrants (create_session username token)
unfolding create_session hash
create_session-SameGrants username token =
    bind-SameGrants _ _ (Follows-ask SameGrants-frame (token_urlsafe 32)) (λ sid.
      bind-SameGrants _ _ (Follows-ask SameGrants-frame (token_urlsafe 32)) (λ csrf.
        bind-SameGrants _ _ (Follows-time SameGrants-frame) (λ now.
          bind-SameGrants _ _ (asks-SameGrants _) (λ key.
            bind-SameGrants _ _ (Follows-gets SameGrants-frame _) (λ o.
              then-SameGrants _ _ (keep_session-SameGrants o) (Follows-pure SameGrants-frame _))))))

take_slot-SameGrants : (kind : Kind) (n : ℕ) → Follows SameGrants (take_slot kind n)
take_slot-SameGrants kind zero = Follows-raise SameGrants-frame _
take_slot-SameGrants kind (suc n) = modify-SameGrants _ (λ w. refl)

pub admit-SameGrants :
    {A : Type 0} (kind : Kind) (m : M A) → Follows SameGrants m → Follows SameGrants (admit kind m)
unfolding admit release
admit-SameGrants kind m h = bind-SameGrants _ _ (Follows-gets SameGrants-frame _) (λ n.
    then-SameGrants _ _ (take_slot-SameGrants kind n)
      (Follows-finally SameGrants-frame m _ h (modify-SameGrants _ (λ w. refl))))

-- A `try` whose handler only raises.
pub renamed-SameGrants :
    {A : Type 0} (m : M A) (f : Exn → Exn)
    → Follows SameGrants m
    → Follows SameGrants (try_catch m (λ e. raise (f e)))
renamed-SameGrants m f h =
    Follows-try_catch SameGrants-frame m _ h (λ e. Follows-raise SameGrants-frame (f e))

pub or_503-SameGrants :
    {A : Type 0} (m : M A) → Follows SameGrants m → Follows SameGrants (or_503 m)
unfolding or_503
or_503-SameGrants m h = renamed-SameGrants m _ h

pub revoke_token-SameGrants : (token : Text) → Follows SameGrants (revoke_token_quietly token)
revoke_token-SameGrants = Follows-revoke_token_quietly SameGrants-frame

recheck-SameGrants : (sid : Text) (s : Session) → Follows SameGrants (recheck sid s)
unfolding recheck revalidate end_session
recheck-SameGrants sid s =
    bind-SameGrants _ _
      (or_503-SameGrants _ (
        admit-SameGrants _ _ (
          bind-SameGrants _ _ (Follows-user_policies SameGrants-frame s.username) (λ current.
            bind-SameGrants _ _ (Follows-token_policies SameGrants-frame s.vault_token)
              (λ alive. Follows-pure SameGrants-frame _)))))
      (λ p.
        Follows-if _ _ _
          (then-SameGrants _ _ (touch_session-SameGrants sid true)
            (Follows-pure SameGrants-frame _))
          (then-SameGrants _ _ (delete_session-SameGrants sid) (
            then-SameGrants _ _ (revoke_token-SameGrants s.vault_token) (
              then-SameGrants _ _ (audit-Untouched _ _ _ _ _ _)
                (Follows-pure SameGrants-frame _)))))

session_of-SameGrants : (sid : Text) (o : Option Session) → Follows SameGrants (session_of sid o)
unfolding session_of drop_session
session_of-SameGrants sid none = Follows-pure SameGrants-frame none
session_of-SameGrants sid (some s) = bind-SameGrants _ _ (Follows-time SameGrants-frame) (λ now.
    bind-SameGrants _ _ (asks-SameGrants _) (λ config.
      Follows-if _ _ _
        (then-SameGrants _ _ (delete_session-SameGrants sid) (
          then-SameGrants _ _ (revoke_token-SameGrants s.vault_token)
            (Follows-pure SameGrants-frame none)))
        (Follows-if _ _ _ (recheck-SameGrants sid s) (
          then-SameGrants _ _ (touch_session-SameGrants sid false)
            (Follows-pure SameGrants-frame _)))))

session_by-SameGrants : (o : Option Text) → Follows SameGrants (session_by o)
unfolding session_by
session_by-SameGrants none = Follows-pure SameGrants-frame none
session_by-SameGrants (some []) = Follows-pure SameGrants-frame none
session_by-SameGrants (some (c ∷ s)) =
    bind-SameGrants _ _ (get_session-SameGrants (c ∷ s)) (session_of-SameGrants (c ∷ s))

admin_of-SameGrants : (r : Request) (o : Option Session) → Follows SameGrants (admin_of r o)
unfolding admin_of check_csrf
admin_of-SameGrants r none = Follows-raise SameGrants-frame _
admin_of-SameGrants r (some s) = Follows-if _ _ _ (Follows-pure SameGrants-frame s) (
    then-SameGrants _ _
      (bind-SameGrants _ _ (asks-SameGrants _) (λ config.
        then-SameGrants _ _ (Follows-lift SameGrants-frame _) (
          bind-SameGrants _ _ (Follows-lift SameGrants-frame _) (λ token.
            bind-SameGrants _ _ (Follows-lift SameGrants-frame _) (λ same.
              Follows-if _ _ _ (Follows-pure SameGrants-frame tt)
                (Follows-raise SameGrants-frame _))))))
      (Follows-pure SameGrants-frame s))

pub require_admin-SameGrants : (r : Request) → Follows SameGrants (require_admin r)
unfolding require_admin current_session
require_admin-SameGrants r = bind-SameGrants _ _ (session_by-SameGrants _) (admin_of-SameGrants r)

take_slot-Lives : (kind : Kind) (n : ℕ) → Follows Lives (take_slot kind n)
unfolding modify
take_slot-Lives kind zero = Follows-raise Lives-frame _
take_slot-Lives kind (suc n) = record { at = λ env w. Lives-same refl }

-- The same for what runs under an admission and moves the rows along the lifecycle.
pub admit-Lives :
    {A : Type 0} (kind : Kind) (m : M A) → Follows Lives m → Follows Lives (admit kind m)
unfolding admit release modify
admit-Lives kind m h = Follows-bind Lives-frame _ _ (Follows-gets Lives-frame _) (λ n.
    Follows-then Lives-frame _ _ (take_slot-Lives kind n)
      (Follows-finally Lives-frame m _ h (record { at = λ env w. Lives-same refl })))

pub renamed-Lives :
    {A : Type 0} (m : M A) (f : Exn → Exn)
    → Follows Lives m
    → Follows Lives (try_catch m (λ e. raise (f e)))
renamed-Lives m f h = Follows-try_catch Lives-frame m _ h (λ e. Follows-raise Lives-frame (f e))
