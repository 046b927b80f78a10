-- ===== src/Web/Handled.antt =====
-- The routes of main.py behind `require_admin`: only an admitted request changes the rows of `grants`.
use vault_db_access.Web.Routes.{api_list_grants, api_list_tables}
use vault_db_access.Web.Login.{login_form}
use vault_db_access.Web.Errors.{served, respond}
use vault_db_access.Web.Sessions.{require_admin, is_safe}
use vault_db_access.Store.{list_grants}
use vault_db_access.Web.Portal.{
  Endpoint, get_login, post_login, post_logout, get_index, post_grants, get_session, get_grants,
  post_revoke, post_api_grants, get_tables, post_rotate, get_healthz, get_settings, dispatch,
  handle, method_of, healthz, logout, index_route, form_route, revoke_grant, session_route,
  api_grants_route, list_route, tables_route, settings_route, rotate_route,
}
use vault_db_access.Effects.{continue, try_catch, raise}
use vault_db_access.Web.Closed.{is_open, Gate, handle-Gate}
use vault_db_access.Web.Issuing.{
  create_grant_form-Lives, revoke_route-Lives, api_create_grant-Lives,
}
use vault_db_access.Web.Admitted.{Admitted, Genuine, require_admin-Admitted}
use mathlib.Core.Path.{subst}
use vault_db_access.Web.Untouched.{
  bind-SameGrants, asks-SameGrants, admit-SameGrants, or_503-SameGrants, require_admin-SameGrants,
}
use vault_db_access.Web.Unissued.{
  pure-SameGrants, token-SameGrants, login_submit-SameGrants, do_logout-SameGrants,
  index-SameGrants, rotate_connection-SameGrants, list_grants-SameGrants, catalog-SameGrants,
}
use vault_db_access.Prelude.{text_eq, false, is_exception, Bool-cases, if◌then◌else◌}
use vault_db_access.Prelude.{◌≡◌, refl, sym, ap, ◌∙◌, ◌⊎◌, inl, inr, none, true, codes}
use vault_db_access.Rows.{Session}
use vault_db_access.Effects.{
  raise, M, World, Env, Outcome, done, raised, killed, hung, ◌>>=◌, ◌>>◌, try_else, pure,
}
use vault_db_access.Effects.Returns.{Returns}
use vault_db_access.Effects.Frame.{Follows}
use vault_db_access.Grants.Lifecycle.Relation.{Lives, Lives-same, Lives-frame, SameGrants}
use vault_db_access.Web.Http.{Request, Response}

-- The handlers around a route keep the state that it leaves.
served-world :
    (r : Request) (m : M Response) (env : Env) (w : World) → (served r m env w).1 ≡ (m env w).1
unfolding served try_catch try_else pure raise
served-world r m env w = go (m env w).0
  where
    go :
        (o : Outcome Response)
        → (continue o
            (λ e. if is_exception e then pure (respond r e) else raise e)
            pure
            env
            (m env w).1).1
          ≡ (m env w).1
    go (done a) = refl
    go (raised e) = elim (Bool-cases (is_exception e)) [
      | inl caught ↦ rw caught refl
      | inr passed ↦ rw passed refl
    ]
    go killed = refl
    go hung = refl

-- The request was admitted as the session `session`: its cookie, the session's limits and Vault's
-- answers as `Admitted` says, its origin accepted, and the session's own token submitted.
pub record Authorized (env : Env) (w : World) (r : Request) : Type 0 where
  pub session : Session
  pub after : World
  pub passed : Returns (require_admin r) env w session after
  pub admitted : Admitted env w r session after
  pub genuine : Genuine env r session

-- What an application's answer may have done to the rows of `grants`.
pub record Guarded (env : Env) (w : World) (r : Request) (w' : World) : Type 0 where
  pub lives : Lives w w'
  pub allowed : SameGrants w w' ⊎ Authorized env w r

Guarded-same :
    (env : Env) (w : World) (r : Request) (w' : World) → SameGrants w w' → Guarded env w r w'
Guarded-same env w r w' same = record { lives = Lives-same same; allowed = inl same }

false_not_true : ¬ (false ≡ true)
false_not_true h = cc h

is_safe-post : is_safe (codes "POST") ≡ false
unfolding text_eq
is_safe-post = refl

Genuine-post :
    (env : Env) (r : Request) (s : Session)
    → r.method ≡ codes "POST"
    → (is_safe r.method ≡ true) ⊎ Genuine env r s
    → Genuine env r s
Genuine-post env r s posted (inl safe) =
    let safe_post : is_safe (codes "POST") ≡ true = ap is_safe (sym posted) ∙ safe in
    let clash : false ≡ true = sym is_safe-post ∙ safe_post in absurd (false_not_true clash)
Genuine-post env r s posted (inr g) = g

passed-Authorized :
    (env : Env) (w : World) (r : Request) (s : Session)
    → r.method ≡ codes "POST"
    → Returns (require_admin r) env w s (require_admin r env w).1
    → Authorized env w r
passed-Authorized env w r s posted h =
    let a = require_admin-Admitted r env w (require_admin r env w).1 s h in
    record {
      session = s;
      after = (require_admin r env w).1;
      passed = h;
      admitted = a;
      genuine = Genuine-post env r s posted a.genuine;
    }

-- A route that may change the rows, behind `require_admin`.
behind-Guarded :
    (r : Request) (f : Session → M Response) (env : Env) (w : World)
    → r.method ≡ codes "POST"
    → ((s : Session) → Follows Lives (f s))
    → Guarded env w r ((require_admin r >>= f) env w).1
unfolding ◌>>=◌ try_else raise
behind-Guarded r f env w posted h = go (require_admin r env w).0 refl
  where
    untouched : SameGrants w (require_admin r env w).1
    untouched = (require_admin-SameGrants r).at env w

    go :
        (o : Outcome Session)
        → (require_admin r env w).0 ≡ o
        → Guarded env w r (continue o raise f env (require_admin r env w).1).1
    go (done s) e = record {
      lives = Lives-frame.chain _ _ _ (Lives-same untouched) ((h s).at env _);
      allowed = inr (
          passed-Authorized env w r s posted
            (ap (λ (o : Outcome Session). (o, (require_admin r env w).1)) e));
    }
    go (raised x) e = Guarded-same env w r _ untouched
    go killed e = Guarded-same env w r _ untouched
    go hung e = Guarded-same env w r _ untouched

-- A route that leaves the rows alone.
still-Guarded :
    (r : Request) (m : M Response) (env : Env) (w : World)
    → Follows SameGrants m
    → Guarded env w r (m env w).1
still-Guarded r m env w h = Guarded-same env w r _ (h.at env w)

-- The same behind `require_admin`.
calm-Guarded :
    (r : Request) (f : Session → M Response) (env : Env) (w : World)
    → ((s : Session) → Follows SameGrants (f s))
    → Guarded env w r ((require_admin r >>= f) env w).1
calm-Guarded r f env w h =
    still-Guarded r _ env w (bind-SameGrants _ _ (require_admin-SameGrants r) h)

dispatch-Guarded :
    (endpoint : Endpoint) (r : Request) (env : Env) (w : World)
    → r.method ≡ method_of endpoint
    → Guarded env w r (dispatch endpoint r env w).1
unfolding dispatch healthz logout index_route form_route revoke_grant session_route api_grants_route
    list_route tables_route settings_route rotate_route method_of login_form api_list_grants
    api_list_tables list_grants ◌>>◌
dispatch-Guarded get_healthz r env w e =
    still-Guarded r _ env w (bind-SameGrants _ _ (asks-SameGrants _) (λ config. pure-SameGrants _))
dispatch-Guarded (get_login error) r env w e = still-Guarded r _ env w (
    bind-SameGrants _ _ token-SameGrants
      (λ pre. bind-SameGrants _ _ (asks-SameGrants _) (λ config. pure-SameGrants _)))
dispatch-Guarded post_login r env w e = still-Guarded r _ env w (login_submit-SameGrants r)
dispatch-Guarded post_logout r env w e = calm-Guarded r _ env w (do_logout-SameGrants r)
dispatch-Guarded get_index r env w e =
    calm-Guarded r _ env w (λ s. index-SameGrants r s none none 200)
dispatch-Guarded post_grants r env w e = behind-Guarded r _ env w e (create_grant_form-Lives r)
dispatch-Guarded (post_revoke grant_id) r env w e =
    behind-Guarded r _ env w e (λ s. revoke_route-Lives r s grant_id)
dispatch-Guarded get_session r env w e = calm-Guarded r _ env w (λ s. pure-SameGrants _)
dispatch-Guarded (post_api_grants req) r env w e =
    behind-Guarded r _ env w e (λ s. api_create_grant-Lives r s req)
dispatch-Guarded get_grants r env w e =
    calm-Guarded r _ env w
      (λ s. bind-SameGrants _ _ (list_grants-SameGrants 500) (λ rows. pure-SameGrants _))
dispatch-Guarded (get_tables db) r env w e = calm-Guarded r _ env w (λ s.
    bind-SameGrants _ _ (or_503-SameGrants _ (admit-SameGrants _ _ (catalog-SameGrants db)))
      (λ cat. pure-SameGrants _))
dispatch-Guarded (get_settings message) r env w e = calm-Guarded r _ env w (λ s. pure-SameGrants _)
dispatch-Guarded (post_rotate db) r env w e =
    calm-Guarded r _ env w (λ s. rotate_connection-SameGrants r s db)

-- Whatever request reaches whichever of the portal's thirteen routes, with the method of the route and
-- whatever Vault, the databases and the clock answer and wherever the process is killed: no row of
-- `grants` is lost, its status moves along the lifecycle only, its request columns are kept, a row that
-- is revoked, expired or failed is not changed; and the rows are not changed at all unless
-- `require_admin` returned a session for the request, its origin was accepted and the token it submits
-- is that session's. And but for the three routes of the health check and the login, either
-- `require_admin` admitted the request, or the state that is left is the one that `require_admin` left
-- and the outcome is its own, an `Exception` answered by its handler.
pub handle-Guarded :
    (endpoint : Endpoint) (r : Request) (env : Env) (w : World)
    → r.method ≡ method_of endpoint
    → Guarded env w r (handle endpoint r env w).1
      × ((is_open endpoint ≡ true)
          ⊎ Gate env w r
              (require_admin r env w).0
              (require_admin r env w).1
              (handle endpoint r env w))
unfolding handle
handle-Guarded endpoint r env w posted = (
  subst (Guarded env w r) (sym (served-world r (dispatch endpoint r) env w))
      (dispatch-Guarded endpoint r env w posted),
  handle-Gate endpoint r env w,
)
