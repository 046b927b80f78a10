-- ===== src/Web/Closed.antt =====
-- The routes of main.py behind `require_admin` do nothing for a request that it refuses.
use vault_db_access.Web.Errors.{served, respond}
use vault_db_access.Web.Sessions.{require_admin}
use vault_db_access.Web.Portal.{
  Endpoint, get_login, post_login, post_logout, get_index, post_grants, get_session, get_grants,
  post_revoke, post_api_grants, get_tables, post_rotate, get_healthz, get_settings, dispatch,
  handle, logout, index_route, form_route, revoke_grant, session_route, api_grants_route,
  list_route, tables_route, settings_route, rotate_route,
}
use vault_db_access.Effects.{continue, try_catch, raise}
use vault_db_access.Web.Admitted.{Admitted, require_admin-Admitted}
use vault_db_access.Prelude.{Bool, false, is_exception, Bool-cases, if◌then◌else◌}
use vault_db_access.Prelude.{◌≡◌, refl, ap, ◌⊎◌, inl, inr, true}
use vault_db_access.Rows.{Session}
use vault_db_access.Effects.{
  raise, M, World, Env, Outcome, done, raised, killed, hung, ◌>>=◌, ◌>>◌, try_else, pure,
}
use vault_db_access.Web.Http.{Request, Response}

-- The routes that do not depend on `require_admin`.
abbrev pub is_open : Endpoint → Bool
is_open get_healthz = true
is_open (get_login error) = true
is_open post_login = true
is_open _ = false

-- What a route behind `require_admin` does, by how `require_admin` ended and the state it left: let
-- through, the request was admitted; otherwise the route does nothing more than let the handlers
-- answer the exception, if it is an `Exception`.
abbrev pub Gate :
    Env → World → Request → Outcome Session → World → Outcome Response × World → Type 0
Gate env w r (done s) after t = Admitted env w r s after
Gate env w r (raised e) after t =
    t ≡ (if is_exception e then done (respond r e) else raised e, after)
Gate env w r killed after t = t ≡ (killed, after)
Gate env w r hung after t = t ≡ (hung, after)

behind-Gate :
    (r : Request) (f : Session → M Response) (env : Env) (w : World)
    → Gate env w r
        (require_admin r env w).0
        (require_admin r env w).1
        (served r (require_admin r >>= f) env w)
unfolding served try_catch try_else ◌>>=◌ raise pure
behind-Gate r f env w = go (require_admin r env w).0 refl
  where
    go :
        (o : Outcome Session)
        → (require_admin r env w).0 ≡ o
        → let ended = continue o raise f env (require_admin r env w).1 in
          Gate env w r o (require_admin r env w).1 (
            continue ended.0
              (λ e. if is_exception e then pure (respond r e) else raise e)
              pure
              env
              ended.1)
    go (done s) e =
        require_admin-Admitted r env w (require_admin r env w).1 s
          (ap (λ (o : Outcome Session). (o, (require_admin r env w).1)) e)
    go (raised x) e = elim (Bool-cases (is_exception x)) [
      | inl caught ↦ rw caught refl
      | inr passed ↦ rw passed refl
    ]
    go killed e = refl
    go hung e = refl

pub handle-Gate :
    (endpoint : Endpoint) (r : Request) (env : Env) (w : World)
    → (is_open endpoint ≡ true)
      ⊎ Gate env w r (require_admin r env w).0 (require_admin r env w).1 (handle endpoint r env w)
unfolding handle dispatch logout index_route form_route revoke_grant session_route api_grants_route
    list_route tables_route settings_route rotate_route ◌>>◌
handle-Gate get_healthz r env w = inl refl
handle-Gate (get_login error) r env w = inl refl
handle-Gate post_login r env w = inl refl
handle-Gate post_logout r env w = inr (behind-Gate r _ env w)
handle-Gate get_index r env w = inr (behind-Gate r _ env w)
handle-Gate post_grants r env w = inr (behind-Gate r _ env w)
handle-Gate (post_revoke grant_id) r env w = inr (behind-Gate r _ env w)
handle-Gate get_session r env w = inr (behind-Gate r _ env w)
handle-Gate (post_api_grants req) r env w = inr (behind-Gate r _ env w)
handle-Gate get_grants r env w = inr (behind-Gate r _ env w)
handle-Gate (get_tables db) r env w = inr (behind-Gate r _ env w)
handle-Gate (get_settings message) r env w = inr (behind-Gate r _ env w)
handle-Gate (post_rotate db) r env w = inr (behind-Gate r _ env w)
