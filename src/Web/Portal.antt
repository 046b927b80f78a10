-- ===== src/Web/Portal.antt =====
-- The routes of main.py, each with its `Depends(require_admin)`, and the application with its exception
-- handlers around every route.
use vault_db_access.Prelude.{Option, none, Text, codes}
use vault_db_access.Models.{DbType, GrantRequest}
use vault_db_access.Effects.{M, pure, asks, ◌>>=◌, ◌>>◌}
use vault_db_access.Web.Http.{Request, Response, answer, health, settings_page}
use vault_db_access.Web.Errors.{served}
use vault_db_access.Web.Sessions.{require_admin}
use vault_db_access.Web.Login.{login_form, login_submit, do_logout}
use vault_db_access.Web.Routes.{
  index, create_grant_form, revoke_route, api_session, api_create_grant, api_list_grants,
  api_list_tables, rotate_connection,
}

unfoldable pub healthz : M Response
healthz = do
  config ← asks (λ env. env.config)
  pure (answer 200 (health config.test_hooks config.recheck_seconds))

unfoldable pub logout : Request → M Response
logout r = do s ← require_admin r; do_logout r s

unfoldable pub index_route : Request → M Response
index_route r = do s ← require_admin r; index r s none none 200

unfoldable pub form_route : Request → M Response
form_route r = do s ← require_admin r; create_grant_form r s

unfoldable pub revoke_grant : Text → Request → M Response
revoke_grant grant_id r = do s ← require_admin r; revoke_route r s grant_id

unfoldable pub session_route : Request → M Response
session_route r = do s ← require_admin r; pure (api_session s)

unfoldable pub api_grants_route : GrantRequest → Request → M Response
api_grants_route req r = do s ← require_admin r; api_create_grant r s req

unfoldable pub list_route : Request → M Response
list_route r = require_admin r >> api_list_grants

unfoldable pub tables_route : DbType → Request → M Response
tables_route db r = require_admin r >> api_list_tables db

unfoldable pub settings_route : Option Text → Request → M Response
settings_route message r = do
  s ← require_admin r
  pure (answer 200 (settings_page s.username s.csrf message))

unfoldable pub rotate_route : DbType → Request → M Response
rotate_route db r = do s ← require_admin r; rotate_connection r s db

-- The routes with what FastAPI has validated for them: path and query parameters, and a JSON body.
pub data Endpoint : Type 0 where
  get_healthz post_login post_logout get_index post_grants get_session get_grants : Endpoint
  get_login get_settings : Option Text → Endpoint
  post_revoke : Text → Endpoint
  post_api_grants : GrantRequest → Endpoint
  get_tables post_rotate : DbType → Endpoint

-- The method in the route's decorator.
unfoldable pub method_of : Endpoint → Text
method_of get_healthz = codes "GET"
method_of (get_login error) = codes "GET"
method_of post_login = codes "POST"
method_of post_logout = codes "POST"
method_of get_index = codes "GET"
method_of post_grants = codes "POST"
method_of (post_revoke grant_id) = codes "POST"
method_of get_session = codes "GET"
method_of (post_api_grants req) = codes "POST"
method_of get_grants = codes "GET"
method_of (get_tables db) = codes "GET"
method_of (get_settings message) = codes "GET"
method_of (post_rotate db) = codes "POST"

unfoldable pub dispatch : Endpoint → Request → M Response
unfolding healthz logout index_route form_route revoke_grant session_route api_grants_route
    list_route tables_route settings_route rotate_route
dispatch get_healthz r = healthz
dispatch (get_login error) r = login_form r error
dispatch post_login r = login_submit r
dispatch post_logout r = logout r
dispatch get_index r = index_route r
dispatch post_grants r = form_route r
dispatch (post_revoke grant_id) r = revoke_grant grant_id r
dispatch get_session r = session_route r
dispatch (post_api_grants req) r = api_grants_route req r
dispatch get_grants r = list_route r
dispatch (get_tables db) r = tables_route db r
dispatch (get_settings message) r = settings_route message r
dispatch (post_rotate db) r = rotate_route db r

-- The application's answer: an exception of the route is one of the handlers' to answer.
unfoldable pub handle : Endpoint → Request → M Response
unfolding dispatch
handle endpoint r = served r (dispatch endpoint r)
