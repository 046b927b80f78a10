-- ===== src/Web/Login.antt =====
-- Login and logout.
use vault_db_access.Prelude.{
  lookup, lookup_last, or_else, ℕ, false, ◌||◌, Option, none, some, List, [], ◌∷◌, ltb, contains,
  eq_Text, length, take, if◌then◌else◌, Text, codes, Exn, permission_error, http_exception, says,
}
use vault_db_access.Rows.{Session}
use vault_db_access.Store.{get_session, delete_session, create_session, audit}
use vault_db_access.Effects.{M, token_urlsafe, ask, asks, lift, pure, raise, try_else, ◌>>=◌, ◌>>◌}
use vault_db_access.Vault.{userpass_login, revoke_token_quietly}
use vault_db_access.Grants.{admit, auth_op}
use vault_db_access.Web.Http.{
  Request, Response, answer, redirect, login_page, is_empty, set_cookie, delete_cookie,
  session_cookie, pre_cookie, compare_digest,
}
use vault_db_access.Web.Origin.{check_origin}
use vault_db_access.Web.Sessions.{or_503, admin_policy}

unfoldable pub login_form : Request → Option Text → M Response
login_form r error = do
  pre ← ask (token_urlsafe 32)
  config ← asks (λ env. env.config)
  pure (set_cookie config r pre_cookie pre 1800 (answer 200 (login_page error pre)))

-- `_login_page`
unfoldable pub denied : Request → Text → ℕ → Text → M Response
denied r message status username = do
  audit (some r.request_id) none (take 64 username) (codes "login") (codes "denied") message
  new_pre ← ask (token_urlsafe 32)
  config ← asks (λ env. env.config)
  pure (
      set_cookie config r pre_cookie new_pre 1800
        (answer status (login_page (some message) new_pre)))

abbrev pub invalid_credentials : Text
invalid_credentials = codes "Invalid credentials"

-- The session that the browser had, and its token.
abbrev pub revoke_previous : Option Session → M (Unit {0})
revoke_previous none = pure tt
revoke_previous (some s) = revoke_token_quietly s.vault_token

unfoldable pub end_previous : Option Text → M (Unit {0})
end_previous none = pure tt
end_previous (some []) = pure tt
end_previous (some (c ∷ s)) = do
  previous ← get_session (c ∷ s)
  delete_session (c ∷ s)
  revoke_previous previous

-- `config.SESSION_ABSOLUTE_SECONDS`, as the age of the cookie
unfoldable pub start_session : Request → Text → Text → M Response
unfolding end_previous
start_session r username token = do
  end_previous (lookup session_cookie r.cookies)
  (sid, csrf) ← create_session username token
  audit (some r.request_id) none username (codes "login") (codes "ok") []
  config ← asks (λ env. env.config)
  pure (
      delete_cookie pre_cookie
        (set_cookie config r session_cookie sid 28800 (redirect (codes "/"))))

unfoldable pub logged_in : Request → Text → Text × List Text → M Response
unfolding start_session denied
logged_in r username (token, policies) =
    if contains policies admin_policy then start_session r username token else (do
      revoke_token_quietly token
      denied r (codes "This account is not a portal administrator") 403 username)

abbrev pub refused_login : Request → Text → Exn → M Response
refused_login r username permission_error = denied r invalid_credentials 401 username
refused_login r username e = raise e

-- `_do_login`
unfoldable pub do_login : Request → Text → Text → M Response
unfolding logged_in denied
do_login r username password = or_503 (
    admit auth_op (
      if is_empty username
        || is_empty password
        || ltb 128 (length username)
        || ltb 512 (length password)
      then denied r invalid_credentials 401 username
      else try_else (userpass_login username password) (refused_login r username)
          (logged_in r username)))

abbrev pub form_text : Text → List (Text × Text) → Text
form_text name form = or_else (lookup_last name form) []

-- `if not pre or not hmac.compare_digest(…, pre)`
unfoldable pub check_pre : Text → List (Text × Text) → M (Unit {0})
check_pre pre form = do
  same ←
      if is_empty pre
      then pure false
      else lift (compare_digest (form_text (codes "csrf_token") form) pre)
  if same
      then pure tt
      else raise (http_exception 403 (says (codes "missing or invalid CSRF token")))

unfoldable pub login_submit : Request → M Response
unfolding do_login check_pre
login_submit r = do
  config ← asks (λ env. env.config)
  lift (check_origin config r)
  form ← lift r.form
  check_pre (or_else (lookup pre_cookie r.cookies) []) form
  do_login r (form_text (codes "username") form) (form_text (codes "password") form)

-- `_do_logout`
unfoldable pub do_logout : Request → Session → M Response
do_logout r s = do
  delete_session (or_else (lookup session_cookie r.cookies) [])
  revoke_token_quietly s.vault_token
  audit (some r.request_id) none s.username (codes "logout") (codes "ok") []
  pure (delete_cookie session_cookie (redirect (codes "/login")))
