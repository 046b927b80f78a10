-- ===== src/Web/Entered.antt =====
-- `_do_login`: who gets a session.
use vault_db_access.Prelude.{
  eq_Text, ℕ, ◌≡◌, refl, true, Option, none, some, List, [], ◌∷◌, Text, contains, lookup, Exn,
  permission_error, ◌⊎◌, inl, inr,
}
use vault_db_access.Rows.{Session, delete_sessions}
use vault_db_access.Store.{delete_session}
use vault_db_access.Grants.{auth_op}
use vault_db_access.Effects.{World, Env, token_urlsafe}
use vault_db_access.Effects.Ensures.{
  Ensures-raise, Ensures-if, Ensures-weaken, Ensures-pure, Ensures-modify, Ensures, Answered,
  Ensures-bind, Ensures-then, Ensures-given,
}
use vault_db_access.Effects.Frame.{Follows-ask}
use vault_db_access.Vault.{userpass_login}
use vault_db_access.Vault.Frames.{Follows-userpass_login, Follows-revoke_token_quietly}
use vault_db_access.Web.Http.{set_cookie, Request, Response, Cookie, session_cookie}
use vault_db_access.Web.Sessions.{admin_policy}
use vault_db_access.Web.Login.{
  invalid_credentials, refused_login, revoke_previous, denied, end_previous, start_session,
  logged_in, do_login,
}
use vault_db_access.Web.Kept.{
  Since, Onward-frame, Ensures-try, Ensures-admit, Ensures-or_503, Follows-audit, Ensures-table,
  Follows-get_session, Ensures-asks, Rows, SameSessions-frame, Ensures-alone, Ensures-hash,
  Ensures-audit,
}
use vault_db_access.Web.Started.{Created, Ensures-create_session}

-- The table without the session that the browser had.
abbrev pub without : Env → Option Text → List Session → List Session
without env none ss = ss
without env (some []) ss = ss
without env (some (c ∷ s)) ss = delete_sessions (env.sha256 (c ∷ s)) ss

-- Vault took the password and lists the administrators' policy for the user; the session that the
-- browser had is removed, one for this user and with this token is added, and the cookie that is set
-- is its identifier.
pub record Entered (env : Env) (u : World) (r : Request) (username password : Text)
    (response : Response) (after : List Session) : Type 0 where
  pub token : Text
  pub policies : List Text
  pub password_taken : Answered env (Since u) (userpass_login username password) (token, policies)
  pub admin : contains policies admin_policy ≡ true
  pub sid : Text
  pub csrf : Text
  pub created :
      Created env
        (without env (lookup session_cookie r.cookies) u.db.sessions)
        username
        token
        sid
        csrf
        after
  pub cookie : Cookie
  pub sent : response.set_cookies ≡ cookie ∷ []
  pub names_session : (cookie.name ≡ session_cookie) × (cookie.value ≡ sid)
  pub hidden : cookie.http_only ≡ true

-- It redirects and has started a session, or it refuses and has changed none.
abbrev pub LoginEnds : Env → World → Request → Text → Text → Response → List Session → Type 0
LoginEnds env u r username password response after =
    ((response.status ≡ 303) × Entered env u r username password response after)
    ⊎ (((response.status ≡ 401) ⊎ (response.status ≡ 403)) × (after ≡ u.db.sessions))

module _ {env : Env} where
  Ensures-denied :
      (ss : List Session) (r : Request) (message : Text) (status : ℕ) (username : Text)
      → Ensures env
          (Rows ss)
          (denied r message status username)
          (λ response w. (response.status ≡ status) × Rows ss w)
  unfolding denied set_cookie
  Ensures-denied ss r message status username = Ensures-then _ _ _ (Ensures-audit ss _ _ _ _ _ _) (
      Ensures-bind _ _ _ (Ensures-alone ss _ (Follows-ask SameSessions-frame (token_urlsafe 32)))
        (λ new_pre.
          Ensures-bind _ _ _ (Ensures-asks (λ env. env.config))
            (λ config. Ensures-given _ (λ is_config. Ensures-pure _ _ (λ w rows. (refl, rows))))))

  pub Ensures-delete :
      (ss : List Session) (sid : Text)
      → Ensures env (Rows ss) (delete_session sid) (λ _. Rows (delete_sessions (env.sha256 sid) ss))
  unfolding delete_session
  Ensures-delete ss sid =
      Ensures-bind _ _ _ (Ensures-hash (Rows ss) sid)
        (λ key. Ensures-modify _ _ (λ w (is_key, rows). rw (is_key, rows) refl))

  Ensures-revoke_previous :
      (ss : List Session) (o : Option Session)
      → Ensures env (Rows ss) (revoke_previous o) (λ _. Rows ss)
  Ensures-revoke_previous ss none = Ensures-pure tt _ (λ w rows. rows)
  Ensures-revoke_previous ss (some s) =
      Ensures-alone ss _ (Follows-revoke_token_quietly SameSessions-frame s.vault_token)

  Ensures-end_previous :
      (ss : List Session) (o : Option Text)
      → Ensures env (Rows ss) (end_previous o) (λ _. Rows (without env o ss))
  unfolding end_previous
  Ensures-end_previous ss none = Ensures-pure tt _ (λ w rows. rows)
  Ensures-end_previous ss (some []) = Ensures-pure tt _ (λ w rows. rows)
  Ensures-end_previous ss (some (c ∷ s)) =
      Ensures-bind _ _ _ (Ensures-alone ss _ (Follows-get_session (c ∷ s))) (λ previous.
        Ensures-then _ _ _ (Ensures-delete ss (c ∷ s)) (Ensures-revoke_previous _ previous))

  Ensures-start_session :
      (u : World) (r : Request) (username password token : Text) (policies : List Text)
      → Answered env (Since u) (userpass_login username password) (token, policies)
      → contains policies admin_policy ≡ true
      → Ensures env
          (Rows u.db.sessions)
          (start_session r username token)
          (λ response w. LoginEnds env u r username password response w.db.sessions)
  unfolding start_session set_cookie
  Ensures-start_session u r username password token policies password_taken admin =
      let kept = without env (lookup session_cookie r.cookies) u.db.sessions in
      Ensures-then _ _ _ (Ensures-end_previous u.db.sessions (lookup session_cookie r.cookies)) (
        Ensures-bind _ _ _ (Ensures-create_session kept username token) (λ (sid, csrf).
          Ensures-then _ _ _
            (Ensures-table (Created env kept username token sid csrf) _ (Follows-audit _ _ _ _ _ _))
            (Ensures-bind _ _ _ (Ensures-asks (λ env. env.config)) (λ config.
              Ensures-given _ (λ is_config. Ensures-pure _ _ (λ w created. inl (
                refl,
                record {
                  token = token;
                  policies = policies;
                  password_taken = password_taken;
                  admin = admin;
                  sid = sid;
                  csrf = csrf;
                  created = created;
                  cookie = _;
                  sent = refl;
                  names_session = (refl, refl);
                  hidden = refl;
                },
              )))))))

  Ensures-refused :
      (u : World) (r : Request) (message : Text) (username password : Text)
      → Ensures env
          (Since u)
          (denied r message 401 username)
          (λ response w. LoginEnds env u r username password response w.db.sessions)
  Ensures-refused u r message username password =
      Ensures-weaken _ (λ w since. since.0) (λ response w (status, rows). inr (inl status, rows))
        (Ensures-denied u.db.sessions r message 401 username)

  Ensures-logged_in :
      (u : World) (r : Request) (username password token : Text) (policies : List Text)
      → Answered env (Since u) (userpass_login username password) (token, policies)
      → Ensures env
          (Since u)
          (logged_in r username (token, policies))
          (λ response w. LoginEnds env u r username password response w.db.sessions)
  unfolding logged_in
  Ensures-logged_in u r username password token policies taken =
      Ensures-if (contains policies admin_policy) _ _
        (λ admin.
          Ensures-weaken _ (λ w since. since.0) (λ response w ends. ends)
            (Ensures-start_session u r username password token policies taken admin))
        (λ _.
          Ensures-then _ _ _
            (Ensures-weaken _ (λ w since. since.0) (λ v w rows. rows)
              (Ensures-alone u.db.sessions _
                (Follows-revoke_token_quietly SameSessions-frame token)))
            (Ensures-weaken _ (λ w p. p) (λ response w (status, rows). inr (inr status, rows))
              (Ensures-denied u.db.sessions r _ 403 username)))

  Ensures-refused_login :
      (u : World) (r : Request) (username password : Text) (e : Exn)
      → Ensures env
          (Since u)
          (refused_login r username e)
          (λ response w. LoginEnds env u r username password response w.db.sessions)
  Ensures-refused_login u r username password permission_error =
      Ensures-refused u r invalid_credentials username password
  Ensures-refused_login u r username password _ = search (Ensures-raise)

  pub Ensures-do_login :
      (u : World) (r : Request) (username password : Text)
      → Ensures env
          (Since u)
          (do_login r username password)
          (λ response w. LoginEnds env u r username password response w.db.sessions)
  unfolding do_login
  Ensures-do_login u r username password = Ensures-or_503 _ (
      Ensures-admit auth_op _ (λ g w rows. rows) (λ response g w ends. ends)
        (Ensures-if _ _ _ (λ _. Ensures-refused u r invalid_credentials username password)
          (λ _.
            Ensures-try u (userpass_login username password) (refused_login r username)
              (logged_in r username) (Follows-userpass_login Onward-frame username password)
              (Ensures-refused_login u r username password)
              (λ (token, policies) taken.
                Ensures-logged_in u r username password token policies taken))))
