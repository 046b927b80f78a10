-- ===== src/Web/Sessions.antt =====
-- `current_session`, `_submitted_token` and `require_admin`.
use vault_db_access.Prelude.{
  Result, err, ok, ok, Result, lookup, lookup_last, or_else, Bool, true, false, not, ◌&&◌, ◌||◌,
  Option, none, some, List, [], ◌∷◌, ◌+◌, ltb, contains, eq_Text, if◌then◌else◌, Text, codes,
  starts_with, Exn, busy, http_exception, says, str_of_busy, not_authenticated,
}
use vault_db_access.Rows.{Session}
use vault_db_access.Store.{
  get_session, delete_session, touch_session, audit, session_absolute, session_idle,
}
use vault_db_access.Effects.{M, seconds, time, asks, lift, pure, raise, try_catch, ◌>>=◌, ◌>>◌}
use vault_db_access.Vault.{user_policies, token_policies, revoke_token_quietly}
use vault_db_access.Grants.{admit, session_op}
use vault_db_access.Web.Http.{
  Request, header, header_or_empty, session_cookie, is_empty, compare_digest,
}
use vault_db_access.Web.Origin.{check_origin}

-- `except grants.Busy as exc: raise HTTPException(503, str(exc))`
abbrev pub busy_to_503 : Exn → Exn
busy_to_503 busy = http_exception 503 str_of_busy
busy_to_503 e = e

unfoldable pub or_503 : {A : Type 0} → M A → M A
or_503 m = try_catch m (λ e. raise (busy_to_503 e))

-- `config.ADMIN_POLICY_NAME`
abbrev pub admin_policy : Text
admin_policy = codes "db-access-admin"

-- `not current or config.ADMIN_POLICY_NAME not in current or not alive`, negated; a missing or an
-- empty list is falsy
abbrev pub is_listed : Option (List Text) → Bool
is_listed none = false
is_listed (some []) = false
is_listed (some (p ∷ ps)) = true

abbrev pub still_admin : Option (List Text) → Option (List Text) → Bool
still_admin none alive = false
still_admin (some current) alive =
    is_listed (some current) && contains current admin_policy && is_listed alive

-- The two lookups of the re-validation, under their own admission.
unfoldable pub revalidate : Session → M (Option (List Text) × Option (List Text))
unfolding or_503
revalidate s = or_503 (
    admit session_op (do
      current ← user_policies s.username
      alive ← token_policies s.vault_token
      pure (current, alive)))

-- A session that is past its limits, and one whose user is no administrator any more.
unfoldable pub drop_session : Text → Session → M (Option Session)
drop_session sid s = do delete_session sid; revoke_token_quietly s.vault_token; pure none

unfoldable pub end_session : Text → Session → M (Option Session)
end_session sid s = do
  delete_session sid
  revoke_token_quietly s.vault_token
  audit none none s.username (codes "session") (codes "ended") (codes "admin rights removed")
  pure none

abbrev pub keep_session : Text → Session → Bool → M (Option Session)
keep_session sid s checked = do touch_session sid checked; pure (some s)

unfoldable pub recheck : Text → Session → M (Option Session)
unfolding revalidate end_session
recheck sid s = do
  (current, alive) ← revalidate s
  if still_admin current alive then keep_session sid s true else end_session sid s

unfoldable pub session_of : Text → Option Session → M (Option Session)
unfolding recheck drop_session
session_of sid none = pure none
session_of sid (some s) = do
  now ← time
  config ← asks (λ env. env.config)
  if ltb (s.created_at + session_absolute) now || ltb (s.last_seen + session_idle) now
      then drop_session sid s
      else (if ltb (s.last_check + seconds config.recheck_seconds) now
          then recheck sid s
          else keep_session sid s false)

unfoldable pub session_by : Option Text → M (Option Session)
unfolding session_of
session_by none = pure none
session_by (some []) = pure none
session_by (some (c ∷ s)) = do found ← get_session (c ∷ s); session_of (c ∷ s) found

unfoldable pub current_session : Request → M (Option Session)
unfolding session_by lookup
current_session r = session_by (lookup session_cookie r.cookies)

-- `_submitted_token`; the form is read only when it is asked for.
abbrev form_token : Result (List (Text × Text)) → Result Text
form_token (err e) = err e
form_token (ok form) = ok (or_else (lookup_last (codes "csrf_token") form) [])

unfoldable pub submitted_token : Request → Result Text
unfolding header lookup_last
submitted_token r =
    let token = header_or_empty (codes "x-csrf-token") r in
    if not (is_empty token)
    then ok token
    else (if starts_with (header_or_empty (codes "content-type") r)
          (codes "application/x-www-form-urlencoded")
        then form_token r.form
        else ok [])

-- `SAFE`
abbrev pub is_safe : Text → Bool
is_safe method = contains (codes "GET" ∷ codes "HEAD" ∷ codes "OPTIONS" ∷ []) method

-- What `require_admin` asks of a request that may change something.
unfoldable pub check_csrf : Request → Session → M (Unit {0})
unfolding submitted_token
check_csrf r s = do
  config ← asks (λ env. env.config)
  lift (check_origin config r)
  token ← lift (submitted_token r)
  same ← lift (compare_digest token s.csrf)
  if same
      then pure tt
      else raise (http_exception 403 (says (codes "missing or invalid CSRF token")))

unfoldable pub admin_of : Request → Option Session → M Session
unfolding check_csrf
admin_of r none = raise not_authenticated
admin_of r (some s) = if is_safe r.method then pure s else (do check_csrf r s; pure s)

unfoldable pub require_admin : Request → M Session
unfolding current_session admin_of
require_admin r = do s ← current_session r; admin_of r s
