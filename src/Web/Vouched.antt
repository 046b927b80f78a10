-- ===== src/Web/Vouched.antt =====
-- `current_session`: whose session a request carries.
use vault_db_access.Prelude.{
  ℕ, ◌≡◌, refl, sym, ap, ◌∙◌, Bool, true, false, Option, none, some, List, [], ◌∷◌, ◌+◌, Text,
  lookup, ltb,
}
use vault_db_access.Rows.{Session, find_session, touch_sessions, is_stale}
use vault_db_access.Store.{get_session, touch_session, session_absolute, session_idle}
use vault_db_access.Effects.{World, Env, seconds, time, pure}
use vault_db_access.Effects.Ensures.{
  Ensures-gets, Ensures-modify, Ensures-weaken, Ensures, Answered, Ensures-bind, Ensures-then,
  Ensures-if, Ensures-pure, Ensures-given, Ensures-any,
}
use vault_db_access.Effects.Frame.{Follows-time}
use mathlib.Core.Path.{subst}
use vault_db_access.Vault.Frames.{Follows-user_policies, Follows-token_policies}
use vault_db_access.Vault.{user_policies, token_policies}
use vault_db_access.Grants.{session_op}
use vault_db_access.Web.Http.{Request, session_cookie}
use vault_db_access.Web.Sessions.{
  still_admin, revalidate, recheck, session_of, session_by, current_session, keep_session,
  drop_session, end_session,
}
use vault_db_access.Web.Kept.{
  Since, Onward-frame, Ensures-Since, Ensures-time, Ensures-hash, Ensures-admit, Ensures-or_503,
  Rows, Ensures-asks,
}

-- Vault confirmed, during this request, that the user has the administrators' policy and that the
-- session's token is alive.
pub record Confirmed (env : Env) (u : World) (s : Session) : Type 0 where
  pub current : Option (List Text)
  pub alive : Option (List Text)
  pub admin : still_admin current alive ≡ true
  pub user_known : Answered env (Since u) (user_policies s.username) current
  pub token_known : Answered env (Since u) (token_policies s.vault_token) alive

-- The last confirmation is recent, or there was one now.
abbrev pub IsChecked : Env → World → Session → ℕ → Bool → Type 0
IsChecked env u s now true = Confirmed env u s
IsChecked env u s now false = ltb (s.last_check + seconds env.config.recheck_seconds) now ≡ false

-- The request carries the session that the table holds under the hash of its cookie; it is within its
-- limits and checked, and the table left differs in its times only.
pub record Vouched (env : Env) (u : World) (r : Request) (s : Session) (w : World) : Type 0 where
  pub cookie : Text
  pub carried : lookup session_cookie r.cookies ≡ some cookie
  pub stored : find_session (env.sha256 cookie) u.db.sessions ≡ some s
  pub now : ℕ
  pub clock : Answered env (Since u) time now
  pub fresh : is_stale session_absolute session_idle now s ≡ false
  pub rechecked : Bool
  pub checked : IsChecked env u s now rechecked
  pub at : ℕ
  pub touched : Rows (touch_sessions (env.sha256 cookie) rechecked at u.db.sessions) w

abbrev pub Post : Env → World → Request → Option Session → World → Type 0
Post env u r o w = (s : Session) → o ≡ some s → Vouched env u r s w

module _ {env : Env} where
  Ensures-touch :
      (ss : List Session) (sid : Text) (checked : Bool)
      → Ensures env
          (Rows ss)
          (touch_session sid checked)
          (λ _ w. (at : ℕ) × Rows (touch_sessions (env.sha256 sid) checked at ss) w)
  unfolding touch_session
  Ensures-touch ss sid checked = Ensures-bind _ _ _ (Ensures-time ss) (λ now.
      Ensures-bind _ _ _ (Ensures-hash (Rows ss) sid)
        (λ key. Ensures-modify _ _ (λ w (is_key, rows). (now, rw (is_key, rows) refl))))

  Ensures-keep :
      (ss : List Session) (sid : Text) (s : Session) (checked : Bool)
      → Ensures env (Rows ss) (keep_session sid s checked) (λ o w.
        (o ≡ some s) × ((at : ℕ) × Rows (touch_sessions (env.sha256 sid) checked at ss) w))
  Ensures-keep ss sid s checked =
      Ensures-then _ _ _ (Ensures-touch ss sid checked)
        (Ensures-pure (some s) _ (λ w touched. (refl, touched)))

  -- Both answers of the re-validation.
  Ensures-revalidate :
      (u : World) (s : Session)
      → Ensures env (Since u) (revalidate s) (λ (current, alive) w.
        Answered env (Since u) (user_policies s.username) current
        × (Answered env (Since u) (token_policies s.vault_token) alive × Since u w))
  unfolding revalidate
  Ensures-revalidate u s = Ensures-or_503 _ (
      Ensures-admit session_op _ (λ g w since. since) (λ a g w q. q)
        (Ensures-bind _ _ _
          (Ensures-Since u (user_policies s.username)
            (Follows-user_policies Onward-frame s.username))
          (λ current. Ensures-given _ (λ user_known.
            Ensures-bind _ _ _
              (Ensures-Since u (token_policies s.vault_token)
                (Follows-token_policies Onward-frame s.vault_token))
              (λ alive.
                Ensures-pure (current, alive) _
                  (λ w (token_known, rows). (user_known, (token_known, rows))))))))

  module _ {P : World → Type 0} (u : World) (r : Request) where
    Ensures-none : Ensures env P (pure none) (Post env u r)
    Ensures-none = Ensures-pure none (Post env u r) (λ w p s e. cc)

    Ensures-drop : (sid : Text) (s : Session) → Ensures env P (drop_session sid s) (Post env u r)
    unfolding drop_session
    Ensures-drop sid s =
        Ensures-then (λ _. Unit) _ _ (Ensures-any _)
          (Ensures-then (λ _. Unit) _ _ (Ensures-any _)
            (Ensures-pure none (Post env u r) (λ w p s e. cc)))

    Ensures-end : (sid : Text) (s : Session) → Ensures env P (end_session sid s) (Post env u r)
    unfolding end_session
    Ensures-end sid s =
        Ensures-then (λ _. Unit) _ _ (Ensures-any _)
          (Ensures-then (λ _. Unit) _ _ (Ensures-any _)
            (Ensures-then (λ _. Unit) _ _ (Ensures-any _)
              (Ensures-pure none (Post env u r) (λ w p s e. cc))))

  module _ (u : World) (r : Request) (sid : Text) (s : Session)
      (carried : lookup session_cookie r.cookies ≡ some sid)
      (stored : find_session (env.sha256 sid) u.db.sessions ≡ some s) where
    Ensures-vouched :
        (now : ℕ) (rechecked : Bool)
        → Answered env (Since u) time now
        → is_stale session_absolute session_idle now s ≡ false
        → IsChecked env u s now rechecked
        → Ensures env (Since u) (keep_session sid s rechecked) (Post env u r)
    Ensures-vouched now rechecked clock fresh checked =
        Ensures-weaken _ (λ w since. since.0)
          (λ o w (is_s, (at, touched)) t is_t.
            let same : s ≡ t = cc (is_s, is_t) in
            subst (λ x. Vouched env u r x w) same
              (record {
                cookie = sid;
                carried = carried;
                stored = stored;
                now = now;
                clock = clock;
                fresh = fresh;
                rechecked = rechecked;
                checked = checked;
                at = at;
                touched = touched;
              }))
          (Ensures-keep u.db.sessions sid s rechecked)

    Ensures-recheck :
        (now : ℕ)
        → Answered env (Since u) time now
        → is_stale session_absolute session_idle now s ≡ false
        → Ensures env (Since u) (recheck sid s) (Post env u r)
    unfolding recheck
    Ensures-recheck now clock fresh =
        Ensures-bind _ _ _ (Ensures-revalidate u s) (λ (current, alive).
          Ensures-given _ (λ user_known. Ensures-given _ (λ token_known.
            Ensures-if (still_admin current alive) _ _
              (λ admin. Ensures-vouched now true clock fresh (record {
                current = current;
                alive = alive;
                admin = admin;
                user_known = user_known;
                token_known = token_known;
              }))
              (λ _. Ensures-end u r sid s))))

    Ensures-session_of : Ensures env (Since u) (session_of sid (some s)) (Post env u r)
    unfolding session_of is_stale
    Ensures-session_of =
        Ensures-bind _ _ _ (Ensures-Since u time (Follows-time Onward-frame)) (λ now.
          Ensures-given _ (λ clock. Ensures-bind _ _ _ (Ensures-asks (λ env. env.config)) (λ config.
            Ensures-given _ (λ is_config.
              Ensures-if _ _ _ (λ _. Ensures-drop u r sid s)
                (λ fresh.
                  Ensures-if _ _ _ (λ _. Ensures-recheck now clock fresh)
                    (λ recent. Ensures-vouched now false clock fresh (rw is_config at recent)))))))

  Ensures-get_session :
      (u : World) (sid : Text)
      → Ensures env
          (Since u)
          (get_session sid)
          (λ o w. (o ≡ find_session (env.sha256 sid) u.db.sessions) × Since u w)
  unfolding get_session
  Ensures-get_session u sid = Ensures-bind _ _ _ (Ensures-hash (Since u) sid) (λ key.
      Ensures-given _ (λ is_key.
        Ensures-weaken _ (λ w p. p)
          (λ o w (is_found, rows). (
            is_found ∙ ap (find_session key) rows.0 ∙ ap (λ k. find_session k u.db.sessions) is_key,
            rows,
          ))
          (Ensures-gets _)))

  Ensures-found :
      (u : World) (r : Request) (sid : Text) (found : Option Session)
      → lookup session_cookie r.cookies ≡ some sid
      → found ≡ find_session (env.sha256 sid) u.db.sessions
      → Ensures env (Since u) (session_of sid found) (Post env u r)
  unfolding session_of
  Ensures-found u r sid none carried is_found = Ensures-none u r
  Ensures-found u r sid (some s) carried is_found =
      Ensures-session_of u r sid s carried (sym is_found)

  Ensures-session_by :
      (u : World) (r : Request) (o : Option Text)
      → lookup session_cookie r.cookies ≡ o
      → Ensures env (Since u) (session_by o) (Post env u r)
  unfolding session_by
  Ensures-session_by u r none carried = Ensures-none u r
  Ensures-session_by u r (some []) carried = Ensures-none u r
  Ensures-session_by u r (some (c ∷ s)) carried =
      Ensures-bind _ _ _ (Ensures-get_session u (c ∷ s))
        (λ found. Ensures-given _ (λ is_found. Ensures-found u r (c ∷ s) found carried is_found))

  pub Ensures-current_session :
      (u : World) (r : Request) → Ensures env (Since u) (current_session r) (Post env u r)
  unfolding current_session
  Ensures-current_session u r = Ensures-session_by u r (lookup session_cookie r.cookies) refl
