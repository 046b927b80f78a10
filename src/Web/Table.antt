-- ===== src/Web/Table.antt =====
-- middleware/app/store.py: what the store's functions do to the table of sessions, seen as a map.
use mathlib.Core.Path.{subst}
use vault_db_access.Prelude.{
  ◌++◌, [], ◌∷◌, ◌≡◌, refl, sym, ap, ◌∙◌, ℕ, Bool, ◌&&◌, ◌+◌, not, leb, Option, none, some, List,
  Text, arith,
}
use vault_db_access.Rows.{Session, find_session, is_stale}
use vault_db_access.Effects.{M, World, Env}
use vault_db_access.Effects.Returns.{Returns}
use vault_db_access.Store.{
  create_session, new_session, touch_session, delete_session, purge_sessions, session_absolute,
  session_idle,
}
use vault_db_access.Store.Sessions.{
  view, write, only, on_some, seen_at, IsKeyed, IsKeyed-append, find_session-append,
  find_session-touch, IsKeyed-touch, find_session-delete, IsKeyed-delete, find_session-keep,
  IsKeyed-keep,
}
use vault_db_access.Web.Writes.{Ensures-touch, Ensures-delete, Ensures-purge}
use vault_db_access.Web.Started.{Ensures-create_session}

-- The store's functions that change the table.
pub data SessionCall : Type 0 where
  create_call : Text → Text → SessionCall
  touch_call : Text → Bool → SessionCall
  delete_call : Text → SessionCall
  purge_call : SessionCall

abbrev pub CallResult : SessionCall → Type 0
CallResult (create_call username vault_token) = Text × Text
CallResult (touch_call sid checked) = Unit
CallResult (delete_call sid) = Unit
CallResult purge_call = List Session

unfoldable pub run_call : (call : SessionCall) → M (CallResult call)
run_call (create_call username vault_token) = create_session username vault_token
run_call (touch_call sid checked) = touch_session sid checked
run_call (delete_call sid) = delete_session sid
run_call purge_call = purge_sessions

-- Within eight hours of its creation and half an hour of its last use, in tenths of a second.
abbrev pub is_fresh : ℕ → Session → Bool
is_fresh now s = leb now (s.created_at + 288000) && leb now (s.last_seen + 18000)

-- What a call has done, by the key: `before` and `after` are the tables.
abbrev pub Done :
    (call : SessionCall) → Env → ℕ → List Session → CallResult call → List Session → Type 0
Done (create_call username vault_token) env start before (sid, csrf) after =
    (find_session (env.sha256 sid) before ≡ none)
    × ((now : ℕ) × ((k : Text)
          → view after k
            ≡ write (env.sha256 sid)
                (some (new_session (env.sha256 sid) username csrf vault_token now)) (view before)
                k))
Done (touch_call sid checked) env start before u after =
    (k : Text)
    → view after k
      ≡ write (env.sha256 sid) (on_some (seen_at checked start) (view before (env.sha256 sid)))
          (view before) k
Done (delete_call sid) env start before u after =
    (k : Text) → view after k ≡ write (env.sha256 sid) none (view before) k
Done purge_call env start before purged after =
    (k : Text)
    → (view after k ≡ only (is_fresh start) (view before k))
      × (view purged k ≡ only (λ s. not (is_fresh start s)) (view before k))

not-stale :
    (now : ℕ) (s : Session) → not (is_stale session_absolute session_idle now s) ≡ is_fresh now s
unfolding is_stale
not-stale now s = ground arith

stale :
    (now : ℕ) (s : Session) → is_stale session_absolute session_idle now s ≡ not (is_fresh now s)
unfolding is_stale
stale now s = ground arith

only-same :
    (p q : Session → Bool) (o : Option Session) → ((s : Session) → p s ≡ q s) → only p o ≡ only q o
only-same p q none same = refl
only-same p q (some s) same = rw (same s) refl

touched :
    (w : World) (env : Env) (sid : Text) (checked : Bool) (w' : World)
    → IsKeyed w.db.sessions
    → Returns (touch_session sid checked) env w tt w'
    → IsKeyed w'.db.sessions
      × Done (touch_call sid checked) env (env.time w.history) w.db.sessions tt w'.db.sessions
touched w env sid checked w' keyed h =
    let rows = (Ensures-touch w sid checked).when w w' tt refl h in
    let now = env.time w.history in
    (
      subst IsKeyed (sym rows) (IsKeyed-touch (env.sha256 sid) checked now w.db.sessions keyed),
      λ k.
          ap (find_session k) rows
          ∙ find_session-touch k (env.sha256 sid) checked now w.db.sessions,
    )

deleted :
    (w : World) (env : Env) (sid : Text) (w' : World)
    → IsKeyed w.db.sessions
    → Returns (delete_session sid) env w tt w'
    → IsKeyed w'.db.sessions
      × Done (delete_call sid) env (env.time w.history) w.db.sessions tt w'.db.sessions
deleted w env sid w' keyed h =
    let rows = (Ensures-delete w sid).when w w' tt refl h in
    (
      subst IsKeyed (sym rows) (IsKeyed-delete (env.sha256 sid) w.db.sessions keyed),
      λ k. ap (find_session k) rows ∙ find_session-delete k (env.sha256 sid) w.db.sessions keyed,
    )

purged :
    (w : World) (env : Env) (rows : List Session) (w' : World)
    → IsKeyed w.db.sessions
    → Returns purge_sessions env w rows w'
    → IsKeyed w'.db.sessions
      × Done purge_call env (env.time w.history) w.db.sessions rows w'.db.sessions
purged w env rows w' keyed h =
    let (gone, left) = (Ensures-purge w).when w w' rows refl h in
    let now = env.time w.history in
    (
      subst IsKeyed (sym left) (IsKeyed-keep _ w.db.sessions keyed),
      λ k. (
        ap (find_session k) left
            ∙ find_session-keep k _ w.db.sessions keyed
            ∙ only-same _ (is_fresh now) (view w.db.sessions k) (not-stale now),
        ap (find_session k) gone
            ∙ find_session-keep k _ w.db.sessions keyed
            ∙ only-same _ (λ s. not (is_fresh now s)) (view w.db.sessions k) (stale now),
      ),
    )

created :
    (w : World) (env : Env) (username vault_token sid csrf : Text) (w' : World)
    → IsKeyed w.db.sessions
    → Returns (create_session username vault_token) env w (sid, csrf) w'
    → IsKeyed w'.db.sessions
      × Done
          (create_call username vault_token)
          env
          (env.time w.history)
          w.db.sessions
          (sid, csrf)
          w'.db.sessions
created w env username vault_token sid csrf w' keyed h =
    let made =
      (Ensures-create_session w.db.sessions username vault_token).when w w' (sid, csrf) refl h in
    let s = new_session (env.sha256 sid) username csrf vault_token made.now in
    let free : find_session s.sid w.db.sessions ≡ none = rw made.is_row at made.free in
    let added : w'.db.sessions ≡ w.db.sessions ++ (s ∷ []) = rw made.is_row at made.added in
    (
      subst IsKeyed (sym added) (IsKeyed-append w.db.sessions s free keyed),
      (
        free,
        (made.now, λ k. ap (find_session k) added ∙ find_session-append k w.db.sessions s free),
      ),
    )

-- When one of the store's functions on the sessions returns, and no key was twice in the table before
-- it, then no key is twice in the table after it, and every key of the table finds what the function
-- promises. Creating adds the new session, with one time for its creation and last use, under the hash
-- of its identifier, which was free. Touching sets the last use of the session under its key to the
-- time at the start, and its last check too if it was checked. Deleting empties its key. Each of these
-- leaves what every other key finds. Purging keeps exactly the sessions that are, at its start, within
-- eight hours of their creation and half an hour of their last use, and returns exactly the others.
pub run_call-Done :
    (call : SessionCall) (env : Env) (w w' : World) (result : CallResult call)
    → IsKeyed w.db.sessions
    → Returns (run_call call) env w result w'
    → IsKeyed w'.db.sessions
      × Done call env (env.time w.history) w.db.sessions result w'.db.sessions
unfolding run_call
run_call-Done (create_call username vault_token) env w w' (sid, csrf) keyed h =
    created w env username vault_token sid csrf w' keyed h
run_call-Done (touch_call sid checked) env w w' u keyed h = touched w env sid checked w' keyed h
run_call-Done (delete_call sid) env w w' u keyed h = deleted w env sid w' keyed h
run_call-Done purge_call env w w' rows keyed h = purged w env rows w' keyed h
