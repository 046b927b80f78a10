-- ===== src/Web/Started.antt =====
-- `create_session` and `get_session`.
use vault_db_access.Prelude.{
  eq_Text, ==_refl, ==_refl, ℕ, ◌≡◌, refl, sym, ap, ◌∙◌, Option, none, some, List, [], ◌∷◌, ◌++◌,
  Text, Option-cases, inl, inr,
}
use vault_db_access.Rows.{Session, find_session, insert_session}
use vault_db_access.Store.{hash, create_session, new_session, get_session, keep_session}
use vault_db_access.Store.Sessions.{view, write, find_session-append}
use vault_db_access.Effects.{try_else, ◌>>=◌, gets, asks, World, Env, done, token_urlsafe}
use vault_db_access.Effects.Ensures.{
  Ensures-pure, Ensures-then, Ensures-weaken, Ensures-modify, Ensures-gets, Ensures-raise, Ensures,
  Ensures-bind, Ensures-given,
}
use vault_db_access.Effects.Frame.{Follows-ask}
use vault_db_access.Effects.Returns.{Returns}
use vault_db_access.Web.Kept.{Rows, SameSessions-frame, Ensures-alone, Ensures-time, Ensures-hash}

-- A session was added under a key that was free.
pub record Created (env : Env) (ss : List Session) (username vault_token sid csrf : Text)
    (after : List Session) : Type 0 where
  pub now : ℕ
  pub row : Session
  pub is_row : row ≡ new_session (env.sha256 sid) username csrf vault_token now
  pub free : find_session row.sid ss ≡ none
  pub added : after ≡ ss ++ (row ∷ [])

module _ {env : Env} where
  Ensures-insert :
      (ss : List Session) (s : Session) (o : Option (List Session))
      → insert_session s ss ≡ o
      → Ensures env
          (Rows ss)
          (keep_session o)
          (λ _ w. (find_session s.sid ss ≡ none) × Rows (ss ++ (s ∷ [])) w)
  unfolding insert_session
  Ensures-insert ss s none h = Ensures-raise _
  Ensures-insert ss s (some new) h = Ensures-modify _ _ (λ w rows.
      elim (Option-cases (find_session s.sid ss)) [
        | inl free ↦ (free, cc (rw (free, insert_session) at h))
        | inr (old, there) ↦ cc (rw (there, insert_session) at h)
      ])

  pub Ensures-create_session :
      (ss : List Session) (username vault_token : Text)
      → Ensures env
          (Rows ss)
          (create_session username vault_token)
          (λ (sid, csrf) w. Created env ss username vault_token sid csrf w.db.sessions)
  unfolding create_session
  Ensures-create_session ss username vault_token =
      Ensures-bind _ _ _ (Ensures-alone ss _ (Follows-ask SameSessions-frame (token_urlsafe 32)))
        (λ sid.
          Ensures-bind _ _ _
            (Ensures-alone ss _ (Follows-ask SameSessions-frame (token_urlsafe 32)))
            (λ csrf. Ensures-bind _ _ _ (Ensures-time ss) (λ now.
              Ensures-bind _ _ _ (Ensures-hash (Rows ss) sid) (λ key. Ensures-given _ (λ is_key.
                let s = new_session key username csrf vault_token now in
                Ensures-bind (λ result w. (result ≡ insert_session s ss) × Rows ss w) _ _
                  (Ensures-weaken _ (λ w p. p)
                    (λ result w (is_result, rows). (is_result ∙ ap (insert_session s) rows, rows))
                    (Ensures-gets _))
                  (λ result. Ensures-given _ (λ is_result.
                    Ensures-then _ _ _ (Ensures-insert ss s result (sym is_result)) (
                      Ensures-pure (sid, csrf) _
                        (λ w (free, added). record {
                          now = now;
                          row = s;
                          is_row = ap (λ k. new_session k username csrf vault_token now) is_key;
                          free = free;
                          added = added;
                        })))))))))

-- The row is found under the hash of the new identifier, and every other key has what it had.
pub record Opened (env : Env) (w : World) (username vault_token sid csrf : Text) (w' : World)
    : Type 0 where
  pub now : ℕ
  pub fetched :
      Returns
        (get_session sid)
        env
        w'
        (some (new_session (env.sha256 sid) username csrf vault_token now))
        w'
  pub was_free : find_session (env.sha256 sid) w.db.sessions ≡ none
  pub table :
      (key : Text)
      → find_session key w'.db.sessions
        ≡ write
            (env.sha256 sid)
            (some (new_session (env.sha256 sid) username csrf vault_token now))
            (view w.db.sessions)
            key

-- When `create_session` returns, its identifier was not in use, `get_session` of it returns the new
-- session with its user, token and CSRF token, and what every other key finds is unchanged.
pub create_session-get_session :
    (username vault_token : Text) (env : Env) (w w' : World) (sid csrf : Text)
    → Returns (create_session username vault_token) env w (sid, csrf) w'
    → Opened env w username vault_token sid csrf w'
unfolding get_session hash asks gets ◌>>=◌ try_else
create_session-get_session username vault_token env w w' sid csrf h =
    let made =
      (Ensures-create_session w.db.sessions username vault_token).when w w' (sid, csrf) refl h in
    let s = new_session (env.sha256 sid) username csrf vault_token made.now in
    let free : find_session s.sid w.db.sessions ≡ none = rw made.is_row at made.free in
    let added : w'.db.sessions ≡ w.db.sessions ++ (s ∷ []) = rw made.is_row at made.added in
    let found : (key : Text)
        → find_session key w'.db.sessions ≡ write s.sid (some s) (view w.db.sessions) key =
      λ key. ap (find_session key) added ∙ find_session-append key w.db.sessions s free in
    record {
      now = made.now;
      fetched = ap (λ (o : Option Session). (done o, w')) (found s.sid ∙ rw (==_refl s.sid) refl);
      was_free = free;
      table = found;
    }
