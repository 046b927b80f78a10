-- ===== src/Web/LoggedOut.antt =====
-- `do_logout`: the session is over.
use vault_db_access.Prelude.{
  ◌≡◌, refl, Option, none, some, List, [], ◌∷◌, Text, lookup, or_else, ◌==◌, eq_Text, Bool-cases,
  inl, inr,
}
use vault_db_access.Rows.{Session, find_session, delete_sessions}
use vault_db_access.Store.{hash, get_session}
use vault_db_access.Effects.{World, Env, done, pure, gets, asks, try_else, ◌>>=◌}
use vault_db_access.Effects.Ensures.{Ensures, Ensures-then, Ensures-pure}
use vault_db_access.Effects.Returns.{Returns}
use vault_db_access.Vault.Frames.{Follows-revoke_token_quietly}
use vault_db_access.Web.Http.{Request, Response, session_cookie}
use vault_db_access.Web.Sessions.{current_session, session_by, session_of}
use vault_db_access.Web.Login.{do_logout}
use vault_db_access.Web.Kept.{Rows, SameSessions-frame, Ensures-alone, Ensures-audit}
use vault_db_access.Web.Entered.{Ensures-delete}

abbrev pub cookie_of : Request → Text
cookie_of r = or_else (lookup session_cookie r.cookies) []

-- The key of the request's cookie is gone from the table, and nothing else is.
pub record IsOver (env : Env) (ss : List Session) (r : Request) (response : Response) (w : World)
    : Type 0 where
  pub removed : w.db.sessions ≡ delete_sessions (env.sha256 (cookie_of r)) ss
  pub unset : response.deleted_cookies ≡ session_cookie ∷ []
  pub carried_no_more : (current_session r env w).0 ≡ done none

deleted-not_found : (i : Text) (ss : List Session) → find_session i (delete_sessions i ss) ≡ none
unfolding find_session delete_sessions
deleted-not_found i [] = refl
deleted-not_found i (s ∷ ss) = elim (Bool-cases (i == s.sid)) [
  | inl same ↦ rw same (deleted-not_found i ss)
  | inr other ↦ rw (other, other) (deleted-not_found i ss)
]

session_by-deleted :
    (env : Env) (ss : List Session) (o : Option Text) (w : World)
    → w.db.sessions ≡ delete_sessions (env.sha256 (or_else o [])) ss
    → (session_by o env w).0 ≡ done none
unfolding session_by session_of get_session hash gets asks pure ◌>>=◌ try_else
session_by-deleted env ss none w removed = refl
session_by-deleted env ss (some []) w removed = refl
session_by-deleted env ss (some (c ∷ s)) w removed =
    rw (removed, deleted-not_found (env.sha256 (c ∷ s)) ss) refl

Ensures-logout :
    {env : Env} (ss : List Session) (r : Request) (s : Session)
    → Ensures env (Rows ss) (do_logout r s) (λ response w.
      (response.deleted_cookies ≡ session_cookie ∷ [])
      × Rows (delete_sessions (env.sha256 (cookie_of r)) ss) w)
unfolding do_logout
Ensures-logout ss r s = Ensures-then _ _ _ (Ensures-delete ss (cookie_of r)) (
    Ensures-then _ _ _
      (Ensures-alone _ _ (Follows-revoke_token_quietly SameSessions-frame s.vault_token))
      (Ensures-then _ _ _ (Ensures-audit _ _ _ _ _ _ _)
        (Ensures-pure _ _ (λ w removed. (refl, removed)))))

-- When `do_logout` returns, the row under the request's cookie is gone from the table and no other row
-- is, the answer unsets the cookie, and the same request carries no session any more.
pub do_logout-IsOver :
    (r : Request) (s : Session) (env : Env) (w w' : World) (response : Response)
    → Returns (do_logout r s) env w response w'
    → IsOver env w.db.sessions r response w'
unfolding current_session
do_logout-IsOver r s env w w' response h =
    let (unset, removed) = (Ensures-logout w.db.sessions r s).when w w' response refl h in
    record {
      removed = removed;
      unset = unset;
      carried_no_more =
          session_by-deleted env w.db.sessions (lookup session_cookie r.cookies) w' removed;
    }
