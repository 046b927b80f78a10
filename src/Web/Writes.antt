-- ===== src/Web/Writes.antt =====
-- middleware/app/store.py: the table that `touch_session`, `delete_session` and `purge_sessions` leave.
use vault_db_access.Effects.{Outcome, done}
use vault_db_access.Prelude.{
  Bool-cases, inl, inr, ◌≡◌, refl, sym, ap, ◌∙◌, ℕ, Bool, not, Text, keep,
}
use vault_db_access.Rows.{touch_sessions, delete_sessions, is_stale}
use vault_db_access.Effects.{World, Env, time}
use vault_db_access.Effects.Ensures.{
  Ensures, Ensures-bind, Ensures-then, Ensures-given, Ensures-pure, Ensures-modify, Ensures-gets,
}
use vault_db_access.Store.{
  touch_session, delete_session, purge_sessions, session_absolute, session_idle,
}
use vault_db_access.Web.Kept.{Rows, Ensures-hash}

module _ {env : Env} where
  -- The clock's answer at the start of a call.
  Ensures-start :
      (w : World)
      → Ensures env (λ v. v ≡ w) time (λ now v. (now ≡ env.time w.history) × Rows w.db.sessions v)
  unfolding time
  Ensures-start w = record {
    when = λ v v' now same h. elim (Bool-cases (env.is_killed v.history)) [
      | inl dead ↦ cc (rw dead at h)
      | inr alive ↦
          let h' = rw alive at h in
          (
            timed (ap (λ (t : Outcome ℕ × World). t.0) (sym h'))
                ∙ ap (λ (u : World). env.time u.history) same,
            ap (λ (t : Outcome ℕ × World). t.1.db.sessions) (sym h')
                ∙ ap (λ (u : World). u.db.sessions) same,
          )
    ];
  }
    where
      timed : {m n : ℕ} → done m ≡ done n → m ≡ n
      timed e = cc e

  pub Ensures-touch :
      (w : World) (sid : Text) (checked : Bool)
      → Ensures env
          (λ v. v ≡ w)
          (touch_session sid checked)
          (λ _. Rows (touch_sessions (env.sha256 sid) checked (env.time w.history) w.db.sessions))
  unfolding touch_session
  Ensures-touch w sid checked = Ensures-bind _ _ _ (Ensures-start w) (λ now.
      Ensures-given _ (λ (is_now : now ≡ env.time w.history).
        Ensures-bind _ _ _ (Ensures-hash _ sid) (λ key.
          Ensures-given _ (λ (is_key : key ≡ env.sha256 sid).
            Ensures-modify _ _
              (λ v rows. ap (touch_sessions key checked now) rows ∙ rw (is_key, is_now) refl)))))

  pub Ensures-delete :
      (w : World) (sid : Text)
      → Ensures env
          (λ v. v ≡ w)
          (delete_session sid)
          (λ _. Rows (delete_sessions (env.sha256 sid) w.db.sessions))
  unfolding delete_session
  Ensures-delete w sid = Ensures-bind _ _ _ (Ensures-hash _ sid) (λ key.
      Ensures-given _ (λ (is_key : key ≡ env.sha256 sid).
        Ensures-modify _ _ (λ v (same : v ≡ w). rw (is_key, same) refl)))

  -- What is purged, and what stays.
  pub Ensures-purge :
      (w : World)
      → Ensures env
          (λ v. v ≡ w)
          purge_sessions
          (λ rows v.
            (rows
              ≡ keep (is_stale session_absolute session_idle (env.time w.history)) w.db.sessions)
            × Rows
                (keep
                  (λ s. not (is_stale session_absolute session_idle (env.time w.history) s))
                  w.db.sessions)
                v)
  unfolding purge_sessions
  Ensures-purge w = Ensures-bind _ _ _ (Ensures-start w) (λ now.
      Ensures-given _ (λ (is_now : now ≡ env.time w.history).
        Ensures-bind _ _ _ (Ensures-gets _) (λ rows.
          Ensures-then
            (λ v.
              (rows
                ≡ keep (is_stale session_absolute session_idle (env.time w.history)) w.db.sessions)
              × Rows
                  (keep (λ s. not (is_stale session_absolute session_idle (env.time w.history) s))
                    w.db.sessions)
                  v)
            _ _
            (Ensures-modify _ _
              (λ v (is_rows, same). (is_rows ∙ rw (same, is_now) refl, rw (same, is_now) refl)))
            (Ensures-pure rows _ (λ v p. p)))))
