-- ===== src/Web/LoggedIn.antt =====
-- `login_submit`: who gets a session.
use vault_db_access.Prelude.{
  or_else, codes, eq_Text, ◌≡◌, refl, ap, ◌∙◌, true, false, Option, none, some, List, [], Text, ok,
  lookup,
}
use vault_db_access.Rows.{Session}
use vault_db_access.Effects.{World, Env}
use vault_db_access.Effects.Ensures.{
  Ensures-raise, Ensures-if, Ensures-weaken, Ensures-pure, Ensures, Ensures-bind, Ensures-then,
  Ensures-given,
}
use vault_db_access.Effects.Returns.{Returns}
use vault_db_access.Web.Http.{is_empty, Request, Response, pre_cookie, compare_digest}
use vault_db_access.Web.Origin.{check_origin}
use vault_db_access.Web.Login.{check_pre, login_submit, form_text}
use vault_db_access.Web.Kept.{Since, Onward-frame, Ensures-lift, Ensures-test, Ensures-asks}
use vault_db_access.Web.Entered.{LoginEnds, Ensures-do_login}

-- What is known of a login that answers: it came from the portal's own page, with the token that this
-- page set.
pub record LoginAnswered (env : Env) (u : World) (r : Request) (response : Response)
    (after : List Session) : Type 0 where
  pub own_origin : check_origin env.config r ≡ ok tt
  pub form : List (Text × Text)
  pub is_form : r.form ≡ ok form
  pub pre : Text
  pub carried : lookup pre_cookie r.cookies ≡ some pre
  pub same_token : compare_digest (form_text (codes "csrf_token") form) pre ≡ ok true
  pub ends :
      LoginEnds env u r
        (form_text (codes "username") form)
        (form_text (codes "password") form)
        response
        after

is_empty-or_else : (o : Option Text) → is_empty (or_else o []) ≡ false → o ≡ some (or_else o [])
is_empty-or_else none h = cc
is_empty-or_else (some t) h = refl

module _ {env : Env} where
  Ensures-check_pre :
      (P : World → Type 0) (pre : Text) (form : List (Text × Text))
      → Ensures env P (check_pre pre form) (λ _ w.
        (is_empty pre ≡ false)
        × ((compare_digest (form_text (codes "csrf_token") form) pre ≡ ok true) × P w))
  unfolding check_pre
  Ensures-check_pre P pre form =
      Ensures-bind
        (λ same w.
          (same ≡ true
            → (is_empty pre ≡ false)
              × (compare_digest (form_text (codes "csrf_token") form) pre ≡ ok true))
          × P w)
        _ _
        (Ensures-if (is_empty pre) _ _ (λ none_set. Ensures-pure false _ (λ w p. ((λ h. cc), p)))
          (λ set.
            Ensures-weaken _ (λ w p. p)
              (λ same w (compared, p). ((λ is_same. (set, compared ∙ ap ok is_same)), p))
              (Ensures-lift (compare_digest (form_text (codes "csrf_token") form) pre))))
        (λ same. Ensures-given _ (λ tested.
          Ensures-if same _ _
            (λ is_same. Ensures-pure tt _ (λ w p. ((tested is_same).0, ((tested is_same).1, p))))
            (λ _. Ensures-raise _)))

  Ensures-login_submit :
      (u : World) (r : Request)
      → Ensures env
          (Since u)
          (login_submit r)
          (λ response w. LoginAnswered env u r response w.db.sessions)
  unfolding login_submit
  Ensures-login_submit u r = Ensures-bind _ _ _ (Ensures-asks (λ env. env.config)) (λ config.
      Ensures-given _ (λ is_config. Ensures-then _ _ _ (Ensures-test (check_origin config r)) (
        Ensures-given _ (λ own_origin. Ensures-bind _ _ _ (Ensures-lift r.form) (λ form.
          Ensures-given _ (λ is_form. Ensures-then _ _ _ (Ensures-check_pre (Since u) _ form) (
            Ensures-given _ (λ set. Ensures-given _ (λ same_token.
              Ensures-weaken _ (λ w p. p)
                (λ response w ends. record {
                  own_origin = rw is_config at own_origin;
                  form = form;
                  is_form = is_form;
                  pre = or_else (lookup pre_cookie r.cookies) [];
                  carried = is_empty-or_else (lookup pre_cookie r.cookies) set;
                  same_token = same_token;
                  ends = ends;
                })
                (Ensures-do_login u r _ _))))))))))

-- When `login_submit` answers, then the request's origin was accepted and its form carried the token of
-- the login page's cookie. Either it redirects: Vault took the password of the form and lists the
-- administrators' policy for the user, the session that the browser had is gone, one was added under
-- a free key for this user with the token that Vault gave, and the only cookie set is its identifier, hidden
-- from scripts. Or it answers 401 or 403 and the table of sessions is as before.
pub login_submit-Answered :
    (r : Request) (env : Env) (w w' : World) (response : Response)
    → Returns (login_submit r) env w response w'
    → LoginAnswered env w r response w'.db.sessions
login_submit-Answered r env w w' response h =
    (Ensures-login_submit w r).when w w' response (Onward-frame.stay w) h
