-- ===== src/Web/Admitted.antt =====
-- `require_admin`: which requests are served.
use vault_db_access.Prelude.{◌⊎◌, inl, inr, ◌≡◌, refl, ap, ◌∙◌, true, Option, none, some, Text, ok}
use vault_db_access.Rows.{Session}
use vault_db_access.Effects.{World, Env}
use vault_db_access.Effects.Ensures.{
  Ensures, Ensures-bind, Ensures-then, Ensures-if, Ensures-pure, Ensures-raise, Ensures-given,
}
use vault_db_access.Effects.Returns.{Returns}
use vault_db_access.Web.Http.{Request, compare_digest}
use vault_db_access.Web.Origin.{check_origin}
use vault_db_access.Web.Sessions.{
  current_session, submitted_token, is_safe, check_csrf, admin_of, require_admin,
}
use vault_db_access.Web.Kept.{Onward-frame, Ensures-asks, Ensures-lift, Ensures-test}
use vault_db_access.Web.Vouched.{Vouched, Post, Ensures-current_session}

-- The browser says that the request is the portal's own, and the request carries the session's token.
pub record Genuine (env : Env) (r : Request) (s : Session) : Type 0 where
  pub own_origin : check_origin env.config r ≡ ok tt
  pub token : Text
  pub submitted : submitted_token r ≡ ok token
  pub same_token : compare_digest token s.csrf ≡ ok true

-- What is known of a request that `require_admin` lets through.
pub record Admitted (env : Env) (u : World) (r : Request) (s : Session) (w : World) : Type 0 where
  pub vouched : Vouched env u r s w
  pub genuine : (is_safe r.method ≡ true) ⊎ Genuine env r s

module _ {env : Env} where
  Ensures-check_csrf :
      (P : World → Type 0) (r : Request) (s : Session)
      → Ensures env P (check_csrf r s) (λ _ w. Genuine env r s × P w)
  unfolding check_csrf
  Ensures-check_csrf P r s = Ensures-bind _ _ _ (Ensures-asks (λ env. env.config)) (λ config.
      Ensures-given _ (λ is_config. Ensures-then _ _ _ (Ensures-test (check_origin config r)) (
        Ensures-given _ (λ own_origin.
          Ensures-bind _ _ _ (Ensures-lift (submitted_token r)) (λ token.
            Ensures-given _ (λ submitted.
              Ensures-bind _ _ _ (Ensures-lift (compare_digest token s.csrf)) (λ same.
                Ensures-given _ (λ compared.
                  Ensures-if same _ _
                    (λ is_same. Ensures-pure tt _ (λ w p. (
                      record {
                        own_origin = rw is_config at own_origin;
                        token = token;
                        submitted = submitted;
                        same_token = compared ∙ ap ok is_same;
                      },
                      p,
                    )))
                    (λ _. Ensures-raise _)))))))))

  Ensures-admin_of :
      (u : World) (r : Request) (o : Option Session)
      → Ensures env (Post env u r o) (admin_of r o) (λ s w. Admitted env u r s w)
  unfolding admin_of
  Ensures-admin_of u r none = Ensures-raise _
  Ensures-admin_of u r (some s) =
      Ensures-if (is_safe r.method) _ _
        (λ safe. Ensures-pure s _ (λ w post. record { vouched = post s refl; genuine = inl safe }))
        (λ _. Ensures-then _ _ _ (Ensures-check_csrf (Post env u r (some s)) r s) (
          Ensures-pure s _
            (λ w (genuine, post). record { vouched = post s refl; genuine = inr genuine })))

-- When `require_admin` lets a request through, then the request's cookie is one under whose hash the
-- table held the session that is returned; that session was within its age and idle limits; Vault
-- either confirmed within the re-check interval, or confirmed during this request, that its user has
-- the administrators' policy and that its token is alive; if the method may change something, then
-- the request's origin was accepted and the token that it submits is the session's; and the table
-- afterwards differs only in the times of that session.
pub require_admin-Admitted :
    (r : Request) (env : Env) (w w' : World) (s : Session)
    → Returns (require_admin r) env w s w'
    → Admitted env w r s w'
unfolding require_admin
require_admin-Admitted r env w w' s h =
    (Ensures-bind (Post env w r) (current_session r) (admin_of r) (Ensures-current_session w r)
        (Ensures-admin_of w r)).when
      w w' s (Onward-frame.stay w) h
