-- ===== src/Web/Answers.antt =====
-- What the routes answer: statuses, and exceptions that the handlers turn into answers.
use vault_db_access.Prelude.{
  ◌||◌, starts_with, if◌then◌else◌, Bool-cases, inl, inr, ℕ, ◌≡◌, refl, Bool, true, false, List, [],
  ◌∷◌, Text, codes, Exn, is_exception, eq_ℕ, contains,
}
use vault_db_access.Prelude.{
  value_error, runtime_error, busy, not_found, vault_unavailable, permission_error, forbidden,
  invalid_request, invalid_path, vault_down, other_vault_error, os_error, integrity_error,
  http_exception, not_authenticated, too_large, validation_error, invalid_model, other_exception,
  base_exception,
}
use vault_db_access.Models.{GrantRequest}
use vault_db_access.Rows.{Session}
use vault_db_access.Effects.{try_catch, M, raise, pure}
use vault_db_access.Effects.Yields.{
  Yields, Yields-pure, Yields-raise, Yields-if, Yields-any, Yields-bind, Yields-try_catch,
}
use vault_db_access.Web.Http.{
  header_or_empty, Body, grant, redirect, Request, Response, answer, wants_json,
}
use vault_db_access.Web.Errors.{respond, served}
use vault_db_access.Web.Portal.{
  handle, dispatch, api_grants_route, revoke_grant, post_api_grants, post_revoke,
}
use vault_db_access.Web.Sessions.{require_admin}
use vault_db_access.Effects.{
  Outcome, done, raised, killed, hung, try_else, continue, Env, World, ◌>>=◌,
}
use vault_db_access.Web.Routes.{
  issue_error, issue_route, revoke_error, revoke_route, api_create_grant,
}

-- It answers with one of the statuses, or ends with what is no `Exception`.
abbrev pub Responds : List ℕ → M Response → Type 0
Responds statuses =
    Yields (λ response. contains statuses response.status ≡ true) (λ e. is_exception e ≡ false)

-- The exception's own answer has one of the statuses.
abbrev pub IsAnswered : List ℕ → Request → Exn → Type 0
IsAnswered statuses r e = is_exception e ≡ true → contains statuses (respond r e).status ≡ true

served-Responds :
    (statuses : List ℕ) (r : Request) (m : M Response)
    → Yields (λ response. contains statuses response.status ≡ true) (IsAnswered statuses r) m
    → Responds statuses (served r m)
unfolding served
served-Responds statuses r m h = Yields-try_catch m _ h (λ e answered. handled e answered)
  where
    handled :
        (e : Exn)
        → IsAnswered statuses r e
        → Responds statuses (if is_exception e then pure (respond r e) else raise e)
    handled e answered = elim (Bool-cases (is_exception e)) [
      | inl caught ↦ rw caught (Yields-pure _ (answered caught))
      | inr passed ↦ rw passed (Yields-raise _ passed)
    ]

abbrev pub issue_statuses : List ℕ
issue_statuses = 200 ∷ 400 ∷ 415 ∷ 502 ∷ 503 ∷ []

issue_error-IsAnswered : (r : Request) (e : Exn) → IsAnswered issue_statuses r (issue_error r e)
unfolding issue_error respond
issue_error-IsAnswered r (value_error m) = λ h. refl
issue_error-IsAnswered r (runtime_error m) = λ h. refl
issue_error-IsAnswered r busy = λ h. refl
issue_error-IsAnswered r not_found = λ h. refl
issue_error-IsAnswered r vault_unavailable = λ h. refl
issue_error-IsAnswered r permission_error = λ h. refl
issue_error-IsAnswered r (forbidden s) = λ h. refl
issue_error-IsAnswered r (invalid_request s) = λ h. refl
issue_error-IsAnswered r (invalid_path s) = λ h. refl
issue_error-IsAnswered r (vault_down s) = λ h. refl
issue_error-IsAnswered r (other_vault_error s) = λ h. refl
issue_error-IsAnswered r os_error = λ h. refl
issue_error-IsAnswered r integrity_error = λ h. refl
issue_error-IsAnswered r (http_exception n d) = λ h. refl
issue_error-IsAnswered r not_authenticated = λ h. refl
issue_error-IsAnswered r too_large = λ h. refl
issue_error-IsAnswered r (validation_error s) = λ h. refl
issue_error-IsAnswered r invalid_model = λ h. refl
issue_error-IsAnswered r (other_exception s) = λ h. refl
issue_error-IsAnswered r (base_exception s) = λ h. cc

abbrev pub revoke_statuses : List ℕ
revoke_statuses = 200 ∷ 303 ∷ 404 ∷ 502 ∷ 503 ∷ []

revoke_error-IsAnswered : (r : Request) (e : Exn) → IsAnswered revoke_statuses r (revoke_error r e)
unfolding revoke_error respond
revoke_error-IsAnswered r (value_error m) = λ h. refl
revoke_error-IsAnswered r (runtime_error m) = λ h. refl
revoke_error-IsAnswered r busy = λ h. refl
revoke_error-IsAnswered r not_found = λ h. refl
revoke_error-IsAnswered r vault_unavailable = λ h. refl
revoke_error-IsAnswered r permission_error = λ h. refl
revoke_error-IsAnswered r (forbidden s) = λ h. refl
revoke_error-IsAnswered r (invalid_request s) = λ h. refl
revoke_error-IsAnswered r (invalid_path s) = λ h. refl
revoke_error-IsAnswered r (vault_down s) = λ h. refl
revoke_error-IsAnswered r (other_vault_error s) = λ h. refl
revoke_error-IsAnswered r os_error = λ h. refl
revoke_error-IsAnswered r integrity_error = λ h. refl
revoke_error-IsAnswered r (http_exception n d) = λ h. refl
revoke_error-IsAnswered r not_authenticated = λ h. refl
revoke_error-IsAnswered r too_large = λ h. refl
revoke_error-IsAnswered r (validation_error s) = λ h. refl
revoke_error-IsAnswered r invalid_model = λ h. refl
revoke_error-IsAnswered r (other_exception s) = λ h. refl
revoke_error-IsAnswered r (base_exception s) = λ h. cc

-- Whatever is caught is raised again under another name.
Yields-renamed :
    {A : Type 0} {E : Exn → Type 0} (m : M A) (f : Exn → Exn)
    → ((e : Exn) → E (f e))
    → Yields (λ _. Unit) E (try_catch m (λ e. raise (f e)))
Yields-renamed m f h = Yields-try_catch m _ (Yields-any m) (λ e _. Yields-raise (f e) (h e))

shown_or_sent :
    (b : Bool) (body : Body)
    → contains revoke_statuses (if b then answer 200 body else redirect (codes "/")).status ≡ true
shown_or_sent true body = refl
shown_or_sent false body = refl

-- Of a route behind `require_admin`, by what `require_admin` did and how the route ended: refused, the
-- handlers answer its exception, if it is an `Exception`; let through, the route answers with one of
-- the statuses, or ends with what is no `Exception`; and what does not return does not answer.
abbrev pub Ends : List ℕ → Request → Outcome Session → Outcome Response → Type 0
Ends statuses r (done s) (done response) = contains statuses response.status ≡ true
Ends statuses r (done s) (raised e) = is_exception e ≡ false
Ends statuses r (done s) killed = Unit
Ends statuses r (done s) hung = Unit
Ends statuses r (raised e) o = o ≡ (if is_exception e then done (respond r e) else raised e)
Ends statuses r killed o = o ≡ killed
Ends statuses r hung o = o ≡ hung

Responds-Ends :
    (statuses : List ℕ) (r : Request) (s : Session) (m : M Response) (env : Env) (w : World)
    → Responds statuses m
    → (o : Outcome Response) → (m env w).0 ≡ o
    → Ends statuses r (done s) o
Responds-Ends statuses r s m env w h (done response) e = h.returns env w response e
Responds-Ends statuses r s m env w h (raised x) e = h.raises env w x e
Responds-Ends statuses r s m env w h killed e = tt
Responds-Ends statuses r s m env w h hung e = tt

behind-Ends :
    (statuses : List ℕ) (r : Request) (f : Session → M Response) (env : Env) (w : World)
    → ((s : Session) → Responds statuses (served r (f s)))
    → Ends statuses r (require_admin r env w).0 (served r (require_admin r >>= f) env w).0
unfolding served try_catch try_else ◌>>=◌ raise pure
behind-Ends statuses r f env w h = go (require_admin r env w).0
  where
    go :
        (o : Outcome Session)
        → Ends statuses r o
            (continue
              (continue o raise f env (require_admin r env w).1).0
              (λ e. if is_exception e then pure (respond r e) else raise e)
              pure
              env
              (continue o raise f env (require_admin r env w).1).1).0
    go (done s) = Responds-Ends statuses r s (served r (f s)) env _ (h s) _ refl
    go (raised e) = elim (Bool-cases (is_exception e)) [
      | inl caught ↦ rw caught refl
      | inr passed ↦ rw passed refl
    ]
    go killed = refl
    go hung = refl

issue-Responds :
    (r : Request) (req : GrantRequest) (s : Session)
    → Responds issue_statuses (served r (api_create_grant r s req))
unfolding api_create_grant issue_route respond
issue-Responds r req s = served-Responds issue_statuses r _ (
    Yields-if _ _ _
      (Yields-bind _ _ (Yields-renamed _ (issue_error r) (issue_error-IsAnswered r))
        (λ shown _. Yields-pure _ refl))
      (Yields-raise (http_exception 415 _) (λ h. refl)))

revoke-Responds :
    (r : Request) (grant_id : Text) (s : Session)
    → Responds revoke_statuses (served r (revoke_route r s grant_id))
unfolding revoke_route
revoke-Responds r grant_id s = served-Responds revoke_statuses r _ (
    Yields-bind _ _ (Yields-renamed _ (revoke_error r) (revoke_error-IsAnswered r)) (λ g _.
      Yields-pure _ (
        shown_or_sent
          (wants_json r
            || starts_with (header_or_empty (codes "accept") r) (codes "application/json"))
          (grant g))))

-- Whatever happens outside, the portal answers a request to create a grant as JSON, and one to revoke a
-- grant, as follows. If `require_admin` raises an `Exception`, the answer is that of its handler. If `require_admin` lets the request through, the answer to the first is 200,
-- 400, 415, 502 or 503, and that to the second 200, 303, 404, 502 or 503, and no `Exception` is left
-- unanswered. What is no `Exception` is passed on, and a killed process answers nothing.
pub handle-Ends :
    (r : Request) (req : GrantRequest) (grant_id : Text) (env : Env) (w : World)
    → Ends issue_statuses r (require_admin r env w).0 (handle (post_api_grants req) r env w).0
      × Ends revoke_statuses r (require_admin r env w).0 (handle (post_revoke grant_id) r env w).0
unfolding handle dispatch api_grants_route revoke_grant
handle-Ends r req grant_id env w = (
  behind-Ends issue_statuses r (λ s. api_create_grant r s req) env w (issue-Responds r req),
  behind-Ends revoke_statuses r (λ s. revoke_route r s grant_id) env w (revoke-Responds r grant_id),
)
