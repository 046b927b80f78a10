-- ===== src/Web/Issuing.antt =====
-- The routes of main.py that issue and revoke move the rows of `grants` along the lifecycle.
use vault_db_access.Web.Routes.{issue_route, revoke_route, create_grant_form, api_create_grant}
use vault_db_access.Grants.Lifecycle.Closing.{revoke-Lives}
use vault_db_access.Grants.Lifecycle.Issuing.{issue-Lives}
use vault_db_access.Effects.Frame.{
  Follows-pure, Follows-raise, Follows-lift, Follows-if, Follows-bind, Follows-try_else,
}
use vault_db_access.Web.Untouched.{admit-Lives, renamed-Lives}
use vault_db_access.Web.Unissued.{index-SameGrants, form_failed-SameGrants}
use vault_db_access.Prelude.{none, Text}
use vault_db_access.Models.{GrantRequest}
use vault_db_access.Rows.{Session}
use vault_db_access.Effects.{M}
use vault_db_access.Effects.Frame.{Follows}
use vault_db_access.Grants.Lifecycle.Relation.{Lives, Lives-same, Lives-frame, SameGrants}
use vault_db_access.Web.Http.{Request}

-- An action that leaves the rows alone moves them along the lifecycle.
Lives-Untouched : {A : Type 0} (m : M A) → Follows SameGrants m → Follows Lives m
Lives-Untouched m h = record { at = λ env w. Lives-same (h.at env w) }

issue_route-Lives :
    (r : Request) (s : Session) (req : GrantRequest) → Follows Lives (issue_route r s req)
unfolding issue_route
issue_route-Lives r s req =
    renamed-Lives _ _ (admit-Lives _ _ (issue-Lives req s.username r.request_id))

pub create_grant_form-Lives : (r : Request) (s : Session) → Follows Lives (create_grant_form r s)
unfolding create_grant_form
create_grant_form-Lives r s = Follows-bind Lives-frame _ _ (Follows-lift Lives-frame _) (λ form.
    Follows-try_else Lives-frame _ _ _
      (Follows-bind Lives-frame _ _ (Follows-lift Lives-frame _) (issue_route-Lives r s))
      (λ e. Lives-Untouched _ (form_failed-SameGrants r s e))
      (λ result. Lives-Untouched _ (index-SameGrants r s _ none 200)))

pub revoke_route-Lives :
    (r : Request) (s : Session) (grant_id : Text) → Follows Lives (revoke_route r s grant_id)
unfolding revoke_route
revoke_route-Lives r s grant_id =
    Follows-bind Lives-frame _ _
      (renamed-Lives _ _ (admit-Lives _ _ (revoke-Lives grant_id s.username r.request_id)))
      (λ g. Follows-pure Lives-frame _)

pub api_create_grant-Lives :
    (r : Request) (s : Session) (req : GrantRequest) → Follows Lives (api_create_grant r s req)
unfolding api_create_grant
api_create_grant-Lives r s req =
    Follows-if _ _ _
      (Follows-bind Lives-frame _ _ (issue_route-Lives r s req) (λ p. Follows-pure Lives-frame _))
      (Follows-raise Lives-frame _)
