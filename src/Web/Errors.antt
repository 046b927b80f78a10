-- ===== src/Web/Errors.antt =====
-- The exception handlers of main.py.
use vault_db_access.Prelude.{
  codes, ◌++◌, Exn, says, vault_unavailable, http_exception, not_authenticated, too_large,
  validation_error, if◌then◌else◌, is_exception,
}
use vault_db_access.Effects.{M, try_catch, pure, raise}
use vault_db_access.Web.Http.{Request, Response, answer, redirect, detail, wants_json, is_empty}

-- `_internal`
unfoldable pub internal_error : Request → Response
internal_error r =
    answer 500 (detail (says (codes "internal error (request " ++ (r.request_id ++ codes ")"))))

-- `_too_large`, `_unauth`, `_validation`, `_vault_down`, FastAPI's own handler of `HTTPException`, and
-- `_internal` for the rest
unfoldable pub respond : Request → Exn → Response
unfolding internal_error wants_json
respond r too_large = answer 413 (detail (says (codes "request body too large")))
respond r not_authenticated =
    if wants_json r
    then answer 401 (detail (says (codes "not authenticated")))
    else redirect (codes "/login")
respond r (validation_error message) =
    answer 400 (detail (says (if is_empty message then codes "invalid request" else message)))
respond r vault_unavailable =
    answer 503 (detail (says (codes "Vault is unavailable (sealed or unreachable)")))
respond r (http_exception status d) = answer status (detail d)
respond r e = internal_error r

-- A route with the handlers around it.
unfoldable pub served : Request → M Response → M Response
unfolding respond
served r m = try_catch m λ e. if is_exception e then pure (respond r e) else raise e
