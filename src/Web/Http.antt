-- ===== src/Web/Http.antt =====
-- What main.py reads of a request, and what it answers.
use vault_db_access.Prelude.{
  or_else, lookup, ℕ, Bool, true, false, ◌&&◌, ◌||◌, Option, none, some, List, [], ◌∷◌, ◌++◌, ◌==◌,
  eq_Text, eq_ℕ, ltb, if◌then◌else◌, all, Text, codes, starts_with, has_part, Result, ok, err,
  other_exception, Detail,
}
use vault_db_access.Models.{DbType}
use vault_db_access.Grants.{PublicGrant}
use vault_db_access.Effects.{Config}

-- A request as Starlette hands it over: header names are in lower case, and the body is read as a
-- form or is refused, by the size limit or by the parser.
pub record Request : Type 0 where
  pub method : Text
  pub path : Text
  pub scheme : Text
  pub request_id : Text
  pub headers : List (Text × Text)
  pub cookies : List (Text × Text)
  pub form : Result (List (Text × Text))

unfoldable pub header : Text → Request → Option Text
unfolding lookup
header name r = lookup name r.headers

abbrev pub header_or_empty : Text → Request → Text
header_or_empty name r = or_else (header name r) []

-- `not x` of a text, and of a text or `None`
abbrev pub is_empty : Text → Bool
is_empty [] = true
is_empty (c ∷ s) = false

abbrev pub is_falsy : Option Text → Bool
is_falsy none = true
is_falsy (some s) = is_empty s

-- What a cookie is set with; `max_age` in seconds.
pub record Cookie : Type 0 where
  pub name : Text
  pub value : Text
  pub max_age : ℕ
  pub http_only : Bool
  pub same_site : Text
  pub secure : Bool

-- What the index page shows.
pub record IndexPage : Type 0 where
  pub username : Text
  pub csrf : Text
  pub pg_tables : List Text
  pub ch_tables : List Text
  pub grants : List PublicGrant
  pub result : Option (PublicGrant × Text)
  pub error : Option Detail

pub data Body : Type 0 where
  empty : Body
  -- `{"detail": …}`
  detail : Detail → Body
  -- login.html with its error and its token, index.html and settings.html
  login_page : Option Text → Text → Body
  index_page : IndexPage → Body
  settings_page : Text → Text → Option Text → Body
  -- the values of the JSON API
  issued : PublicGrant → Text → Body
  grant : PublicGrant → Body
  grant_list : List PublicGrant → Body
  session_info : Text → Text → Body
  table_list : List Text → Body
  rotated : DbType → Body
  -- `healthz`: the test hooks and the seconds between two re-checks
  health : Bool → ℕ → Body

pub record Response : Type 0 where
  pub status : ℕ
  pub location : Option Text
  pub set_cookies : List Cookie
  pub deleted_cookies : List Text
  pub body : Body

abbrev pub answer : ℕ → Body → Response
answer status body = record {
  status = status;
  location = none;
  set_cookies = [];
  deleted_cookies = [];
  body = body;
}

-- `RedirectResponse(url, status_code=303)`
abbrev pub redirect : Text → Response
redirect url = record {
  status = 303;
  location = some url;
  set_cookies = [];
  deleted_cookies = [];
  body = empty;
}

-- `COOKIE` and `PRE_COOKIE`
abbrev pub session_cookie : Text
session_cookie = codes "vdba_sid"

abbrev pub pre_cookie : Text
pre_cookie = codes "vdba_pre"

-- `_wants_json`
unfoldable pub wants_json : Request → Bool
unfolding header
wants_json r =
    starts_with r.path (codes "/api/")
    || has_part (codes "application/json") (header_or_empty (codes "content-type") r)

-- `_secure_cookie`
unfoldable pub secure_cookie : Config → Request → Bool
unfolding header
secure_cookie config r =
    if config.cookie_secure == codes "auto"
    then (r.scheme == codes "https")
      || (header_or_empty (codes "x-forwarded-proto") r == codes "https")
    else config.cookie_secure == codes "1"

-- `_set_cookie`
unfoldable pub set_cookie : Config → Request → Text → Text → ℕ → Response → Response
unfolding secure_cookie
set_cookie config r name value max_age response = record response {
  set_cookies =
      response.set_cookies
      ++ (record {
        name = name;
        value = value;
        max_age = max_age;
        http_only = true;
        same_site = codes "lax";
        secure = secure_cookie config r;
      }
          ∷ []);
}

abbrev pub delete_cookie : Text → Response → Response
delete_cookie name response = record response {
  deleted_cookies = response.deleted_cookies ++ (name ∷ []);
}

-- `hmac.compare_digest` of two `str`: a `TypeError` beyond ASCII
unfoldable pub compare_digest : Text → Text → Result Bool
compare_digest a b =
    if all (λ c. ltb c 128) a && all (λ c. ltb c 128) b
    then ok (a == b)
    else err (other_exception (codes "TypeError"))
