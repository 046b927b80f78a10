-- ===== src/Web/Origin.antt =====
-- `check_origin`
use vault_db_access.Prelude.{
  not, ◌&&◌, List, [], ◌∷◌, ◌++◌, ◌==◌, eq_Text, if◌then◌else◌, contains, Text, codes, Result, ok,
  err, ◌>>=◌, http_exception, says,
}
use vault_db_access.Urls.{urlsplit}
use vault_db_access.Effects.{Config}
use vault_db_access.Web.Http.{Request, header, header_or_empty, is_empty}

-- `{urlsplit(o).netloc for o in origins}`
unfoldable pub netlocs : List Text → Result (List Text)
unfolding urlsplit
netlocs [] = ok []
netlocs (o ∷ os) = do u ← urlsplit o; rest ← netlocs os; ok (u.netloc ∷ rest)

-- The hosts that `allowed` holds.
unfoldable pub allowed_hosts : Config → Request → Result (List Text)
unfolding netlocs
allowed_hosts config r = do
  extra ← netlocs config.extra_origins
  public ← if is_empty config.public_origin then ok [] else netlocs (config.public_origin ∷ [])
  ok (header_or_empty (codes "host") r ∷ (extra ++ public))

abbrev pub origin_not_allowed : Result (Unit {0})
origin_not_allowed = err (http_exception 403 (says (codes "origin not allowed")))

-- The test of the `Origin` header.
unfoldable pub check_listed : Config → Request → Text → Result (Unit {0})
unfolding allowed_hosts
check_listed config r origin = do
  allowed ← allowed_hosts config r
  if origin == codes "null"
      then origin_not_allowed
      else (do u ← urlsplit origin; if contains allowed u.netloc then ok tt else origin_not_allowed)

-- The tests of both headers.
unfoldable pub check_headers : Config → Request → Text → Text → Result (Unit {0})
unfolding check_listed
check_headers config r site origin =
    if not (is_empty site) && not (contains (codes "same-origin" ∷ codes "none" ∷ []) site)
    then err (http_exception 403 (says (codes "cross-site request rejected")))
    else (if is_empty origin && is_empty site
        then err (http_exception 403 (says (codes "Origin header required")))
        else (if is_empty origin then ok tt else check_listed config r origin))

unfoldable pub check_origin : Config → Request → Result (Unit {0})
unfolding check_headers header
check_origin config r =
    check_headers config r (header_or_empty (codes "sec-fetch-site") r)
      (header_or_empty (codes "origin") r)
