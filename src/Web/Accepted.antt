-- ===== src/Web/Accepted.antt =====
-- `check_origin`: which requests count as the portal's own.
use vault_db_access.Prelude.{
  ◌≡◌, refl, ◌↔◌, ◌⊎◌, inl, inr, Bool, true, false, List, [], ◌∷◌, ◌==◌, eq_Text, if◌then◌else◌,
  contains, Text, codes, ok, ok->>=, arith, Bool-cases,
}
use vault_db_access.Urls.{Url, urlsplit}
use vault_db_access.Effects.{Config}
use vault_db_access.Web.Http.{Request, header_or_empty, is_empty}
use vault_db_access.Web.Origin.{
  allowed_hosts, origin_not_allowed, check_listed, check_headers, check_origin,
}

-- The origin's host is one of the hosts that are allowed.
pub record Listed (config : Config) (r : Request) (origin : Text) : Type 0 where
  pub hosts : List Text
  pub allowed : allowed_hosts config r ≡ ok hosts
  pub not_null : (origin == codes "null") ≡ false
  pub parts : Url
  pub split : urlsplit origin ≡ ok parts
  pub among : contains hosts parts.netloc ≡ true

-- Not sent by another site, and not without any sign of where it comes from.
pub record OwnRequest (config : Config) (r : Request) (site origin : Text) : Type 0 where
  pub same_site :
      (is_empty site ≡ true) ⊎ (contains (codes "same-origin" ∷ codes "none" ∷ []) site ≡ true)
  pub from_here :
      ((is_empty origin ≡ true) × (is_empty site ≡ false))
      ⊎ ((is_empty origin ≡ false) × Listed config r origin)

if-ok : (b : Bool) → (if b then ok tt else origin_not_allowed) ≡ ok tt → b ≡ true
if-ok true h = refl
if-ok false h = cc

check_listed-Listed :
    (config : Config) (r : Request) (origin : Text)
    → check_listed config r origin ≡ ok tt
    → Listed config r origin
unfolding check_listed
check_listed-Listed config r origin h =
    let (hosts, allowed, rest) = ok->>= (allowed_hosts config r) _ h in
    elim (Bool-cases (origin == codes "null")) [
      | inl null ↦ cc (rw null at rest)
      | inr not_null ↦
          let (parts, split, last) = ok->>= (urlsplit origin) _ (rw not_null at rest) in
          record {
            hosts = hosts;
            allowed = allowed;
            not_null = not_null;
            parts = parts;
            split = split;
            among = if-ok (contains hosts parts.netloc) last;
          }
    ]

Listed-check_listed :
    (config : Config) (r : Request) (origin : Text)
    → Listed config r origin
    → check_listed config r origin ≡ ok tt
unfolding check_listed
Listed-check_listed config r origin l = rw l.allowed (rw l.not_null (rw l.split (rw l.among refl)))

check_headers-OwnRequest :
    (config : Config) (r : Request) (site origin : Text)
    → check_headers config r site origin ≡ ok tt
    → OwnRequest config r site origin
unfolding check_headers
check_headers-OwnRequest config r site origin h = elim (Bool-cases (is_empty site)) [
  | inl no_site ↦ elim (Bool-cases (is_empty origin)) [
    | inl no_origin ↦ cc (rw (no_site, no_origin) at h)
    | inr with_origin ↦ record {
      same_site = inl no_site;
      from_here =
          inr (with_origin, check_listed-Listed config r origin (rw (no_site, with_origin) at h));
    }
  ]
  | inr with_site ↦ elim (Bool-cases (contains (codes "same-origin" ∷ codes "none" ∷ []) site)) [
    | inr cross ↦ cc (rw (with_site, cross) at h)
    | inl same ↦ elim (Bool-cases (is_empty origin)) [
      | inl no_origin ↦ record { same_site = inr same; from_here = inl (no_origin, with_site) }
      | inr with_origin ↦ record {
        same_site = inr same;
        from_here = inr (
          with_origin,
          check_listed-Listed config r origin (rw (with_site, same, with_origin) at h),
        );
      }
    ]
  ]
]

OwnRequest-check_headers :
    (config : Config) (r : Request) (site origin : Text)
    → OwnRequest config r site origin
    → check_headers config r site origin ≡ ok tt
unfolding check_headers
OwnRequest-check_headers config r site origin own = elim own.from_here [
  | inl (no_origin, with_site) ↦ elim own.same_site [
    | inl no_site ↦ cc
    | inr same ↦ rw (with_site, same, no_origin) refl
  ]
  | inr (with_origin, listed) ↦
      let accepted = Listed-check_listed config r origin listed in
      elim own.same_site [
        | inl no_site ↦ rw (no_site, with_origin) accepted
        | inr same ↦ ground (arith, same, with_origin, accepted)
      ]
]

-- `check_origin` accepts a request exactly when `Sec-Fetch-Site` is absent, `same-origin` or `none`, and
-- either there is such a header and no `Origin`, or `Origin` is a URL other than `null` whose network
-- location is the `Host` header's, an extra origin's or the public origin's.
pub check_origin-OwnRequest :
    (config : Config) (r : Request)
    → (check_origin config r ≡ ok tt)
      ↔ OwnRequest config r
          (header_or_empty (codes "sec-fetch-site") r)
          (header_or_empty (codes "origin") r)
unfolding check_origin
check_origin-OwnRequest config r =
    let site = header_or_empty (codes "sec-fetch-site") r in
    let origin = header_or_empty (codes "origin") r in
    (check_headers-OwnRequest config r site origin, OwnRequest-check_headers config r site origin)
