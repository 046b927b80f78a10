-- ===== src/Urls.antt =====
-- What the program reads of `urllib.parse.urlsplit`: the scheme, the network location and the host
-- name. The further checks of `urlsplit` on what stands in square brackets and on characters beyond
-- ASCII, which only refuse more, are left out.
use vault_db_access.Prelude.{
  ℕ, Bool, true, false, not, ◌&&◌, ◌||◌, Option, none, some, [], ◌∷◌, ◌++◌, ◌==◌, eq_ℕ, leb,
  if◌then◌else◌, all, keep, contains, Text, lower, value_error, invalid_ipv6_url, Result, ok, err,
}

-- `s.partition(c)`: what stands before the first `c`, whether there is one, and what stands after it.
unfoldable pub partition : ℕ → Text → Text × Bool × Text
partition c [] = ([], false, [])
partition c (d ∷ s) =
    let (before, found, after) = partition c s in
    if d == c then ([], true, s) else (d ∷ before, found, after)

-- `s.rpartition(c)[2]`
unfoldable pub after_last : ℕ → Text → Text
after_last c [] = []
after_last c (d ∷ s) =
    let rest = after_last c s in if contains s c then rest else (if d == c then s else d ∷ s)

unfoldable pub drop_controls : Text → Text
drop_controls [] = []
drop_controls (c ∷ s) = if leb c 0x20 then drop_controls s else c ∷ s

abbrev pub is_alpha : ℕ → Bool
is_alpha c = (leb b'A' c && leb c b'Z') || (leb b'a' c && leb c b'z')

-- `scheme_chars`
abbrev pub is_scheme_char : ℕ → Bool
is_scheme_char c = is_alpha c || (leb b'0' c && leb c b'9') || contains (b'+' ∷ b'-' ∷ b'.' ∷ []) c

abbrev pub starts_alpha : Text → Bool
starts_alpha [] = false
starts_alpha (c ∷ s) = is_alpha c

-- The scheme, in lower case, and what follows its colon.
unfoldable pub split_scheme : Text → Text × Text
unfolding partition
split_scheme url =
    let (before, found, after) = partition b':' url in
    if found && starts_alpha before && all is_scheme_char before
    then (lower before, after)
    else ([], url)

-- `_splitnetloc`
unfoldable pub up_to_path : Text → Text
up_to_path [] = []
up_to_path (c ∷ s) = if contains (b'/' ∷ b'?' ∷ b'#' ∷ []) c then [] else c ∷ up_to_path s

abbrev pub after_slashes : Text → Option Text
after_slashes (a ∷ b ∷ s) = if (a == b'/') && (b == b'/') then some s else none
after_slashes _ = none

unfoldable pub location : Text → Text
unfolding up_to_path
location url = elim (after_slashes url) [ none ↦ [] | some s ↦ up_to_path s ]

pub record Url : Type 0 where
  pub scheme : Text
  pub netloc : Text

-- Tabs and line ends are removed, and control characters and spaces at the start.
unfoldable pub cleaned : Text → Text
unfolding drop_controls
cleaned url = keep (λ c. not (contains (9 ∷ 10 ∷ 13 ∷ []) c)) (drop_controls url)

unfoldable pub urlsplit : Text → Result Url
unfolding split_scheme location cleaned
urlsplit url =
    let (scheme, rest) = split_scheme (cleaned url) in
    let netloc = location rest in
    let opens = contains netloc b'[' in
    let closes = contains netloc b']' in
    if (opens && not closes) || (closes && not opens)
    then err (value_error invalid_ipv6_url)
    else ok (record { scheme = scheme; netloc = netloc })

-- `SplitResult.hostname`; the zone after a percent sign keeps its case
unfoldable pub hostname : Url → Option Text
unfolding partition after_last
hostname u =
    let host = after_last b'@' u.netloc in
    let (_, bracket, inside) = partition b'[' host in
    let (name, _, _) = if bracket then partition b']' inside else partition b':' host in
    let (node, percent, zone) = partition b'%' name in
    elim name [ [] ↦ none | c ∷ s ↦ some (lower node ++ (if percent then b'%' ∷ zone else [])) ]
