-- ===== src/Rows.antt =====
-- middleware/app/store.py: the rows of its three tables, and its SQL statements as functions on them.
use vault_db_access.Prelude.{
  ℕ, ◌+◌, Bool, not, ◌||◌, Option, none, some, List, [], ◌∷◌, ◌++◌, ◌==◌, eq_ℕ, eq_Text, ltb, leb,
  if◌then◌else◌, keep, contains, take, Text,
}
use vault_db_access.Prelude.Int.{ℤ}
use vault_db_access.Models.{DbType, Scope, Status, eq_Status}

-- A row of `grants`; `tables` and `commands` are kept as JSON and read back as the lists.
pub record Grant : Type 0 where
  pub id : Text
  pub db_type : DbType
  pub scope : Scope
  pub table_names : List Text
  pub commands : List Text
  pub requested_for : Text
  pub issued_by : Text
  pub ttl_seconds : ℤ
  pub status : Status
  pub created_at : ℕ
  pub expires_at : Option ℕ
  pub username : Option Text
  pub lease_id : Option Text
  pub token_accessor : Option Text
  pub last_error : Option Text
  pub updated_at : ℕ

pub record AuditRow : Type 0 where
  pub ts : ℕ
  pub request_id : Option Text
  pub grant_id : Option Text
  pub actor : Text
  pub action : Text
  pub result : Text
  pub detail : Text

pub record Session : Type 0 where
  pub sid : Text
  pub username : Text
  pub csrf : Text
  pub vault_token : Text
  pub created_at : ℕ
  pub last_seen : ℕ
  pub last_check : ℕ

pub record Db : Type 0 where
  pub grants : List Grant
  pub audit_rows : List AuditRow
  pub sessions : List Session

-- The columns that `update_grant` is called with.
pub data Field : Type 0 where
  set_status : Status → Field
  set_username : Text → Field
  set_lease_id : Text → Field
  set_expires_at : ℕ → Field
  set_token_accessor : Text → Field
  set_last_error : Option Text → Field

abbrev pub assign : Field → Grant → Grant
assign (set_status x) g = record g { status = x }
assign (set_username x) g = record g { username = some x }
assign (set_lease_id x) g = record g { lease_id = some x }
assign (set_expires_at x) g = record g { expires_at = some x }
assign (set_token_accessor x) g = record g { token_accessor = some x }
assign (set_last_error x) g = record g { last_error = x }

abbrev pub assign_all : List Field → Grant → Grant
assign_all [] g = g
assign_all (f ∷ fs) g = assign_all fs (assign f g)

-- `SELECT * FROM grants WHERE id = ?`, first row
unfoldable pub find_row : Text → List Grant → Option Grant
find_row i [] = none
find_row i (g ∷ gs) = if i == g.id then some g else find_row i gs

-- `UPDATE grants SET … WHERE id = ?`
unfoldable pub update_rows : Text → List Field → ℕ → List Grant → List Grant
update_rows i fs now [] = []
update_rows i fs now (g ∷ gs) =
    (if i == g.id then record (assign_all fs g) { updated_at = now } else g)
    ∷ update_rows i fs now gs

-- `INSERT INTO grants …`; `none` is a violation of the primary key.
unfoldable pub insert_row : Grant → List Grant → Option (List Grant)
unfolding find_row
insert_row g gs = elim (find_row g.id gs) [ none ↦ some (gs ++ (g ∷ [])) | some _ ↦ none ]

-- `ORDER BY created_at`, and `ORDER BY created_at DESC`.
unfoldable pub place_by : (Grant → Grant → Bool) → Grant → List Grant → List Grant
place_by before g [] = g ∷ []
place_by before g (h ∷ hs) = if before g h then g ∷ h ∷ hs else h ∷ place_by before g hs

unfoldable pub order_by : (Grant → Grant → Bool) → List Grant → List Grant
unfolding place_by
order_by before [] = []
order_by before (g ∷ gs) = place_by before g (order_by before gs)

abbrev pub oldest_first : Grant → Grant → Bool
oldest_first g h = leb g.created_at h.created_at

abbrev pub newest_first : Grant → Grant → Bool
newest_first g h = leb h.created_at g.created_at

-- `SELECT * FROM grants WHERE status IN (…) ORDER BY created_at`
unfoldable pub rows_by_status : List Status → List Grant → List Grant
unfolding order_by
rows_by_status statuses gs =
    order_by oldest_first (keep (λ (g : Grant). contains statuses g.status) gs)

-- `list_grants`; no statuses means all rows
unfoldable pub newest_rows : List Status → ℕ → List Grant → List Grant
unfolding order_by
newest_rows [] limit gs = take limit (order_by newest_first gs)
newest_rows (s ∷ ss) limit gs =
    take limit (order_by newest_first (keep (λ (g : Grant). contains (s ∷ ss) g.status) gs))

-- The sessions' statements.
unfoldable pub find_session : Text → List Session → Option Session
find_session i [] = none
find_session i (s ∷ ss) = if i == s.sid then some s else find_session i ss

-- `INSERT INTO sessions …`; `none` is a violation of the primary key.
unfoldable pub insert_session : Session → List Session → Option (List Session)
unfolding find_session
insert_session s ss = elim (find_session s.sid ss) [ none ↦ some (ss ++ (s ∷ [])) | some _ ↦ none ]

unfoldable pub touch_sessions : Text → Bool → ℕ → List Session → List Session
touch_sessions i checked now [] = []
touch_sessions i checked now (s ∷ ss) =
    (if i == s.sid
      then (if checked
          then record s { last_seen = now; last_check = now }
          else record s { last_seen = now })
      else s)
    ∷ touch_sessions i checked now ss

unfoldable pub delete_sessions : Text → List Session → List Session
delete_sessions i ss = keep (λ (s : Session). not (i == s.sid)) ss

-- `created_at < now - absolute OR last_seen < now - idle`
unfoldable pub is_stale : ℕ → ℕ → ℕ → Session → Bool
is_stale absolute idle now s = ltb (s.created_at + absolute) now || ltb (s.last_seen + idle) now
