-- ===== src/Grants/Guarding.antt =====
-- Admission, the locks and the set of grants in flight, and what the API shows of a grant.
use vault_db_access.Prelude.{
  ℕ, zero, suc, Bool, true, false, not, ◌&&◌, Option, none, some, List, ◌∷◌, keep, contains, ◌==◌,
  eq_Text, eq_ℕ, if◌then◌else◌, Text, busy, value_error, ttl_out_of_range,
}
use vault_db_access.Prelude.Int.{ℤ, leb_ℤ}
use vault_db_access.Models.{DbType, postgres, clickhouse, Scope, Status}
use vault_db_access.Rows.{Grant}
use vault_db_access.Effects.{
  M, World, Guards, Slots, gets, asks, modify, pure, raise, finally, ◌>>=◌, ◌>>◌,
}

-- The keys of `_admission`.
pub data Kind : Type 0 where
  issuing_op revoking_op auth_op session_op : Kind

abbrev pub free : Kind → Slots → ℕ
free issuing_op s = s.issue_free
free revoking_op s = s.revoke_free
free auth_op s = s.auth_free
free session_op s = s.session_free

abbrev pub set_free : Kind → ℕ → Slots → Slots
set_free issuing_op n s = record s { issue_free = n }
set_free revoking_op n s = record s { revoke_free = n }
set_free auth_op n s = record s { auth_free = n }
set_free session_op n s = record s { session_free = n }

abbrev pub with_guards : Guards → World → World
with_guards g w = record w { guards = g }

abbrev pub take_slot : Kind → ℕ → M (Unit {0})
take_slot kind zero = raise busy
take_slot kind (suc n) =
    modify (λ w. with_guards (record (w.guards) { slots = set_free kind n w.guards.slots }) w)

unfoldable pub release : Kind → M (Unit {0})
release kind = modify (λ w.
    with_guards
      (record (w.guards) { slots = set_free kind (suc (free kind w.guards.slots)) w.guards.slots })
      w)

-- `with admit(kind): m`
unfoldable pub admit : {A : Type 0} → Kind → M A → M A
unfolding release
admit kind m = do
  n ← gets (λ w. free kind w.guards.slots)
  take_slot kind n
  finally m (release kind)

abbrev pub held : DbType → Guards → Bool
held postgres g = g.postgres_held
held clickhouse g = g.clickhouse_held

abbrev pub set_held : DbType → Bool → Guards → Guards
set_held postgres b g = record g { postgres_held = b }
set_held clickhouse b g = record g { clickhouse_held = b }

-- `set.add`, `set.discard`
abbrev pub add_to : Text → List Text → List Text
add_to i xs = if contains xs i then xs else i ∷ xs

abbrev pub discard : Text → List Text → List Text
discard i xs = keep (λ j. not (i == j)) xs

abbrev pub begun : DbType → Text → Guards → Guards
begun db i g = set_held db true (record g { inflight = add_to i g.inflight })

abbrev pub ended : DbType → Text → Guards → Guards
ended db i g = set_held db false (record g { inflight = discard i g.inflight })

-- `_begin`: a lock that another operation keeps for the 60 s is `Busy`
unfoldable pub begin : DbType → Text → M (Unit {0})
begin db i = do
  taken ← gets (λ w. held db w.guards)
  if taken then raise busy else modify (λ w. with_guards (begun db i w.guards) w)

-- `_end`
unfoldable pub end_op : DbType → Text → M (Unit {0})
end_op db i = modify (λ w. with_guards (ended db i w.guards) w)

unfoldable pub validate_ttl : ℤ → M (Unit {0})
validate_ttl ttl = do
  config ← asks (λ env. env.config)
  if leb_ℤ config.ttl_min ttl && leb_ℤ ttl config.ttl_max
      then pure tt
      else raise (value_error (ttl_out_of_range ttl config.ttl_min config.ttl_max))

-- `iso`, without the formatting: a missing time and the time 0 are `None`
abbrev pub iso : Option ℕ → Option ℕ
iso none = none
iso (some zero) = none
iso (some (suc n)) = some (suc n)

-- What the API may show: no lease, no accessor, no error text.
pub record PublicGrant : Type 0 where
  pub grant_id : Text
  pub db_type : DbType
  pub scope : Scope
  pub table_names : List Text
  pub commands : List Text
  pub requested_for : Text
  pub issued_by : Text
  pub ttl_seconds : ℤ
  pub status : Status
  pub username : Option Text
  pub created_at : Option ℕ
  pub expires_at : Option ℕ

-- `public`
unfoldable pub public_view : Grant → PublicGrant
public_view g = record {
  grant_id = g.id;
  db_type = g.db_type;
  scope = g.scope;
  table_names = g.table_names;
  commands = g.commands;
  requested_for = g.requested_for;
  issued_by = g.issued_by;
  ttl_seconds = g.ttl_seconds;
  status = g.status;
  username = g.username;
  created_at = iso (some g.created_at);
  expires_at = iso g.expires_at;
}
