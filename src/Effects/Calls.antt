-- ===== src/Effects/Calls.antt =====
-- Every request that the portal makes to the outside: the clock, random numbers, files, Vault through
-- hvac, and the two databases. What it is answered is the environment's: any function of the requests
-- made so far.
use vault_db_access.Prelude.{ℕ, ◌*◌, Bool, Option, List, Text, Exn}
use vault_db_access.Prelude.Int.{ℤ}
use vault_db_access.Models.{DbType}

-- How a piece of code ends: it returns, it raises, the process is killed in it, or a loop of the
-- model has used up its rounds.
pub data Outcome (A : Type 0) : Type 0 where
  done : A → Outcome A
  raised : Exn → Outcome A
  killed : Outcome A
  hung : Outcome A

-- What `read_credentials` takes from Vault's reply.
pub record Credentials : Type 0 where
  pub username : Text
  pub password : Text
  pub lease_id : Text
  pub lease_duration : ℕ

-- The requests of vault_client.py, by endpoint. A lifetime is in seconds.
pub data VaultRequest : Type 0 where
  write_role_at : Text → Text → List Text → List Text → ℤ → VaultRequest
  delete_role_at : Text → VaultRequest
  create_token : ℤ → Text → VaultRequest
  list_accessors : VaultRequest
  lookup_accessor : Text → VaultRequest
  revoke_accessor_at : Text → VaultRequest
  read_creds : Text → VaultRequest
  list_leases_at : Text → VaultRequest
  revoke_lease_at : Text → VaultRequest
  rotate_root_at : Text → VaultRequest
  read_user : Text → VaultRequest
  read_introspect_secret : Text → VaultRequest
  lookup_self : VaultRequest
  revoke_self : VaultRequest

-- What the program reads of each reply; `none` is an empty reply.
abbrev pub VaultReply : VaultRequest → Type 0
VaultReply (write_role_at _ _ _ _ _) = Unit {0}
VaultReply (delete_role_at _) = Unit {0}
VaultReply (create_token _ _) = Text × Text
VaultReply list_accessors = Option (List Text)
VaultReply (lookup_accessor _) = Option Text
VaultReply (revoke_accessor_at _) = Unit {0}
VaultReply (read_creds _) = Option Credentials
VaultReply (list_leases_at _) = Option (List Text)
VaultReply (revoke_lease_at _) = Unit {0}
VaultReply (rotate_root_at _) = Unit {0}
VaultReply (read_user _) = Option (List Text)
VaultReply (read_introspect_secret _) = Text × Text
VaultReply lookup_self = List Text
VaultReply revoke_self = Unit {0}

-- The queries of db_introspect.py.
pub data Query : Type 0 where
  table_names : Query
  owned_sequences : Query
  accounts_like : Text → Query
  accounts_from : Text → Query
  count_backends : Text → Query

abbrev pub QueryReply : Query → Type 0
QueryReply table_names = List Text
QueryReply owned_sequences = List (Text × Text)
QueryReply (accounts_like _) = List Text
QueryReply (accounts_from _) = List Text
QueryReply (count_backends _) = ℕ

pub data Call : Type 0 where
  sleep : Call
  token_hex : ℕ → Call
  token_urlsafe : ℕ → Call
  read_approle : Call
  approle_login : Text → Text → Call
  userpass : Text → Text → Call
  -- by the client that holds the given token
  vault : Text → VaultRequest → Call
  -- a connection to the database with the given account and password, and one query on it
  query : DbType → Text × Text → Query → Call
  read_fault_file : Call
  unlink_fault_file : Call
  clock : Call

abbrev pub Reply : Call → Type 0
Reply sleep = Unit {0}
Reply (token_hex _) = Text
Reply (token_urlsafe _) = Text
Reply read_approle = Text × Text
Reply (approle_login _ _) = Text
Reply (userpass _ _) = Text × List Text
Reply (vault _ r) = VaultReply r
Reply (query _ _ q) = QueryReply q
Reply read_fault_file = Text
Reply unlink_fault_file = Unit {0}
Reply clock = Unit {0}

-- config.py: what the environment variables set.
pub record Config : Type 0 where
  pub ttl_min : ℤ
  pub ttl_max : ℤ
  pub recheck_seconds : ℕ
  pub test_hooks : Bool
  pub public_origin : Text
  pub extra_origins : List Text
  pub cookie_secure : Text

-- `time` is the reading of `time.time()`, which cannot raise; `is_killed` says that the process dies
-- at that point.
pub record Env : Type 0 where
  pub config : Config
  pub answer : (c : Call) → List Call → Outcome (Reply c)
  pub time : List Call → ℕ
  pub is_killed : List Call → Bool
  -- `hashlib.sha256(…).hexdigest()`
  pub sha256 : Text → Text

-- Times are in tenths of a second, so that the 0.3 s of the termination loop is a number of them.
abbrev pub seconds : ℕ → ℕ
seconds n = 10 * n
