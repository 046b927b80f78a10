-- ===== src/Demo.antt =====
-- A small environment and a small state, on which the tests of the other modules run.
use vault_db_access.Prelude.{ℕ, ◌+◌, ◌*◌, false, none, some, List, [], ◌∷◌, codes, length, os_error}
use vault_db_access.Prelude.Int.{pos}
use vault_db_access.Models.{postgres, Scope, active, GrantRequest}
use vault_db_access.Rows.{Grant}
use vault_db_access.Effects.{
  World, Env, Outcome, done, raised, Call, sleep, token_hex, token_urlsafe, read_approle,
  approle_login, userpass, vault, query, read_fault_file, unlink_fault_file, clock, Reply,
  VaultRequest, VaultReply, write_role_at, delete_role_at, create_token, list_accessors,
  lookup_accessor, revoke_accessor_at, read_creds, list_leases_at, revoke_lease_at, rotate_root_at,
  read_user, read_introspect_secret, lookup_self, revoke_self, Query, QueryReply, table_names,
  owned_sequences, accounts_like, accounts_from, count_backends,
}
use vault_db_access.Grants.Lifecycle.{fresh_guards}

abbrev pub vault_answer : (r : VaultRequest) → VaultReply r
vault_answer (write_role_at _ _ _ _ _) = tt
vault_answer (delete_role_at _) = tt
vault_answer (create_token _ _) = (codes "hvs.1", codes "acc1")
vault_answer list_accessors = some (codes "acc1" ∷ codes "acc2" ∷ [])
vault_answer (lookup_accessor _) = some (codes "token-vdba-0123456789")
vault_answer (revoke_accessor_at _) = tt
vault_answer (read_creds _) = some (record {
  username = codes "vdba_0123456789_abcdef";
  password = codes "pw";
  lease_id = codes "lease1";
  lease_duration = 600;
})
vault_answer (list_leases_at _) = none
vault_answer (revoke_lease_at _) = tt
vault_answer (rotate_root_at _) = tt
vault_answer (read_user _) = some (codes "db-access-admin" ∷ [])
vault_answer (read_introspect_secret _) = (codes "vault_introspect", codes "secret")
vault_answer lookup_self = codes "db-access-admin" ∷ []
vault_answer revoke_self = tt

abbrev pub query_answer : (q : Query) → QueryReply q
query_answer table_names = codes "customers" ∷ codes "orders" ∷ []
query_answer owned_sequences = (codes "customers", codes "customers_id_seq") ∷ []
query_answer (accounts_like _) = []
query_answer (accounts_from _) = []
query_answer (count_backends _) = 0

abbrev pub demo_answer : (c : Call) → List Call → Outcome (Reply c)
demo_answer sleep h = done tt
demo_answer (token_hex _) h = done (codes "0123456789")
demo_answer (token_urlsafe _) h = done (codes "sid")
demo_answer read_approle h = done (codes "role", codes "secret")
demo_answer (approle_login _ _) h = done (codes "hvs.service")
demo_answer (userpass _ _) h = done (codes "hvs.admin", codes "db-access-admin" ∷ [])
demo_answer (vault _ r) h = done (vault_answer r)
demo_answer (query _ _ q) h = done (query_answer q)
demo_answer read_fault_file h = raised os_error
demo_answer unlink_fault_file h = done tt
demo_answer clock h = done tt

-- Every request takes three tenths of a second.
abbrev pub demo_time : List Call → ℕ
demo_time h = 1000 + 3 * length h

abbrev pub demo : Env
demo = record {
  config = record {
    ttl_min = pos 10;
    ttl_max = pos 86400;
    recheck_seconds = 300;
    test_hooks = false;
    public_origin = [];
    extra_origins = [];
    cookie_secure = codes "auto";
  };
  answer = demo_answer;
  time = demo_time;
  is_killed = λ _. false;
  sha256 = λ s. s;
}

abbrev pub demo_grant : Grant
demo_grant = record {
  id = codes "vdba_aaaaaaaaaa";
  db_type = postgres;
  scope = Scope.tables;
  table_names = codes "customers" ∷ [];
  commands = codes "SELECT" ∷ [];
  requested_for = codes "alice";
  issued_by = codes "admin";
  ttl_seconds = pos 600;
  status = active;
  created_at = 100;
  expires_at = some 6100;
  username = some (codes "vdba_aaaaaaaaaa_abcdef");
  lease_id = some (codes "lease0");
  token_accessor = some (codes "acc0");
  last_error = none;
  updated_at = 100;
}

abbrev pub demo_world : World
demo_world = record {
  db = record { grants = demo_grant ∷ []; audit_rows = []; sessions = [] };
  guards = fresh_guards;
  service = record { client_token = none; logged_in_at = 0 };
  history = [];
}

abbrev pub demo_request : GrantRequest
demo_request = record {
  db_type = postgres;
  scope = Scope.tables;
  table_names = codes "customers" ∷ [];
  commands = codes "SELECT" ∷ codes "INSERT" ∷ [];
  ttl_seconds = pos 600;
  requested_for = codes "alice";
}
