-- ===== src/Tests/Settings.antt =====
-- The settings, the requests and the termination of the loop at concrete inputs.
use vault_db_access.Urls.{
  urlsplit, up_to_path, split_scheme, partition, location, hostname, drop_controls, cleaned,
  after_last,
}
use vault_db_access.Prelude.{
  lower, true, contains, false, ◌≡◌, refl, ◌↔◌, Text, codes, none, some, List, [], ◌∷◌, ok, arith,
  lookup, text_eq, if◌then◌else◌, ◌==◌, eq_Text,
}
use vault_db_access.Prelude.Int.{pos}
use vault_db_access.Models.{strip, is_printable, clean, GrantRequest}
use vault_db_access.Demo.{demo_request, demo}
use vault_db_access.Preflight.{admin_user, required_secrets, Environ, problems}
use vault_db_access.Preflight.Laws.{problems-nil_iff, AllSecret, IsNamed}
use vault_db_access.Settings.{
  strong_sslmodes, check_public, Settings, setup_sslmode, check_sslmode, default_sslmode, is_one,
  check_transport, pg_ssl_kwargs,
}
use vault_db_access.Settings.Transport.{
  IsPrivateOrigin, setup_sslmode-check_sslmode, IsAllowed, check_transport-IsPrivate,
}
use vault_db_access.Effects.Halts.{Halts, RunsOn}
use vault_db_access.Effects.{
  Call, hung, sleep, token_hex, token_urlsafe, read_approle, approle_login, userpass, vault, query,
  read_fault_file, unlink_fault_file, clock,
}
use vault_db_access.Demo.{demo_answer}
use vault_db_access.Grants.{issue, revoke, reconcile_once}
use vault_db_access.Requests.{read_scope, read_db_type, RawRequest, model_validate}
use vault_db_access.Requests.Bounds.{IsBounded, model_validate-IsBounded}
use vault_db_access.Grants.Ended.{operations-Halts}

-- A certificate is set, and nothing else.
abbrev with_root : Environ
with_root name = if name == codes "VDBA_PG_SSLROOTCERT" then some (codes "/ca.pem") else none

setup_sslmode-check_sslmode_example :
    (check_sslmode (default_sslmode with_root) (is_one with_root (codes "VDBA_ALLOW_INSECURE"))
      ≡ ok tt)
    × IsAllowed (codes "verify-full") (is_one with_root (codes "VDBA_ALLOW_INSECURE"))
unfolding setup_sslmode text_eq
setup_sslmode-check_sslmode_example =
    setup_sslmode-check_sslmode with_root (codes "verify-full") refl

problems-nil_iff_example :
    (problems with_root ≡ [])
    ↔ (AllSecret with_root required_secrets × IsNamed (with_root admin_user))
problems-nil_iff_example = problems-nil_iff with_root

abbrev sent_request : RawRequest
sent_request = record {
  db_type = some (codes "postgres");
  scope = some (codes "database");
  table_names = [];
  commands = codes "SELECT" ∷ [];
  ttl_seconds = pos 600;
  requested_for = codes " alice ";
  extra = [];
}

model_validate-IsBounded_example : (req : GrantRequest) × IsBounded sent_request req
unfolding model_validate read_db_type read_scope clean strip is_printable text_eq
model_validate-IsBounded_example = (_, model_validate-IsBounded sent_request _ refl)

demo_answers : (c : Call) (h : List Call) → ¬ (demo_answer c h ≡ hung)
demo_answers sleep h = λ e. cc
demo_answers (token_hex n) h = λ e. cc
demo_answers (token_urlsafe n) h = λ e. cc
demo_answers read_approle h = λ e. cc
demo_answers (approle_login r s) h = λ e. cc
demo_answers (userpass u p) h = λ e. cc
demo_answers (vault c r) h = λ e. cc
demo_answers (query db c q) h = λ e. cc
demo_answers read_fault_file h = λ e. cc
demo_answers unlink_fault_file h = λ e. cc
demo_answers clock h = λ e. cc

demo-RunsOn : RunsOn demo
demo-RunsOn = record {
  answers = demo_answers;
  grows = λ c h. ground arith;
  sleeps = λ h. ground arith;
}

operations-Halts_example :
    Halts demo (issue demo_request (codes "admin") (codes "r1"))
    × Halts demo (revoke (codes "vdba_aaaaaaaaaa") (codes "admin") (codes "r1"))
    × Halts demo reconcile_once
operations-Halts_example =
    operations-Halts demo demo-RunsOn demo_request (codes "vdba_aaaaaaaaaa") (codes "admin")
      (codes "r1")

abbrev secure_settings : Settings
secure_settings = record {
  vault_addr = codes "http://vault:8200";
  approle_dir = codes "/run/vdba/approle";
  db_path = codes "/data/vdba.sqlite3";
  postgres_host = codes "postgres";
  postgres_port = pos 5432;
  clickhouse_host = codes "clickhouse";
  clickhouse_http_port = pos 8123;
  clickhouse_native_port = pos 9000;
  pg_sslrootcert = [];
  allow_insecure = false;
  pg_sslmode = codes "require";
  ch_secure = false;
  ch_ca_cert = [];
  ttl_min = pos 10;
  ttl_max = pos 86400;
  session_recheck_seconds = pos 300;
  reconcile_interval = pos 60;
  test_hooks = false;
  fault_file = [];
  public_origin = codes "https://portal";
  extra_origins = [];
  cookie_secure = codes "auto";
}

check_transport-IsPrivate_example :
    (mode : Text) × (lookup (codes "sslmode") (pg_ssl_kwargs secure_settings) ≡ some mode)
    × (contains strong_sslmodes mode ≡ true)
    × IsPrivateOrigin secure_settings.public_origin
unfolding check_transport check_sslmode check_public urlsplit hostname text_eq partition after_last
    drop_controls split_scheme up_to_path location cleaned lower
check_transport-IsPrivate_example = check_transport-IsPrivate secure_settings refl refl
