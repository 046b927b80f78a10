-- ===== src/Settings.antt =====
-- middleware/app/config.py: what is read from the environment, and `check_transport`.
use vault_db_access.Prelude.{
  ℕ, Bool, true, false, not, ◌&&◌, ◌||◌, Option, none, some, List, [], ◌∷◌, ◌++◌, ◌==◌, eq_ℕ,
  eq_Text, if◌then◌else◌, contains, keep, Text, codes, or_else, Result, ok, err, ◌>>=◌, ◌>>◌,
  base_exception,
}
use vault_db_access.Prelude.Int.{ℤ, pos}
use vault_db_access.Requests.{parse_int}
use vault_db_access.Preflight.{Environ}
use vault_db_access.Urls.{Url, urlsplit, hostname, partition}
pub mod Transport

pub record Settings : Type 0 where
  pub vault_addr : Text
  pub approle_dir : Text
  pub db_path : Text
  pub postgres_host : Text
  pub postgres_port : ℤ
  pub clickhouse_host : Text
  pub clickhouse_http_port : ℤ
  pub clickhouse_native_port : ℤ
  pub pg_sslrootcert : Text
  pub allow_insecure : Bool
  pub pg_sslmode : Text
  pub ch_secure : Bool
  pub ch_ca_cert : Text
  pub ttl_min : ℤ
  pub ttl_max : ℤ
  pub session_recheck_seconds : ℤ
  pub reconcile_interval : ℤ
  pub test_hooks : Bool
  pub fault_file : Text
  pub public_origin : Text
  pub extra_origins : List Text
  pub cookie_secure : Text

-- `os.environ.get(name, default)`, and `== "1"` of it
abbrev pub get : Environ → Text → Text → Text
get env name default = or_else (env name) default

abbrev pub is_one : Environ → Text → Bool
is_one env name = get env name [] == codes "1"

-- `_int`
unfoldable pub read_int : Environ → Text → ℕ → Result ℤ
unfolding parse_int
read_int env name default = elim (env name) [ none ↦ ok (pos default) | some t ↦ parse_int t ]

-- `x or y` of texts
abbrev pub or_text : Text → Text → Text
or_text [] t = t
or_text (c ∷ s) t = c ∷ s

abbrev pub is_set : Text → Bool
is_set [] = false
is_set (c ∷ s) = true

-- The mode that is set, or the default for what else is set.
abbrev pub default_choice : Text → Bool → Bool → Text
default_choice mode rooted insecure =
    or_text mode (
      if rooted
      then codes "verify-full"
      else (if insecure then codes "prefer" else codes "require"))

-- `PG_SSLMODE`
unfoldable pub default_sslmode : Environ → Text
default_sslmode env =
    default_choice (get env (codes "VDBA_PG_SSLMODE") [])
      (is_set (get env (codes "VDBA_PG_SSLROOTCERT") [])) (is_one env (codes "VDBA_ALLOW_INSECURE"))

-- `s.split(",")`; the pieces of what follows are those of the later text
unfoldable pub split_commas : Text → List Text
split_commas [] = [] ∷ []
split_commas (c ∷ s) =
    let rest = split_commas s in
    if c == b','
    then [] ∷ rest
    else (elim rest [ [] ↦ (c ∷ []) ∷ [] | piece ∷ more ↦ (c ∷ piece) ∷ more ])

unfoldable pub read_settings : Environ → Result Settings
unfolding read_int default_sslmode split_commas
read_settings env = do
  postgres_port ← read_int env (codes "VDBA_POSTGRES_PORT") 5432
  http_port ← read_int env (codes "VDBA_CLICKHOUSE_HTTP_PORT") 8123
  native_port ← read_int env (codes "VDBA_CLICKHOUSE_NATIVE_PORT") 9000
  ttl_min ← read_int env (codes "VDBA_TTL_MIN_SECONDS") 10
  ttl_max ← read_int env (codes "VDBA_TTL_MAX_SECONDS") 86400
  recheck ← read_int env (codes "VDBA_SESSION_RECHECK_SECONDS") 300
  interval ← read_int env (codes "VDBA_RECONCILE_INTERVAL") 60
  ok (record {
    vault_addr = get env (codes "VAULT_ADDR") (codes "http://vault:8200");
    approle_dir = get env (codes "VDBA_APPROLE_DIR") (codes "/run/vdba/approle");
    db_path = get env (codes "VDBA_DB_PATH") (codes "/data/vdba.sqlite3");
    postgres_host = get env (codes "VDBA_POSTGRES_HOST") (codes "postgres");
    postgres_port = postgres_port;
    clickhouse_host = get env (codes "VDBA_CLICKHOUSE_HOST") (codes "clickhouse");
    clickhouse_http_port = http_port;
    clickhouse_native_port = native_port;
    pg_sslrootcert = get env (codes "VDBA_PG_SSLROOTCERT") [];
    allow_insecure = is_one env (codes "VDBA_ALLOW_INSECURE");
    pg_sslmode = default_sslmode env;
    ch_secure = is_one env (codes "VDBA_CH_SECURE");
    ch_ca_cert = get env (codes "VDBA_CH_CA_CERT") [];
    ttl_min = ttl_min;
    ttl_max = ttl_max;
    session_recheck_seconds = recheck;
    reconcile_interval = interval;
    test_hooks = is_one env (codes "VDBA_TEST_HOOKS");
    fault_file = get env (codes "VDBA_FAULT_FILE") (codes "/data/fault-point");
    public_origin = get env (codes "VDBA_PUBLIC_ORIGIN") [];
    extra_origins = keep is_set (split_commas (get env (codes "VDBA_ALLOWED_ORIGINS") []));
    cookie_secure = get env (codes "VDBA_COOKIE_SECURE") (codes "auto");
  })

-- `WEAK_SSLMODES`, `SSLMODES`
abbrev pub weak_sslmodes : List Text
weak_sslmodes = codes "disable" ∷ codes "allow" ∷ codes "prefer" ∷ []

abbrev pub strong_sslmodes : List Text
strong_sslmodes = codes "require" ∷ codes "verify-ca" ∷ codes "verify-full" ∷ []

abbrev pub sslmodes : List Text
sslmodes = weak_sslmodes ++ strong_sslmodes

abbrev pub system_exit : {A : Type 0} → Result A
system_exit = err (base_exception (codes "SystemExit"))

-- The tests of `PG_SSLMODE` in `check_transport`.
unfoldable pub check_sslmode : Text → Bool → Result (Unit {0})
check_sslmode mode insecure =
    if not (contains sslmodes mode)
    then system_exit
    else (if contains weak_sslmodes mode && not insecure then system_exit else ok tt)

abbrev pub is_loopback : Option Text → Bool
is_loopback none = false
is_loopback (some host) = contains (codes "localhost" ∷ codes "127.0.0.1" ∷ codes "::1" ∷ []) host

-- The rest of it, for the public origin.
unfoldable pub check_public : Text → Bool → Result (Unit {0})
unfolding urlsplit hostname
check_public [] insecure = ok tt
check_public (c ∷ s) insecure = do
  parts ← urlsplit (c ∷ s)
  if not (parts.scheme == codes "https") && not (is_loopback (hostname parts)) && not insecure
      then system_exit
      else ok tt

unfoldable pub check_transport : Settings → Result (Unit {0})
unfolding check_sslmode check_public
check_transport st = do
  check_sslmode st.pg_sslmode st.allow_insecure
  check_public st.public_origin st.allow_insecure

-- `pg_sslmode` of setup.py, which reads the environment itself
unfoldable pub setup_choice : Text → Bool → Bool → Result Text
setup_choice mode rooted insecure =
    if is_set mode && not (contains sslmodes mode)
    then system_exit
    else (if contains weak_sslmodes mode && not insecure
        then system_exit
        else (if is_set mode
            then ok mode
            else (if rooted
                then ok (codes "verify-full")
                else (if not insecure then system_exit else ok (codes "disable")))))

unfoldable pub setup_sslmode : Environ → Result Text
unfolding setup_choice
setup_sslmode env =
    setup_choice (get env (codes "VDBA_PG_SSLMODE") [])
      (is_set (get env (codes "VDBA_PG_SSLROOTCERT") [])) (is_one env (codes "VDBA_ALLOW_INSECURE"))

-- `pg_ssl_kwargs` and `ch_ssl_kwargs` of db_introspect.py
unfoldable pub pg_ssl_kwargs : Settings → List (Text × Text)
pg_ssl_kwargs st =
    (codes "sslmode", st.pg_sslmode)
    ∷ (if is_set st.pg_sslrootcert then (codes "sslrootcert", st.pg_sslrootcert) ∷ [] else [])

pub record ChSsl : Type 0 where
  pub secure : Bool
  pub verify : Bool
  pub ca_cert : Option Text

unfoldable pub ch_ssl_kwargs : Settings → ChSsl
ch_ssl_kwargs st = record {
  secure = st.ch_secure;
  verify = st.ch_secure;
  ca_cert = if st.ch_secure && is_set st.ch_ca_cert then some st.ch_ca_cert else none;
}
