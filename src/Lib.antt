-- ===== src/Lib.antt =====
-- A verification of the credential portal (middleware/app), which issues, revokes and reconciles
-- temporary PostgreSQL and ClickHouse accounts through Vault: its web front end with the sessions of
-- its administrators, the life of a grant below it, and the checks of its configuration.
--
-- The parts and their files
--   Prelude, Prelude/*      tests, lists, texts as code points, integers, and the exceptions.
--   Models, Requests        middleware/app/models.py: the enumerations, the request, `clean`; what
--                           pydantic is told to check, and the form's fields. Requests/Bounds: the
--                           limits of a validated request.
--   Statements, Statements/*  middleware/app/statement_builder.py. Templates holds `build_statements`
--                           and what it calls, Maintenance the lockout, terminate and drop texts;
--                           Quoting is a reader of the texts that the statements are checked against.
--   Rows, Store             middleware/app/store.py: the rows and SQL statements, and the operations.
--                           Store/Sessions: lookups in the table of sessions.
--   Effects, Effects/*      the outside world as an environment that answers each request by any
--                           function of the requests made so far, the state that the process keeps,
--                           the actions on it, and rules for what holds of them: between their states
--                           (Frame), when they return (Returns, Ensures), of what they return and
--                           raise (Yields), and that they end (Halts).
--   Vault, Vault/*          middleware/app/vault_client.py: `Service` and the requests.
--   Introspect              middleware/app/db_introspect.py.
--   Faults                  middleware/app/faults.py.
--   Grants, Grants/*        middleware/app/grants.py: Guarding (`admit`, `_begin`, `_end`, `public`),
--                           Teardown, Issue (`issue`, `revoke`), Reconcile. The proofs are in
--                           Lifecycle (how the rows move), Release (locks, slots, grants in
--                           flight), Returned (what an operation that returned has done), and
--                           Terminates, Halts and Ended (that the loop that waits for backends, and
--                           every operation around it, ends).
--   Urls                    what the program reads of urllib's `urlsplit`.
--   Web, Web/*              middleware/app/main.py: Http (requests and responses), Errors (the
--                           exception handlers), Origin (`check_origin`), Sessions (`current_session`,
--                           `require_admin`), Login (`login_submit`, `_do_logout`), Routes, Guard (the
--                           size limit), and Portal (the thirteen routes with `require_admin` before
--                           them and the exception handlers around them). The proofs are in Vouched and
--                           Admitted (who is let in), Started, Entered, LoggedIn and LoggedOut (how
--                           sessions begin and end), Writes and Table (the store's functions on the
--                           sessions), Accepted (origins), Answers (statuses), Limits, and in
--                           Untouched, Unissued, Issuing, Closed and Handled (what a route does to the
--                           rows of `grants`, and what for a request that `require_admin` refuses).
--   Preflight               middleware/app/preflight.py: `problems`.
--   Settings                middleware/app/config.py, `pg_sslmode` of setup.py, and the TLS parameters of
--                           db_introspect.py; Settings/Transport has the proofs.
--   Demo, Tests             a small environment, tests, and the theorems at concrete inputs.
--
-- How the code is modelled
--   An action takes the environment and the state, and ends by returning, by raising, by the process
--   being killed, or by using up the rounds of a loop. The environment may kill the process at every
--   request and at every reading of the clock, which each write to the store makes first; what was
--   written stays written. Vault, the databases, the clock, the random numbers and SHA-256 are the
--   environment's; hvac's exceptions are values with their texts.
--   Python's sets are lists without repetition; times are in tenths of a second, without fractions;
--   `iso` keeps the number; log lines are left out. An operation runs alone: other threads show only
--   as a lock that is held or a slot that is taken.
--   The only unbounded loop of an operation, in `_lock_out_and_terminate`, runs on 68 rounds: each one
--   sleeps 0.3 s and the deadline is 20 s away.
--   A route takes the request as Starlette hands it over, with the form already read or refused, runs
--   `require_admin` if it depends on it, and is given the session that this returned. The interval
--   between two re-checks is a natural number, where the code takes any integer. The `Guard` is modelled by its decisions: on
--   the headers, on each message of the stream, and on the status that goes out.
--
-- Not modelled: failures of SQLite itself but for a violated primary key, and the opening of its file;
-- setup.py but for `pg_sslmode`, since it provisions Vault and the databases in long runs of requests;
-- the templates, the pattern of a grant's identifier in a path, the fixed
-- response headers and the wiring of FastAPI; database connections; what `urlsplit` checks in square
-- brackets and beyond ASCII, and what `int` takes beyond ASCII digits; SQL scripts and container files.
pub mod Prelude
pub mod Models
pub mod Requests
pub mod Statements
pub mod Rows
pub mod Urls
pub mod Effects
pub mod Store
pub mod Vault
pub mod Introspect
pub mod Faults
pub mod Grants
pub mod Preflight
pub mod Settings
pub mod Web
pub mod Demo
mod Tests
