-- ===== src/Tests/Web.antt =====
-- main.py on the small environment.
use vault_db_access.Web.{method_of, handle, post_revoke, post_api_grants}
use vault_db_access.Web.Closed.{is_open, Gate}
use vault_db_access.Web.Handled.{Guarded, handle-Guarded}
use vault_db_access.Store.{delete_session, create_session, audit, touch_session, hash, get_session}
use vault_db_access.Vault.{
  userpass_login, revoke_token_quietly, login_error, user_policies, unavailable_if, token_policies,
  revoke_old, read_approle_files, matches_user, login, is_user_char, client_or_login, client, call,
}
use vault_db_access.Urls.{
  urlsplit, up_to_path, split_scheme, partition, location, drop_controls, cleaned, after_last,
}
use vault_db_access.Grants.{release, admit}
use vault_db_access.Prelude.{
  true, ◌⊎◌, lookup_last, text_eq, lookup, ◌+◌, ◌*◌, ◌≡◌, refl, codes, length, [], ◌∷◌, ok,
}
use vault_db_access.Prelude.{◌↔◌, arith}
use vault_db_access.Web.Limits.{IsLimited, counting_receive-IsLimited}
use vault_db_access.Web.Started.{Opened, create_session-get_session}
use vault_db_access.Store.Sessions.{IsKeyed}
use vault_db_access.Web.Table.{Done, purge_call, run_call, run_call-Done}
use vault_db_access.Store.{purge_sessions}
use vault_db_access.Rows.{
  is_stale, insert_session, delete_sessions, touch_sessions, find_session, Session,
}
use vault_db_access.Effects.{
  ◌>>◌, ◌>>=◌, try_else, try_catch, time, raise, quietly, pure, on_error, modify, lift, gets,
  finally, asks, ask, World, Env,
}
use vault_db_access.Web.{
  request, counting_receive, start_session, set_cookie, secure_cookie, logged_in, end_previous,
  do_login, denied, check_pre, submitted_token, session_of, revalidate, recheck, or_503, netlocs,
  header, compare_digest, check_listed, check_headers, check_csrf, allowed_hosts, admin_of,
  session_by, current_session, Request, Response, require_admin, login_submit, do_logout,
  check_origin, header_or_empty,
}
use vault_db_access.Web.Admitted.{Admitted, require_admin-Admitted}
use vault_db_access.Web.LoggedIn.{LoginAnswered, login_submit-Answered}
use vault_db_access.Web.LoggedOut.{IsOver, do_logout-IsOver}
use vault_db_access.Web.Accepted.{OwnRequest, check_origin-OwnRequest}
use vault_db_access.Web.Answers.{Ends, handle-Ends, issue_statuses, revoke_statuses}
use vault_db_access.Demo.{demo, demo_world, demo_request}

abbrev admin_session : Session
admin_session = record {
  sid = codes "old";
  username = codes "admin";
  csrf = codes "csrf";
  vault_token = codes "hvs.admin";
  created_at = 1000;
  last_seen = 1000;
  last_check = 1000;
}

abbrev signed_in : World
signed_in = record demo_world { db = record (demo_world.db) { sessions = admin_session ∷ [] } }

-- Ten minutes later, so that the policies are looked up again.
abbrev later : Env
later = record demo { time = λ h. 7000 + 3 * length h }

abbrev post : Request
post = record {
  method = codes "POST";
  path = codes "/api/grants";
  scheme = codes "https";
  request_id = codes "r1";
  headers =
      (codes "host", codes "portal")
      ∷ (codes "origin", codes "https://portal")
      ∷ (codes "x-csrf-token", codes "csrf")
      ∷ [];
  cookies = (codes "vdba_sid", codes "old") ∷ (codes "vdba_pre", codes "pre") ∷ [];
  form = ok (
      (codes "csrf_token", codes "pre")
      ∷ (codes "username", codes "admin")
      ∷ (codes "password", codes "secret")
      ∷ []);
}

require_admin-Admitted_example :
    Admitted later signed_in post admin_session (require_admin post later signed_in).1
unfolding require_admin current_session session_by get_session hash session_of recheck revalidate
    or_503 admit release user_policies matches_user is_user_char call client client_or_login login
    read_approle_files unavailable_if revoke_old token_policies touch_session touch_sessions
    find_session admin_of check_csrf check_origin check_headers check_listed allowed_hosts netlocs
    urlsplit header lookup submitted_token compare_digest ask time asks gets modify lift pure raise
    try_catch try_else on_error finally ◌>>=◌ ◌>>◌ text_eq partition drop_controls cleaned
    split_scheme location up_to_path after_last quietly
require_admin-Admitted_example =
    require_admin-Admitted post later signed_in (require_admin post later signed_in).1 admin_session
      refl

-- The password is taken, and the browser's old session is replaced.
login_submit-Answered_example :
    (response : Response) × LoginAnswered later signed_in post response
      (login_submit post later signed_in).1.db.sessions
unfolding login_submit do_login check_pre userpass_login login_error logged_in start_session
    end_previous create_session delete_session delete_sessions insert_session set_cookie
    secure_cookie audit revoke_token_quietly lookup_last denied current_session session_by
    get_session hash session_of recheck revalidate or_503 admit release user_policies matches_user
    is_user_char call client client_or_login login read_approle_files unavailable_if revoke_old
    token_policies touch_session touch_sessions find_session admin_of check_csrf check_origin
    check_headers check_listed allowed_hosts netlocs urlsplit header lookup submitted_token
    compare_digest ask time asks gets modify lift pure raise try_catch try_else on_error finally
    ◌>>=◌ ◌>>◌ text_eq partition drop_controls cleaned split_scheme location up_to_path after_last
    quietly
login_submit-Answered_example =
    (_, login_submit-Answered post later signed_in (login_submit post later signed_in).1 _ refl)

do_logout-IsOver_example :
    (response : Response) × IsOver later signed_in.db.sessions post response
      (do_logout post admin_session later signed_in).1
unfolding do_logout delete_session delete_sessions audit revoke_token_quietly current_session
    session_by get_session hash session_of recheck revalidate or_503 admit release user_policies
    matches_user is_user_char call client client_or_login login read_approle_files unavailable_if
    revoke_old token_policies touch_session touch_sessions find_session admin_of check_csrf
    check_origin check_headers check_listed allowed_hosts netlocs urlsplit header lookup
    submitted_token compare_digest ask time asks gets modify lift pure raise try_catch try_else
    on_error finally ◌>>=◌ ◌>>◌ text_eq partition drop_controls cleaned split_scheme location
    up_to_path after_last quietly
do_logout-IsOver_example = (_, do_logout-IsOver post admin_session later signed_in _ _ refl)

check_origin-OwnRequest_example :
    (check_origin demo.config post ≡ ok tt)
    ↔ OwnRequest demo.config post
        (header_or_empty (codes "sec-fetch-site") post)
        (header_or_empty (codes "origin") post)
check_origin-OwnRequest_example = check_origin-OwnRequest demo.config post

handle-Ends_example :
    Ends issue_statuses post
      (require_admin post later signed_in).0
      (handle (post_api_grants demo_request) post later signed_in).0
    × Ends revoke_statuses post
        (require_admin post later signed_in).0
        (handle (post_revoke (codes "vdba_aaaaaaaaaa")) post later signed_in).0
handle-Ends_example = handle-Ends post demo_request (codes "vdba_aaaaaaaaaa") later signed_in

counting_receive-IsLimited_example :
    let (handed, exceeded) = counting_receive 0 (request 65000 ∷ request 1000 ∷ []) in
    IsLimited 0 (request 65000 ∷ request 1000 ∷ []) handed exceeded
counting_receive-IsLimited_example =
    counting_receive-IsLimited 0 (request 65000 ∷ request 1000 ∷ []) (omega arith)

create_session-get_session_example :
    Opened later signed_in
      (codes "admin")
      (codes "hvs.2")
      (codes "sid")
      (codes "sid")
      (create_session (codes "admin") (codes "hvs.2") later signed_in).1
unfolding create_session hash insert_session find_session text_eq ask asks gets modify time raise
    pure try_else ◌>>=◌ ◌>>◌
create_session-get_session_example =
    create_session-get_session (codes "admin") (codes "hvs.2") later signed_in _ (codes "sid")
      (codes "sid") refl

-- A session that has not been used for an hour is purged, one that has is kept.
abbrev idle_session : Session
idle_session = record admin_session { sid = codes "idle"; last_seen = 0 }

abbrev two_signed_in : World
two_signed_in = record demo_world {
  db = record (demo_world.db) {
    sessions = record admin_session { last_seen = 20000 } ∷ idle_session ∷ [];
  };
}

abbrev much_later : Env
much_later = record demo { time = λ h. 37000 }

run_call-Done_example :
    IsKeyed (purge_sessions much_later two_signed_in).1.db.sessions
    × Done purge_call much_later 37000 two_signed_in.db.sessions
        (idle_session ∷ [])
        (purge_sessions much_later two_signed_in).1.db.sessions
unfolding run_call purge_sessions find_session text_eq is_stale time gets modify pure raise try_else
    ◌>>=◌ ◌>>◌
run_call-Done_example =
    run_call-Done purge_call much_later two_signed_in (purge_sessions much_later two_signed_in).1
      (idle_session ∷ []) (refl, (refl, tt)) refl

handle-Guarded_example :
    Guarded later signed_in post
      (handle (post_revoke (codes "vdba_aaaaaaaaaa")) post later signed_in).1
    × ((is_open (post_revoke (codes "vdba_aaaaaaaaaa")) ≡ true)
        ⊎ Gate later signed_in post
            (require_admin post later signed_in).0
            (require_admin post later signed_in).1
            (handle (post_revoke (codes "vdba_aaaaaaaaaa")) post later signed_in))
unfolding method_of
handle-Guarded_example =
    handle-Guarded (post_revoke (codes "vdba_aaaaaaaaaa")) post later signed_in refl
