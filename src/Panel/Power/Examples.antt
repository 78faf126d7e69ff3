-- ===== src/Panel/Power/Examples.antt =====
-- Runs of the access checks and of the power handlers on the sample database.
use oxydactylus.Base.{◌≡◌, ◌≢◌, refl, ◌↔◌, ◌⊎◌, some, find, true}
use oxydactylus.Panel.Error.{ok, err, forbidden, validation, text}
use oxydactylus.Panel.Permissions.{control_start, control_restart, is_valid_permission, user_read}
use oxydactylus.Panel.Store.{calm, statement, query, fetch_one, execute, send, open_client}
use oxydactylus.Panel.Store.Frame.{Quiet}
use oxydactylus.Panel.Sample.{
  sample_db, sample-OneSubuser, server_of, helper_user, owner_user, stranger,
}
use oxydactylus.Panel.Access.{
  server_by_id, fetch_server, subuser_permissions, judge, check_server_access, judge_access,
  check_access, check_access_of, node_by_id, get_node_client,
}
use oxydactylus.Panel.Access.Laws.{Allowed, check_server_access_iff}
use oxydactylus.Panel.Access.Guarded.{Authorised}
use oxydactylus.Panel.Power.{
  settle, launch, relaunch, halt, start_checked, start_server, stop_server, restart_server,
}
use oxydactylus.Panel.Power.Laws.{start_server-guarded}

power : Unit {0}
unfolding find server_by_id fetch_server subuser_permissions judge judge_access check_server_access
    check_access check_access_of node_by_id get_node_client settle launch relaunch halt
    start_checked start_server stop_server restart_server statement query fetch_one execute send
    open_client
power = tt

start_tests :
    ((start_server owner_user 11 (calm sample_db)).0 ≡ ok 204)
    × ((start_server owner_user 10 (calm sample_db)).0
        ≡ err (validation (text "cannot start a suspended server")))
    × ((start_server stranger 11 (calm sample_db)).0 ≡ err forbidden)
unfolding power
start_tests = (refl, refl, refl)

restart_test : (restart_server helper_user 10 (calm sample_db)).0 ≡ ok 204
unfolding power
restart_test = refl

stop_test : (stop_server helper_user 10 (calm sample_db)).0 ≡ ok 204
unfolding power
stop_test = refl

check_server_access_iff_example :
    ((check_server_access helper_user
        (server_of 10 7 "suspended")
        (some control_restart)
        (calm sample_db)).0
      ≡ ok tt)
    ↔ Allowed helper_user (server_of 10 7 "suspended") (some control_restart) sample_db
check_server_access_iff_example =
    check_server_access_iff helper_user (server_of 10 7 "suspended") (some control_restart)
      (calm sample_db) refl sample-OneSubuser

start_server-guarded_example :
    Quiet (calm sample_db) (start_server owner_user 11 (calm sample_db)).1
    ⊎ ((a : Authorised owner_user 11 (some control_start) sample_db) × (a.server.status
          ≢ "suspended"))
start_server-guarded_example = start_server-guarded owner_user 11 (calm sample_db)

known : is_valid_permission user_read ≡ true
unfolding is_valid_permission
known = refl
