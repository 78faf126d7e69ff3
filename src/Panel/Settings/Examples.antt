-- ===== src/Panel/Settings/Examples.antt =====
-- A run of requests on the sample database: a suspended server that is stopped and then started.
use oxydactylus.Base.{◌≡◌, refl, String, some, List, [], ◌∷◌, find, update}
use oxydactylus.Panel.Store.{Uuid, calm, query, fetch_one, execute, send, open_client}
use oxydactylus.Panel.Access.{
  server_by_id, fetch_server, check_server_access, node_by_id, get_node_client,
}
use oxydactylus.Panel.Sample.{sample_db, owner_user}
use oxydactylus.Panel.Power.{
  set_status, settle, launch, halt, start_checked, start_server, stop_server,
}
use oxydactylus.Panel.Settings.{suspend_server}
use oxydactylus.Panel.Settings.Machine.{
  Change, starting, stopping, suspending, apply, apply_all, Runs, status_of,
}
use oxydactylus.Panel.Settings.Status.{apply_all-Runs}

abbrev requests : List (Uuid × Change)
requests =
    (11, suspending)
    ∷ (11, starting owner_user)
    ∷ (11, stopping owner_user)
    ∷ (11, starting owner_user)
    ∷ []

run_test : status_of 11 (apply_all requests (calm sample_db)).db ≡ some "running"
unfolding apply_all apply status_of server_by_id find update fetch_server check_server_access
    node_by_id get_node_client set_status settle launch halt start_checked start_server stop_server
    suspend_server query fetch_one execute send open_client
run_test = refl

stopped : status_of 11 sample_db ≡ some "stopped"
unfolding status_of server_by_id find
stopped = refl

apply_all-Runs_example :
    (t : String) × (status_of 11 (apply_all requests (calm sample_db)).db ≡ some t)
    × Runs 11 requests "stopped" t
apply_all-Runs_example = apply_all-Runs 11 requests "stopped" (calm sample_db) stopped
