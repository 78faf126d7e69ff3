-- ===== src/Panel/ServerFiles/Examples.antt =====
-- Requests for the files of a server of the sample database.
use oxydactylus.Base.{◌≡◌, refl, ◌⊎◌, some, false, find}
use oxydactylus.Panel.Error.{ok, err, forbidden}
use oxydactylus.Panel.Store.{calm, query, fetch_one, send, open_client}
use oxydactylus.Panel.Store.Frame.{Quiet}
use oxydactylus.Panel.Access.{
  server_by_id, fetch_server, check_server_access, subuser_permissions, judge,
  load_server_with_access, node_by_id, get_node_client,
}
use oxydactylus.Panel.Access.Guarded.{Authorised}
use oxydactylus.Panel.Sample.{sample_db, owner_user, stranger}
use oxydactylus.Panel.ServerFiles.{ask_node, remove_files}
use oxydactylus.Panel.ServerFiles.Asked.{removing, file_route, file_route-guarded}

remove_tests :
    ((remove_files owner_user 11 "/world" false (calm sample_db)).0 ≡ ok 204)
    × ((remove_files stranger 11 "/world" false (calm sample_db)).0 ≡ err forbidden)
unfolding remove_files ask_node load_server_with_access fetch_server check_server_access
    subuser_permissions judge server_by_id node_by_id get_node_client find query fetch_one send
    open_client
remove_tests = (refl, refl)

file_route-guarded_example :
    Quiet (calm sample_db) (file_route owner_user 11 (removing "/world" false) (calm sample_db)).1
    ⊎ Authorised owner_user 11 (some "file.delete") sample_db
file_route-guarded_example =
    file_route-guarded owner_user 11 (removing "/world" false) (calm sample_db)
