-- ===== src/Panel/Power/Suspended.antt =====
-- That a suspension holds back `start_server` only.
use oxydactylus.Base.{◌≡◌, some, arith}
use oxydactylus.Panel.Error.{ok}
use oxydactylus.Panel.Permissions.{control_restart}
use oxydactylus.Panel.Store.{
  Server, NodeRow, Db, calm, query, fetch_one, execute, send, open_client,
}
use oxydactylus.Panel.Access.{AuthUser, server_by_id, fetch_server, node_by_id, get_node_client}
use oxydactylus.Panel.Access.Laws.{Allowed, OneSubuser, check_server_access-calm}
use oxydactylus.Panel.Power.{launch, relaunch, settle, restart_server}

-- Where no statement fails and the node answers, a user who may restart a server does so, whatever
-- the server's status is: a suspension does not stop it.
restart_server-calm :
    (user : AuthUser) (s : Server) (n : NodeRow) (d : Db)
    → OneSubuser d
    → server_by_id s.id d ≡ some s
    → node_by_id s.node_id d ≡ some n
    → Allowed user s (some control_restart) d
    → (restart_server user s.id (calm d)).0 ≡ ok 204
unfolding restart_server fetch_server fetch_one query get_node_client open_client relaunch launch
    settle send execute
restart_server-calm user s n d one found node_found allowed =
    ground (arith, check_server_access-calm user s (some control_restart) d one allowed)
