-- ===== src/Panel/Power.antt =====
-- Starting, stopping and restarting a server, and what else its users send to it:
-- crates/panel/src/servers.rs.
pub mod Laws
pub mod Status
pub mod Suspended
mod Examples
use oxydactylus.Base.{ℕ, String, Bool, Option, none, some, ◌==◌, str_eq, update, if◌then◌else◌}
use oxydactylus.Panel.Error.{validation, text, Result, ok, err}
use oxydactylus.Panel.Permissions.{control_start, control_stop, control_restart, control_console}
use oxydactylus.Panel.Store.{
  Uuid, Server, Db, NodeClient, start, stop, send_command, get_stats, Panel, pure, raise, attempt,
  or_raise, execute, send, ◌>>=◌, ◌>>◌,
}
use oxydactylus.Panel.Access.{AuthUser, fetch_server, check_server_access, get_node_client}

-- UPDATE servers SET status = … WHERE id = $1
unfoldable pub set_status : Uuid → String → Db → Db
set_status id status d = record d {
  servers = update (λ s. s.id == id) (λ s. record s { status = status }) d.servers;
}

-- The `match` on what the node answered to a start.
unfoldable pub settle : Uuid → Result (Unit {0}) → Panel ℕ
settle id (ok _) = execute (set_status id "running") >> pure 204
settle id (err e) = attempt (execute (set_status id "error")) >> raise e

-- What each handler does with the client that it has connected.
unfoldable pub launch : Uuid → NodeClient → Panel ℕ
launch id client = do answer ← attempt (send client (start id)); settle id answer

unfoldable pub halt : Uuid → NodeClient → Panel ℕ
halt id client = do send client (stop id 10); execute (set_status id "stopped"); pure 204

unfoldable pub relaunch : Uuid → NodeClient → Panel ℕ
relaunch id client = do attempt (send client (stop id 10)); launch id client

unfoldable pub start_checked : AuthUser → Server → Panel ℕ
start_checked user server w =
    if str_eq server.status "suspended"
    then raise (validation (text "cannot start a suspended server")) w
    else (do
      check_server_access user server (some control_start)
      client ← get_node_client server.node_id
      launch server.id client)
        w

unfoldable pub start_server : AuthUser → Uuid → Panel ℕ
start_server user id = do server ← fetch_server id; start_checked user server

unfoldable pub stop_server : AuthUser → Uuid → Panel ℕ
stop_server user id = do
  server ← fetch_server id
  check_server_access user server (some control_stop)
  client ← get_node_client server.node_id
  halt server.id client

unfoldable pub restart_server : AuthUser → Uuid → Panel ℕ
restart_server user id = do
  server ← fetch_server id
  check_server_access user server (some control_restart)
  client ← get_node_client server.node_id
  relaunch server.id client

-- `content` is the body's field, `none` where it is absent or no text.
unfoldable pub server_command : AuthUser → Uuid → Option String → Panel ℕ
server_command user id field = do
  content ← or_raise (validation (text "content field required")) field
  server ← fetch_server id
  check_server_access user server (some control_console)
  client ← get_node_client server.node_id
  send client (send_command server.id content)
  pure 204

unfoldable pub server_stats : AuthUser → Uuid → Panel (Unit {0})
server_stats user id = do
  server ← fetch_server id
  check_server_access user server none
  client ← get_node_client server.node_id
  send client (get_stats server.id)
