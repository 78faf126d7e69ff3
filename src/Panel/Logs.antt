-- ===== src/Panel/Logs.antt =====
-- The log of a server in the panel: `stream_logs` of crates/panel/src/node_client.rs and
-- `stream_server_logs` of crates/panel/src/servers.rs.
pub mod Streamed
mod Examples
use Prim.Native.Char.{Char, code}
use Prim.Native.String.{[] as []ˢ, ◌∷◌ as ◌∷ˢ◌}
use oxydactylus.Base.{ℕ, String, Bool, ◌==◌, ◌||◌, some, List, [], ◌∷◌, map, if◌then◌else◌}
use oxydactylus.Base.Text.{◌+++◌}
use oxydactylus.Node.Error.{Status, internal, not_found, invalid_argument, Result, ok, err}
use oxydactylus.Node.Service.Logs.{LogLine}
use oxydactylus.Panel.Store.{Uuid, Panel, stream_logs, send, ◌>>=◌, ◌>>◌}
use oxydactylus.Panel.Permissions.{control_console}
use oxydactylus.Panel.Access.{AuthUser, fetch_server, check_server_access, get_node_client}

-- `trim_end_matches(['\r', '\n'])`
abbrev keep_line : Char → String → String
keep_line c []ˢ = if code c == 13 || code c == 10 then []ˢ else c ∷ˢ []ˢ
keep_line c (d ∷ˢ s) = c ∷ˢ d ∷ˢ s

unfoldable pub trim_line_end : String → String
trim_line_end []ˢ = []ˢ
trim_line_end (c ∷ˢ s) = keep_line c (trim_line_end s)

abbrev pub message : Status → String
message (internal s) = s
message (not_found s) = s
message (invalid_argument s) = s

-- An event of the response, its name and its data.
pub record Event : Type 0 where
  pub name : String
  pub data_text : String

-- `PanelError::from` of a status is `Node` of its message, which `to_string` writes so.
unfoldable pub event_of : Result Status LogLine → Event
unfolding trim_line_end
event_of (ok line) = record { name = line.stream; data_text = trim_line_end line.content }
event_of (err status) = record { name = "error"; data_text = "node error: " +++ message status }

unfoldable pub events_of : List (Result Status LogLine) → List Event
events_of items = map event_of items

-- Up to the request for the stream.
unfoldable pub stream_server_logs : AuthUser → Uuid → Bool → Panel (Unit {0})
stream_server_logs user id follow = do
  server ← fetch_server id
  check_server_access user server (some control_console)
  client ← get_node_client server.node_id
  send client (stream_logs server.id follow)
