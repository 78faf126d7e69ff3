-- ===== src/Panel/Settings/Machine.antt =====
-- The status of a server as a machine of its own, and the requests that change it: the power
-- handlers of crates/panel/src/servers.rs with `suspend_server` and `unsuspend_server` of
-- crates/panel/src/settings.rs.
use mathlib.Core.Option
use oxydactylus.Base.{ℕ, String, ◌≢◌, Option, List, [], ◌∷◌}
use oxydactylus.Panel.Store.{Uuid, Db, World, Panel}
use oxydactylus.Panel.Access.{AuthUser, server_by_id}
use oxydactylus.Panel.Power.{start_server, stop_server, restart_server}
use oxydactylus.Panel.Settings.{suspend_server, unsuspend_server}

-- A request that may change the status of a server.
pub data Change : Type 0 where
  starting : AuthUser → Change
  stopping : AuthUser → Change
  restarting : AuthUser → Change
  suspending : Change
  unsuspending : Change

unfoldable pub apply : Uuid × Change → Panel ℕ
apply (id, starting user) = start_server user id
apply (id, stopping user) = stop_server user id
apply (id, restarting user) = restart_server user id
apply (id, suspending) = suspend_server id
apply (id, unsuspending) = unsuspend_server id

unfoldable pub apply_all : List (Uuid × Change) → World → World
apply_all [] w = w
apply_all (c ∷ cs) w = apply_all cs (apply c w).1

-- The machine: what a request may make of the status of the server that it names.
pub data Moves : Change → String → String → Type 0 where
  stays : (c : Change) (s : String) → Moves c s s
  starts : (user : AuthUser) (s : String) → s ≢ "suspended" → Moves (starting user) s "running"
  start_fails : (user : AuthUser) (s : String) → s ≢ "suspended" → Moves (starting user) s "error"
  stops : (user : AuthUser) (s : String) → Moves (stopping user) s "stopped"
  restarts : (user : AuthUser) (s : String) → Moves (restarting user) s "running"
  restart_fails : (user : AuthUser) (s : String) → Moves (restarting user) s "error"
  suspends : (s : String) → Moves suspending s "suspended"
  unsuspends : Moves unsuspending "suspended" "stopped"

-- A run of the machine of one server, on requests for any.
pub data Runs (id : Uuid) : List (Uuid × Change) → String → String → Type 0 where
  finished : (s : String) → Runs id [] s s
  mine :
      (c : Change) (cs : List (Uuid × Change)) (s t u : String)
      → Moves c s t
      → Runs id cs t u
      → Runs id ((id, c) ∷ cs) s u
  foreign :
      (j : Uuid) (c : Change) (cs : List (Uuid × Change)) (s u : String)
      → j ≢ id
      → Runs id cs s u
      → Runs id ((j, c) ∷ cs) s u

unfoldable pub status_of : Uuid → Db → Option String
status_of id d = Option.map (λ s. s.status) (server_by_id id d)
