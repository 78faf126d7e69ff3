-- ===== src/Panel/Network.antt =====
-- The allocations of a server, `crates/panel/src/servers.rs` from `list_server_network` on.
pub mod Rows
pub mod Invariants
pub mod Handlers
pub mod Limit
mod Examples
use oxydactylus.Base.{
  ℕ, String, Bool, true, false, not, ◌&&◌, Option, none, some, List, ◌==◌, is_some_of, find, select,
  update, count, if◌then◌else◌,
}
use oxydactylus.Base.Int.{ℤ, pos, leb_ℤ}
use oxydactylus.Panel.Error.{validation, not_found, text}
use oxydactylus.Panel.Permissions.{network_read, network_update, network_delete}
use oxydactylus.Panel.Store.{
  Uuid, Server, Allocation, Db, Panel, pure, raise, or_raise, query, execute, statement, ◌>>=◌,
  ◌>>◌,
}
use oxydactylus.Panel.Access.{AuthUser, fetch_server, check_server_access}

-- WHERE server_id = $1
abbrev pub belongs : Uuid → Allocation → Bool
belongs server_id a = is_some_of a.server_id server_id

-- SELECT * FROM allocations WHERE server_id = $1 (its order by port is not modelled)
unfoldable pub allocations_of : Uuid → Db → List Allocation
allocations_of server_id d = select (belongs server_id) d.allocations

-- SELECT COUNT(*) FROM allocations WHERE server_id = $1
unfoldable pub count_of : Uuid → Db → ℕ
count_of server_id d = count (belongs server_id) d.allocations

-- SELECT … FROM allocations WHERE id = $1
unfoldable pub allocation_by_id : Uuid → Db → Option Allocation
allocation_by_id id d = find (λ a. a.id == id) d.allocations

-- UPDATE allocations SET server_id = $1 WHERE id = $2
unfoldable pub assign : Uuid → Uuid → Db → Db
assign server_id id d = record d {
  allocations =
      update (λ a. a.id == id) (λ a. record a { server_id = some server_id }) d.allocations;
}

-- UPDATE allocations SET server_id = NULL WHERE id = $1 AND server_id = $2
unfoldable pub unassign : Uuid → Uuid → Db → Db
unassign id server_id d = record d {
  allocations =
      update (λ a. a.id == id && belongs server_id a) (λ a. record a { server_id = none })
        d.allocations;
}

-- UPDATE servers SET allocation_id = $1 WHERE id = $2
unfoldable pub set_primary : Uuid → Uuid → Db → Db
set_primary allocation_id server_id d = record d {
  servers =
      update (λ s. s.id == server_id) (λ s. record s { allocation_id = some allocation_id })
        d.servers;
}

unfoldable pub list_server_network : AuthUser → Uuid → Panel (List Allocation)
list_server_network user id = do
  server ← fetch_server id
  check_server_access user server (some network_read)
  query (allocations_of server.id)

abbrev is_some : Option Uuid → Bool
is_some none = false
is_some (some _) = true

-- `assign_allocation` below the query of the allocation.
unfoldable pub assign_found : Server → Uuid → Allocation → Panel ℕ
assign_found server allocation_id a w =
    if not (a.node_id == server.node_id)
    then raise (validation (text "allocation belongs to a different node")) w
    else if is_some a.server_id
    then raise (validation (text "allocation is already assigned to a server")) w
    else (execute (assign server.id allocation_id) >> pure 200) w

-- `assign_allocation` below the count.
unfoldable pub assign_counted : Server → Uuid → ℕ → Panel ℕ
assign_counted server allocation_id n w =
    if leb_ℤ server.allocation_limit (pos n)
    then raise (validation (text "allocation limit reached for this server")) w
    else (do
      found ← query (allocation_by_id allocation_id)
      a ← or_raise (not_found (text "allocation not found")) found
      assign_found server allocation_id a)
        w

unfoldable pub assign_allocation : AuthUser → Uuid → Uuid → Panel ℕ
assign_allocation user id allocation_id = do
  server ← fetch_server id
  check_server_access user server (some network_update)
  n ← query (count_of server.id)
  assign_counted server allocation_id n

-- The rows that the update of `remove_allocation` affects, with the update.
unfoldable pub unassign_counting : Uuid → Uuid → Db → ℕ × Db
unassign_counting id server_id d =
    (count (λ a. a.id == id && belongs server_id a) d.allocations, unassign id server_id d)

unfoldable pub removed : ℕ → Panel ℕ
removed n w =
    if n == 0 then raise (not_found (text "allocation not found on this server")) w else pure 204 w

unfoldable pub remove_checked : Server → Uuid → Panel ℕ
remove_checked server allocation_id w =
    if is_some_of server.allocation_id allocation_id
    then raise (validation (text "cannot remove the primary allocation of a server")) w
    else (do
      rows_affected ← statement (unassign_counting allocation_id server.id)
      removed rows_affected)
        w

unfoldable pub remove_allocation : AuthUser → Uuid → Uuid → Panel ℕ
remove_allocation user id allocation_id = do
  server ← fetch_server id
  check_server_access user server (some network_delete)
  remove_checked server allocation_id

abbrev server_of : Option Allocation → Option Uuid
server_of none = none
server_of (some a) = a.server_id

-- `make_allocation_primary` below the query of the allocation.
unfoldable pub make_primary_found : Server → Uuid → Option Allocation → Panel ℕ
make_primary_found server allocation_id found w =
    if is_some_of (server_of found) server.id
    then (execute (set_primary allocation_id server.id) >> pure 200) w
    else raise (validation (text "allocation does not belong to this server")) w

unfoldable pub make_allocation_primary : AuthUser → Uuid → Uuid → Panel ℕ
make_allocation_primary user id allocation_id = do
  server ← fetch_server id
  check_server_access user server (some network_update)
  found ← query (allocation_by_id allocation_id)
  make_primary_found server allocation_id found
