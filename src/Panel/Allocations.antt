-- ===== src/Panel/Allocations.antt =====
-- The allocations of a node: crates/panel/src/allocations.rs. What its callers must be is checked
-- before a handler runs (by the extractor `AdminUser`), and is not modelled here.
pub mod Rows
pub mod Created
pub mod Deleted
mod Examples
use oxydactylus.Base.{
  ℕ, suc, String, Bool, false, ◌&&◌, ◌==◌, Option, none, some, List, [], ◌∷◌, ◌++◌, any, find,
  select, delete, str_eq, if◌then◌else◌,
}
use oxydactylus.Base.Int.{ℤ, pos, negsuc}
use oxydactylus.Base.Text.{is_empty, trim}
use oxydactylus.Panel.Error.{validation, not_found, text}
use oxydactylus.Panel.Store.{
  Uuid, Time, Allocation, Db, Panel, pure, raise, lift, query, execute, ◌>>=◌, ◌>>◌,
}
use oxydactylus.Panel.Ports.{PortVal, resolve_ports}

pub record CreateAllocationsRequest : Type 0 where
  pub ip : String
  pub ip_alias : Option String
  pub ports : List PortVal

abbrev pub eq_ℤ : ℤ → ℤ → Bool
eq_ℤ (pos a) (pos b) = a == b
eq_ℤ (negsuc a) (negsuc b) = a == b
eq_ℤ _ _ = false

-- The columns of `UNIQUE(node_id, ip, port)`
abbrev pub is_at : Uuid → String → ℤ → Allocation → Bool
is_at node_id ip port a = a.node_id == node_id && str_eq a.ip ip && eq_ℤ a.port port

-- INSERT INTO allocations … ON CONFLICT(node_id, ip, port) DO NOTHING
unfoldable pub insert_allocation : Allocation → Db → Db
insert_allocation a d = record d {
  allocations =
      if any (is_at a.node_id a.ip a.port) d.allocations
      then d.allocations
      else d.allocations ++ (a ∷ []);
}

-- SELECT * FROM allocations WHERE node_id = $1 (its order by port is not modelled)
unfoldable pub list_allocations : Uuid → Panel (List Allocation)
list_allocations node_id = query (λ d. select (λ a. a.node_id == node_id) d.allocations)

-- `new_id` are the identifiers that `Uuid::new_v4` makes one after the other, `now` is the time.
module _ (new_id : ℕ → Uuid) (now : Time) where
  abbrev pub fresh_allocation : ℕ → Uuid → CreateAllocationsRequest → ℤ → Allocation
  fresh_allocation k node_id body port = record {
    id = new_id k;
    node_id = node_id;
    ip = body.ip;
    ip_alias = body.ip_alias;
    port = port;
    server_id = none;
    created_at = now;
  }

  -- The loop over the resolved ports.
  unfoldable pub insert_ports : ℕ → Uuid → CreateAllocationsRequest → List ℤ → Panel ℕ
  insert_ports k node_id body [] = pure 201
  insert_ports k node_id body (port ∷ ports) =
      execute (insert_allocation (fresh_allocation k node_id body port))
      >> insert_ports (suc k) node_id body ports

  unfoldable pub create_resolved : Uuid → CreateAllocationsRequest → List ℤ → Panel ℕ
  unfolding insert_ports
  create_resolved node_id body [] = raise (validation (text "ports list cannot be empty"))
  create_resolved node_id body (port ∷ ports) = insert_ports 0 node_id body (port ∷ ports)

  unfoldable pub create_allocations : Uuid → CreateAllocationsRequest → Panel ℕ
  unfolding create_resolved
  create_allocations node_id body w =
      if is_empty (trim body.ip)
      then raise (validation (text "IP address cannot be empty")) w
      else (lift (resolve_ports body.ports) >>= create_resolved node_id body) w

-- SELECT server_id FROM allocations WHERE id = $1
unfoldable pub row_of : Uuid → Db → Option Allocation
row_of id d = find (λ a. a.id == id) d.allocations

-- DELETE FROM allocations WHERE id = $1
unfoldable pub delete_row : Uuid → Db → Db
delete_row id d = record d { allocations = delete (λ a. a.id == id) d.allocations }

abbrev pub delete_unassigned : Uuid → Option Uuid → Panel ℕ
delete_unassigned id none = execute (delete_row id) >> pure 204
delete_unassigned id (some _) =
    raise (validation (text "cannot delete allocation assigned to a server"))

-- `delete_allocation` below the query of the row.
unfoldable pub delete_found : Uuid → Option Allocation → Panel ℕ
delete_found id none = raise (not_found (text "allocation not found"))
delete_found id (some a) = delete_unassigned id a.server_id

unfoldable pub delete_allocation : Uuid → Panel ℕ
delete_allocation id = query (row_of id) >>= delete_found id
