-- ===== src/Panel/Nodes.antt =====
-- The nodes of the panel: crates/panel/src/nodes.rs.
pub mod Placed
mod Examples
use oxydactylus.Base.{
  ℕ, String, Bool, ◌==◌, ◌||◌, not, ltb, str_eq, is_some_of, none, List, [], ◌∷◌, ◌++◌, any, update,
  delete, count, order_by, if◌then◌else◌,
}
use oxydactylus.Base.Text.{is_empty}
use oxydactylus.Panel.Error.{
  validation, not_found, of_id, text, Result, ok, err, constraint, from_sqlx,
}
use oxydactylus.Panel.Store.{
  Uuid, Time, NodeRow, DatabaseHost, Db, Panel, pure, raise, lift, query, statement, ◌>>=◌, ◌>>◌,
}

pub record CreateNodeRequest : Type 0 where
  pub name : String
  pub grpc_addr : String
  pub token : String

unfoldable pub list_nodes : Panel (List NodeRow)
list_nodes = query (λ d. order_by (λ a b. ltb a.created_at b.created_at) d.nodes)

abbrev pub new_node : Uuid → Time → CreateNodeRequest → NodeRow
new_node id now body = record {
  id = id;
  name = body.name;
  grpc_addr = body.grpc_addr;
  token = body.token;
  created_at = now;
}

-- INSERT INTO nodes …, which fails on UNIQUE (name).
unfoldable pub insert_node : NodeRow → Db → Result NodeRow × Db
insert_node n d =
    if any (λ m. str_eq m.name n.name) d.nodes
    then (err (from_sqlx (d.violation "nodes.name")), d)
    else (ok n, record d { nodes = d.nodes ++ (n ∷ []) })

unfoldable pub create_node : Uuid → Time → CreateNodeRequest → Panel NodeRow
create_node id now body w =
    if is_empty body.name || is_empty body.grpc_addr || is_empty body.token
    then raise (validation (text "name, grpc_addr, and token are required")) w
    else (do inserted ← statement (insert_node (new_node id now body)); lift inserted) w

-- `ON DELETE SET NULL` of `database_hosts`
abbrev pub without_node : DatabaseHost → DatabaseHost
without_node h = record h { node_id = none }

-- DELETE FROM nodes WHERE id = $1, with what refers to the row: a server on the node stops the
-- deletion (ON DELETE RESTRICT), the allocations go with it, a host forgets it. The result is the
-- number of rows.
unfoldable pub delete_node_rows : Uuid → Db → Result ℕ × Db
delete_node_rows id d =
    if not (any (λ n. n.id == id) d.nodes)
    then (ok 0, d)
    else if any (λ s. s.node_id == id) d.servers
    then (err (from_sqlx (d.violation "servers.node_id")), d)
    else (
      ok (count (λ n. n.id == id) d.nodes),
      record d {
        nodes = delete (λ n. n.id == id) d.nodes;
        allocations = delete (λ a. a.node_id == id) d.allocations;
        database_hosts = update (λ h. is_some_of h.node_id id) without_node d.database_hosts;
      },
    )

unfoldable pub removed_node : Uuid → ℕ → Panel ℕ
removed_node id rows w = if rows == 0 then raise (not_found (of_id "{}" id)) w else pure 204 w

unfoldable pub delete_node : Uuid → Panel ℕ
delete_node id = do
  deleted ← statement (delete_node_rows id)
  rows ← lift deleted
  removed_node id rows
