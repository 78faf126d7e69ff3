-- ===== src/Panel/Access.antt =====
-- Who may do what with a server: `check_server_access` and what goes with it in
-- crates/panel/src/servers.rs, and `check_access` of crates/panel/src/subusers.rs.
pub mod Laws
pub mod Guarded
use oxydactylus.Base.{
  String, Bool, Option, none, some, List, [], ◌∷◌, ◌==◌, ◌&&◌, ◌||◌, find, if◌then◌else◌,
}
use oxydactylus.Panel.Permissions.{contains}
use oxydactylus.Panel.Error.{PanelError, forbidden, not_found, of_id, Result, ok, err}
use oxydactylus.Panel.Store.{
  Uuid, Server, ServerSubuser, NodeRow, Db, NodeClient, Panel, pure, raise, lift, or_raise, query,
  fetch_one, open_client, ◌>>=◌, ◌>>◌,
}

-- crates/panel/src/auth.rs
pub record AuthUser : Type 0 where
  pub id : Uuid
  pub is_admin : Bool

-- SELECT … FROM servers WHERE id = $1
unfoldable pub server_by_id : Uuid → Db → Option Server
server_by_id id d = find (λ s. s.id == id) d.servers

unfoldable pub fetch_server : Uuid → Panel Server
fetch_server id = fetch_one (server_by_id id)

-- SELECT permissions FROM server_subusers WHERE server_id = $1 AND user_id = $2
unfoldable pub subuser_permissions : Uuid → Uuid → Db → Option (List String)
subuser_permissions server_id user_id d =
    elim (find (λ r. r.server_id == server_id && r.user_id == user_id) d.server_subusers) [
      | none ↦ none
      | some r ↦ some r.permissions
    ]

-- The part of `check_server_access` below its query.
unfoldable pub judge : Option String → Option (List String) → Result (Unit {0})
judge perm none = err forbidden
judge perm (some []) = err forbidden
judge none (some (_ ∷ _)) = ok tt
judge (some p) (some (q ∷ perms)) = if contains (q ∷ perms) p then ok tt else err forbidden

unfoldable pub check_server_access : AuthUser → Server → Option String → Panel (Unit {0})
check_server_access user server perm w =
    if user.is_admin || server.user_id == user.id
    then pure tt w
    else (do
      permissions ← query (subuser_permissions server.id user.id)
      lift (judge perm permissions))
        w

unfoldable pub load_server_with_access : AuthUser → Uuid → Option String → Panel Server
load_server_with_access user server_id perm = do
  server ← fetch_server server_id
  check_server_access user server perm
  pure server

-- The part of `check_access` below its second query.
unfoldable pub judge_access : String → Option (List String) → Result (Unit {0})
judge_access perm none = err forbidden
judge_access perm (some perms) = if contains perms perm then ok tt else err forbidden

-- The part of `check_access` that knows the server, by its owner.
unfoldable pub check_access_of : AuthUser → Uuid → Uuid → String → Panel (Unit {0})
check_access_of user server_id owner_id perm w =
    if owner_id == user.id
    then pure tt w
    else (do
      permissions ← query (subuser_permissions server_id user.id)
      lift (judge_access perm permissions))
        w

unfoldable pub check_access : AuthUser → Uuid → String → Panel (Unit {0})
check_access user server_id perm w =
    if user.is_admin
    then pure tt w
    else (do
      owner ← query (server_by_id server_id)
      server ← or_raise (not_found (of_id "server {}" server_id)) owner
      check_access_of user server_id server.user_id perm)
        w

-- SELECT grpc_addr, token FROM nodes WHERE id = $1
unfoldable pub node_by_id : Uuid → Db → Option NodeRow
node_by_id id d = find (λ n. n.id == id) d.nodes

unfoldable pub get_node_client : Uuid → Panel NodeClient
get_node_client node_id = do
  found ← query (node_by_id node_id)
  row ← or_raise (not_found (of_id "node {}" node_id)) found
  open_client row.grpc_addr row.token
