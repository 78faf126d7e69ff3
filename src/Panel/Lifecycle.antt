-- ===== src/Panel/Lifecycle.antt =====
-- The life of a server: `create_server`, `get_server`, `delete_server` and `provision_server` of
-- crates/panel/src/servers.rs. That the caller is an administrator is checked before, where it must
-- be, by the extractor `AdminUser`.
pub mod Deleted
pub mod Inserted
pub mod Created
mod Examples
use oxydactylus.Base.{
  ℕ, String, Bool, true, false, not, ◌&&◌, ◌||◌, ◌==◌, Option, none, some, List, [], ◌∷◌, ◌++◌, any,
  str_eq, is_some_of, select, order_by, ltb, update, delete, count, if◌then◌else◌,
}
use oxydactylus.Base.Int.{ℤ, pos, leb_ℤ, as_u32}
use oxydactylus.Base.Text.{◌+++◌, is_empty, concat}
use oxydactylus.Panel.Error.{validation, forbidden, text, Result, ok, err, from_sqlx}
use oxydactylus.Panel.Store.{
  Uuid, Time, Server, Allocation, Db, NodeClient, provision, stop, Panel, pure, raise, lift,
  attempt, query, execute, statement, send, ◌>>=◌, ◌>>◌,
}
use oxydactylus.Panel.Store
use oxydactylus.Panel.Access.{AuthUser, fetch_server, get_node_client}
use oxydactylus.Panel.Network.{belongs, allocations_of, set_primary}
use oxydactylus.Panel.Power.{set_status}
use oxydactylus.Panel.EggVars.{load_egg_env}

unfoldable pub owned_by : AuthUser → Server → Panel Server
owned_by user server w =
    if not user.is_admin && not (server.user_id == user.id)
    then raise forbidden w
    else pure server w

unfoldable pub get_server : AuthUser → Uuid → Panel Server
get_server user id = fetch_server id >>= owned_by user

-- DELETE FROM servers WHERE id = $1, with the rows that refer to the server (ON DELETE CASCADE).
-- The column `server_id` of `allocations` refers to no table.
unfoldable pub delete_server_row : Uuid → Db → Db
delete_server_row id d = record d {
  servers = delete (λ s. s.id == id) d.servers;
  server_subusers = delete (λ r. r.server_id == id) d.server_subusers;
  backups = delete (λ b. b.server_id == id) d.backups;
  schedules = delete (λ s. s.server_id == id) d.schedules;
  schedule_tasks =
      delete (λ t. any (λ s. s.server_id == id && s.id == t.schedule_id) d.schedules)
        d.schedule_tasks;
  activity_logs = delete (λ e. is_some_of e.server_id id) d.activity_logs;
  server_databases = delete (λ b. b.server_id == id) d.server_databases;
}

-- The requests of `delete_server`, where a client could be connected.
unfoldable pub take_down : Uuid → Result NodeClient → Panel (Unit {0})
take_down id (err _) = pure tt
take_down id (ok client) = do
  attempt (send client (stop id 10))
  attempt (send client (Store.delete id))
  pure tt

unfoldable pub delete_server : Uuid → Panel ℕ
delete_server id = do
  server ← fetch_server id
  client ← attempt (get_node_client server.node_id)
  take_down server.id client
  execute (delete_server_row id)
  pure 204

-- `port_text` is what `format!` makes of a number.
module _ (port_text : ℤ → String) where
  abbrev pub binding : Allocation → String → String
  binding a protocol =
      concat (a.ip ∷ ":" ∷ port_text a.port ∷ ":" ∷ port_text a.port ∷ protocol ∷ [])

  abbrev pub bindings : List Allocation → List String
  bindings [] = []
  bindings (a ∷ rest) = binding a "/tcp" ∷ binding a "/udp" ∷ bindings rest

  unfoldable pub fetch_server_ports : Uuid → Panel (List String)
  fetch_server_ports server_id = query (λ d. bindings (allocations_of server_id d))

  unfoldable pub provision_server : Uuid → Panel ℕ
  provision_server id = do
    server ← fetch_server id
    ports ← fetch_server_ports server.id
    client ← get_node_client server.node_id
    send client (
        provision server.id server.image (as_u32 server.memory_mb) (as_u32 server.cpu_percent)
          server.env ports)
    pure 204

pub record CreateServerRequest : Type 0 where
  pub node_id : Uuid
  pub name : String
  pub image : String
  pub memory_mb : ℤ
  pub cpu_percent : ℤ
  pub env : List String
  pub egg_id : Option Uuid
  pub egg_vars : List (String × String)
  pub user_id : Option Uuid
  pub allocation_id : Option Uuid

-- UPDATE allocations SET server_id = $1 WHERE id = $2 AND node_id = $3 AND server_id IS NULL, with the
-- number of rows that it affects
abbrev pub is_free : Uuid → Uuid → Allocation → Bool
is_free id node_id a =
    a.id == id && a.node_id == node_id && (elim a.server_id [ none ↦ true | some _ ↦ false ])

unfoldable pub link : Uuid → Uuid → Uuid → Db → ℕ × Db
link server_id id node_id d = (
  count (is_free id node_id) d.allocations,
  record d {
    allocations =
        update (is_free id node_id) (λ a. record a { server_id = some server_id }) d.allocations;
  },
)

-- The references of a row that has no allocation yet, and UNIQUE(name).
abbrev pub has_egg_of : Option Uuid → Db → Bool
has_egg_of none d = true
has_egg_of (some egg_id) d = any (λ e. e.id == egg_id) d.eggs

unfoldable pub insert_server : Server → Db → Result Server × Db
insert_server s d =
    if not (any (λ u. u.id == s.user_id) d.users)
    then (err (from_sqlx (d.violation "servers.user_id")), d)
    else if not (any (λ n. n.id == s.node_id) d.nodes)
    then (err (from_sqlx (d.violation "servers.node_id")), d)
    else if not (has_egg_of s.egg_id d)
    then (err (from_sqlx (d.violation "servers.egg_id")), d)
    else if any (λ t. str_eq t.name s.name) d.servers
    then (err (from_sqlx (d.violation "servers.name")), d)
    else (ok s, record d { servers = d.servers ++ (s ∷ []) })

-- `new_regex` is `Regex::new`; `id` is the identifier that `Uuid::new_v4` makes, `now` is the time.
module _ (new_regex : String → Option (String → Bool)) (port_text : ℤ → String) (id : Uuid)
    (now : Time) where
  abbrev pub owner_of : AuthUser → Option Uuid → Uuid
  owner_of admin none = admin.id
  owner_of admin (some user_id) = user_id

  -- The row that is inserted, with the defaults of the columns that are not named.
  abbrev pub new_server : AuthUser → CreateServerRequest → List String → Server
  new_server admin body env = record {
    id = id;
    user_id = owner_of admin body.user_id;
    node_id = body.node_id;
    allocation_id = none;
    egg_id = body.egg_id;
    name = body.name;
    image = body.image;
    memory_mb = body.memory_mb;
    cpu_percent = body.cpu_percent;
    env = env;
    status = "installing";
    database_limit = pos 0;
    backup_limit = pos 0;
    allocation_limit = pos 1;
    created_at = now;
  }

  unfoldable pub egg_env : CreateServerRequest → Option Uuid → Panel (List String)
  egg_env body none = pure body.env
  egg_env body (some egg_id) = do
    resolved ← load_egg_env new_regex body.egg_vars egg_id
    pure (body.env ++ resolved)

  unfoldable pub linked : Server → Uuid → ℕ → Panel Server
  linked server allocation_id rows w =
      if rows == 0
      then (attempt (execute (delete_server_row server.id))
            >> raise (validation (text "allocation not found, wrong node, or already assigned")))
          w
      else (execute (set_primary allocation_id server.id)
            >> pure (record server { allocation_id = some allocation_id }))
          w

  unfoldable pub link_allocation : CreateServerRequest → Server → Option Uuid → Panel Server
  link_allocation body server none = pure server
  link_allocation body server (some allocation_id) =
      statement (link server.id allocation_id body.node_id) >>= linked server allocation_id

  -- The `match` on what the node answered to the provision.
  unfoldable pub provisioned : Server → Result (Unit {0}) → Panel Server
  provisioned server (err e) = attempt (execute (delete_server_row server.id)) >> raise e
  provisioned server (ok _) =
      execute (set_status server.id "stopped") >> pure (record server { status = "stopped" })

  -- `create_server` below the statements on the allocation.
  unfoldable pub provision_new : List String → Server → Panel Server
  provision_new env server = do
    ports ← fetch_server_ports port_text server.id
    client ← get_node_client server.node_id
    answer ← attempt (
        send client (
          provision server.id server.image (as_u32 server.memory_mb) (as_u32 server.cpu_percent) env
            ports))
    provisioned server answer

  unfoldable pub create_row : AuthUser → CreateServerRequest → List String → Panel Server
  create_row admin body env = do
    row ← statement (insert_server (new_server admin body env))
    inserted ← lift row
    server ← link_allocation body inserted body.allocation_id
    provision_new env server

  unfoldable pub create_valid : AuthUser → CreateServerRequest → Panel Server
  create_valid admin body = egg_env body body.egg_id >>= create_row admin body

  unfoldable pub create_server : AuthUser → CreateServerRequest → Panel Server
  create_server admin body w =
      if leb_ℤ body.memory_mb (pos 0) || leb_ℤ body.cpu_percent (pos 0)
      then raise (validation (text "memory_mb and cpu_percent must be positive")) w
      else if is_empty body.name || is_empty body.image
      then raise (validation (text "name and image are required")) w
      else create_valid admin body w

abbrev pub by_creation : Server → Server → Bool
by_creation s t = ltb s.created_at t.created_at

unfoldable pub list_servers : AuthUser → Panel (List Server)
list_servers user w =
    if user.is_admin
    then query (λ d. order_by by_creation d.servers) w
    else query (λ d. order_by by_creation (select (λ s. s.user_id == user.id) d.servers)) w
