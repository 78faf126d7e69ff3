-- ===== src/Panel/Sample.antt =====
-- A small database for the tests: one node, two servers and an allocation of each.
use oxydactylus.Panel.Access.Laws.{OneSubuser}
use oxydactylus.Base.{Memᴰ, ◌∙◌, sym, String, false, none, some, List, [], ◌∷◌}
use oxydactylus.Base.Int.{pos}
use oxydactylus.Panel.Permissions.{control_restart, control_stop, network_update, user_read}
use oxydactylus.Panel.Store.{Uuid, Server, Allocation, ServerSubuser, NodeRow, Db, empty_db}
use oxydactylus.Panel.Access.{AuthUser}

abbrev pub server_of : Uuid → Uuid → String → Server
server_of id user_id status = record {
  id = id;
  user_id = user_id;
  node_id = 1;
  allocation_id = none;
  egg_id = none;
  name = "survival";
  image = "eclipse-temurin";
  memory_mb = pos 1024;
  cpu_percent = pos 100;
  env = "EULA=true" ∷ [];
  status = status;
  database_limit = pos 0;
  backup_limit = pos 0;
  allocation_limit = pos 2;
  created_at = 0;
}

abbrev pub free_allocation : Allocation
free_allocation = record {
  id = 50;
  node_id = 1;
  ip = "10.0.0.1";
  ip_alias = none;
  port = pos 25565;
  server_id = none;
  created_at = 0;
}

abbrev pub helper : ServerSubuser
helper = record {
  id = 70;
  server_id = 10;
  user_id = 8;
  permissions = control_restart ∷ control_stop ∷ network_update ∷ user_read ∷ [];
  created_at = 0;
}

abbrev pub sample_node : NodeRow
sample_node = record {
  id = 1;
  name = "node";
  grpc_addr = "http://node";
  token = "secret";
  created_at = 0;
}

-- Server 10 of user 7 is suspended, server 11 of user 7 is stopped; user 8 helps with server 10.
abbrev pub sample_db : Db
sample_db = record empty_db {
  servers = server_of 10 7 "suspended" ∷ server_of 11 7 "stopped" ∷ [];
  allocations = free_allocation ∷ [];
  server_subusers = helper ∷ [];
  nodes = sample_node ∷ [];
}

pub sample-OneSubuser : OneSubuser sample_db
sample-OneSubuser r s (Memᴰ.head e) (Memᴰ.head e') _ _ = e ∙ sym e'
sample-OneSubuser r s (Memᴰ.head e) (Memᴰ.tail m) _ _ = elim m [ ]
sample-OneSubuser r s (Memᴰ.tail m) _ _ _ = elim m [ ]

abbrev pub root_user : AuthUser
root_user = record { id = 1; is_admin = oxydactylus.Base.true }

abbrev pub owner_user : AuthUser
owner_user = record { id = 7; is_admin = false }

abbrev pub helper_user : AuthUser
helper_user = record { id = 8; is_admin = false }

abbrev pub stranger : AuthUser
stranger = record { id = 9; is_admin = false }
