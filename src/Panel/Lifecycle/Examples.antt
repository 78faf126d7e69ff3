-- ===== src/Panel/Lifecycle/Examples.antt =====
-- A server that is created, and one that is deleted.
use oxydactylus.Base.{false, ◌≡◌, refl, String, Bool, Option, none, some, [], ◌∷◌, find}
use oxydactylus.Base.Int.{ℤ, pos}
use oxydactylus.Panel.Error.{ok}
use oxydactylus.Panel.Store.{
  Server, UserRow, Db, calm, query, fetch_one, execute, statement, send, open_client,
}
use oxydactylus.Panel.Sample.{sample_db, root_user}
use oxydactylus.Panel.Access.{server_by_id, fetch_server, node_by_id, get_node_client}
use oxydactylus.Panel.Lifecycle.{CreateServerRequest, new_server, take_down, delete_server}
use oxydactylus.Panel.Lifecycle.Created.{Created}
use oxydactylus.Panel.Lifecycle.Deleted.{Deleted, delete_server_ok}

abbrev no_regex : String → Option (String → Bool)
no_regex _ = none

abbrev port_text : ℤ → String
port_text _ = "25565"

abbrev body : CreateServerRequest
body = record {
  node_id = 1;
  name = "creative";
  image = "eclipse-temurin";
  memory_mb = pos 2048;
  cpu_percent = pos 150;
  env = "EULA=true" ∷ [];
  egg_id = none;
  egg_vars = [];
  user_id = some 7;
  allocation_id = some 50;
}

abbrev created : Server
created = record (new_server no_regex port_text 12 0 root_user body body.env) {
  allocation_id = some 50;
  status = "stopped";
}

abbrev owner : UserRow
owner = record { id = 7; email = "owner"; password_hash = ""; is_admin = false; created_at = 0 }

abbrev new_db : Db
new_db = record sample_db { users = owner ∷ [] }

delete_test : (delete_server 10 (calm sample_db)).0 ≡ ok 204
unfolding find server_by_id fetch_server node_by_id get_node_client query fetch_one execute
    statement send open_client take_down delete_server
delete_test = refl

delete_server_ok_example : Deleted 10 sample_db (delete_server 10 (calm sample_db)).1.db
delete_server_ok_example = delete_server_ok 10 (calm sample_db) delete_test
