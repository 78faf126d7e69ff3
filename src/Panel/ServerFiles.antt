-- ===== src/Panel/ServerFiles.antt =====
-- The files of a server: the routes of crates/panel/src/files.rs, which ask the node. What a node
-- answers with is left out.
pub mod Asked
mod Examples
use oxydactylus.Base.{ℕ, String, Bool, Option, none, some}
use oxydactylus.Panel.Error.{validation, text}
use oxydactylus.Panel.Permissions.{
  file_create, file_delete, file_read, file_read_content, file_update,
}
use oxydactylus.Panel.Store.{
  Uuid, Server, Request, list_files, get_file_contents, write_file_contents, create_directory,
  delete_files, rename_file, Panel, pure, or_raise, send, ◌>>=◌, ◌>>◌,
}
use oxydactylus.Panel.Access.{AuthUser, load_server_with_access, get_node_client}

-- What each route does once it knows the server.
unfoldable pub ask_node : Request → Server → Panel (Unit {0})
ask_node r server = do client ← get_node_client server.node_id; send client r

abbrev pub directory_or_root : Option String → String
directory_or_root none = "/"
directory_or_root (some path) = path

unfoldable pub files_of : AuthUser → Uuid → Option String → Panel (Unit {0})
files_of user server_id directory = do
  server ← load_server_with_access user server_id (some file_read)
  ask_node (list_files server.id (directory_or_root directory)) server

unfoldable pub file_contents : AuthUser → Uuid → Option String → Panel (Unit {0})
file_contents user server_id file = do
  file_path ← or_raise (validation (text "file parameter required")) file
  server ← load_server_with_access user server_id (some file_read_content)
  ask_node (get_file_contents server.id file_path) server

unfoldable pub write_file : AuthUser → Uuid → Option String → String → Panel ℕ
write_file user server_id file content = do
  file_path ← or_raise (validation (text "file parameter required")) file
  server ← load_server_with_access user server_id (some file_update)
  ask_node (write_file_contents server.id file_path content) server
  pure 204

unfoldable pub make_directory : AuthUser → Uuid → String → Panel ℕ
make_directory user server_id path = do
  server ← load_server_with_access user server_id (some file_create)
  ask_node (create_directory server.id path) server
  pure 204

unfoldable pub remove_files : AuthUser → Uuid → String → Bool → Panel ℕ
remove_files user server_id path recursive = do
  server ← load_server_with_access user server_id (some file_delete)
  ask_node (delete_files server.id path recursive) server
  pure 204

unfoldable pub move_file : AuthUser → Uuid → String → String → Panel ℕ
move_file user server_id old_path new_path = do
  server ← load_server_with_access user server_id (some file_update)
  ask_node (rename_file server.id old_path new_path) server
  pure 204
