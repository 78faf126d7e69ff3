-- ===== src/Panel/ServerFiles/Asked.antt =====
-- Who may ask a node about the files of a server: all routes of crates/panel/src/files.rs.
use oxydactylus.Base.{String, Bool, ◌⊎◌, inl, inr, Option, none, some}
use oxydactylus.Panel.Permissions.{
  file_create, file_delete, file_read, file_read_content, file_update,
}
use oxydactylus.Panel.Store.{Uuid, Server, World, Panel, pure, ◌>>=◌, ◌>>◌}
use oxydactylus.Panel.Store.Frame.{Quiet, Quiet-refl, guarded_bind, then_pure-keeps}
use oxydactylus.Panel.Access.{AuthUser, load_server_with_access}
use oxydactylus.Panel.Access.Guarded.{
  Authorised, load_server_with_access_ok, load_server_with_access-Quiet,
}
use oxydactylus.Panel.ServerFiles.{
  files_of, file_contents, write_file, make_directory, remove_files, move_file,
}

-- A request to one of the routes.
pub data FileRequest : Type 0 where
  listing : Option String → FileRequest
  reading : Option String → FileRequest
  writing : Option String → String → FileRequest
  creating : String → FileRequest
  removing : String → Bool → FileRequest
  moving : String → String → FileRequest

unfoldable pub file_route : AuthUser → Uuid → FileRequest → Panel (Unit {0})
file_route user id (listing directory) = files_of user id directory
file_route user id (reading file) = file_contents user id file
file_route user id (writing file content) = write_file user id file content >> pure tt
file_route user id (creating path) = make_directory user id path >> pure tt
file_route user id (removing path recursive) = remove_files user id path recursive >> pure tt
file_route user id (moving old_path new_path) = move_file user id old_path new_path >> pure tt

-- The permission that each is for.
abbrev pub permission_for : FileRequest → String
permission_for (listing _) = "file.read"
permission_for (reading _) = "file.read-content"
permission_for (writing _ _) = "file.update"
permission_for (creating _) = "file.create"
permission_for (removing _ _) = "file.delete"
permission_for (moving _ _) = "file.update"

-- A handler that knows the server first.
loaded :
    {B : Type 0} (user : AuthUser) (id : Uuid) (perm : Option String) (f : Server → Panel B)
    (w : World)
    → Quiet w ((load_server_with_access user id perm >>= f) w).1 ⊎ Authorised user id perm w.db
loaded user id perm f w =
    guarded_bind (Authorised user id perm w.db) (load_server_with_access user id perm) f w
      (load_server_with_access-Quiet user id perm w)
      λ s e. inr (load_server_with_access_ok user id perm w s e).2

ended :
    {A : Type 0} (P : Type 0) (m : Panel A) (w : World)
    → Quiet w (m w).1 ⊎ P
    → Quiet w ((m >>= λ _. pure tt) w).1 ⊎ P
ended P m w h = rw (then_pure-keeps m tt w) h

-- Unless the server is in the tables and the user may act on it with the permission for the
-- request, no node is asked for anything and no table is changed.
pub file_route-guarded :
    (user : AuthUser) (id : Uuid) (r : FileRequest) (w : World)
    → Quiet w (file_route user id r w).1 ⊎ Authorised user id (some (permission_for r)) w.db
unfolding file_route files_of file_contents write_file make_directory remove_files move_file
file_route-guarded user id (listing directory) w = loaded user id (some file_read) _ w
file_route-guarded user id (reading none) w = inl (Quiet-refl w)
file_route-guarded user id (reading (some file)) w = loaded user id (some file_read_content) _ w
file_route-guarded user id (writing none content) w = inl (Quiet-refl w)
file_route-guarded user id (writing (some file) content) w =
    ended _ (write_file user id (some file) content) w (loaded user id (some file_update) _ w)
file_route-guarded user id (creating path) w =
    ended _ (make_directory user id path) w (loaded user id (some file_create) _ w)
file_route-guarded user id (removing path recursive) w =
    ended _ (remove_files user id path recursive) w (loaded user id (some file_delete) _ w)
file_route-guarded user id (moving old_path new_path) w =
    ended _ (move_file user id old_path new_path) w (loaded user id (some file_update) _ w)
