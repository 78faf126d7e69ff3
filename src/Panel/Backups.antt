-- ===== src/Panel/Backups.antt =====
-- The backups of a server: crates/panel/src/backups.rs. Identifiers, texts and times that the
-- handlers take from outside (`Uuid::new_v4`, `Utc::now`) are arguments.
pub mod Locked
mod Examples
use oxydactylus.Base.{
  ℕ, String, Bool, true, false, not, ◌&&◌, ◌==◌, Option, none, some, List, [], ◌∷◌, ◌++◌, find,
  select, update, delete, if◌then◌else◌,
}
use oxydactylus.Base.Int.{pos}
use oxydactylus.Panel.Error.{not_found, forbidden, text}
use oxydactylus.Panel.Permissions.{backup_read, backup_create, backup_delete}
use oxydactylus.Panel.Store.{
  Uuid, Time, Server, Backup, Db, Panel, pure, raise, or_raise, attempt, query, execute, ◌>>=◌,
  ◌>>◌,
}
use oxydactylus.Panel.Access.{AuthUser, fetch_server, check_server_access}

-- SELECT … FROM backups WHERE server_id = $1 (its order by time is not modelled)
unfoldable pub list_backups : AuthUser → Uuid → Panel (List Backup)
list_backups user server_id = do
  server ← fetch_server server_id
  check_server_access user server (some backup_read)
  query (λ d. select (λ b. b.server_id == server_id) d.backups)

unfoldable pub insert_backup : Backup → Db → Db
insert_backup b d = record d { backups = d.backups ++ (b ∷ []) }

-- UPDATE backups SET is_successful = $1, completed_at = $2 WHERE id = $3
unfoldable pub complete_backup : Uuid → Time → Db → Db
complete_backup id completed_at d = record d {
  backups =
      update (λ b. b.id == id)
        (λ b. record b { is_successful = true; completed_at = some completed_at }) d.backups;
}

unfoldable pub provision_backup_async : Uuid → Time → Panel (Unit {0})
provision_backup_async id completed_at =
    attempt (execute (complete_backup id completed_at)) >> pure tt

abbrev pub new_backup : Uuid → Uuid → Uuid → String → List String → Time → Backup
new_backup id server_id uuid name ignored_files now = record {
  id = id;
  server_id = server_id;
  uuid = uuid;
  name = name;
  ignored_files = ignored_files;
  driver = "local";
  sha256_hash = none;
  bytes = pos 0;
  is_successful = false;
  is_locked = false;
  completed_at = none;
  created_at = now;
}

-- The row; the spawned task is run by itself, `provision_backup_async`. `name` is the request's
-- name, or the one that `format!` makes of the time.
unfoldable pub create_backup :
    AuthUser → Uuid → Uuid → Uuid → String → List String → Time → Panel Backup
create_backup user server_id id uuid name ignored_files now = do
  server ← fetch_server server_id
  check_server_access user server (some backup_create)
  execute (insert_backup (new_backup id server_id uuid name ignored_files now))
  pure (new_backup id server_id uuid name ignored_files now)

-- SELECT … FROM backups WHERE id = $1 AND server_id = $2
unfoldable pub backup_of : Uuid → Uuid → Db → Option Backup
backup_of id server_id d = find (λ b. b.id == id && b.server_id == server_id) d.backups

unfoldable pub delete_backup_row : Uuid → Db → Db
delete_backup_row id d = record d { backups = delete (λ b. b.id == id) d.backups }

unfoldable pub delete_unlocked : Uuid → Backup → Panel ℕ
delete_unlocked id b w =
    if b.is_locked then raise forbidden w else (execute (delete_backup_row id) >> pure 204) w

unfoldable pub delete_backup : AuthUser → Uuid → Uuid → Panel ℕ
delete_backup user server_id id = do
  server ← fetch_server server_id
  check_server_access user server (some backup_delete)
  found ← query (backup_of id server_id)
  backup ← or_raise (not_found (text "backup not found")) found
  delete_unlocked id backup

-- UPDATE backups SET is_locked = $1 WHERE id = $2
unfoldable pub set_locked : Bool → Uuid → Db → Db
set_locked flag id d = record d {
  backups = update (λ b. b.id == id) (λ b. record b { is_locked = flag }) d.backups;
}

-- `toggle_lock` below the query of the server.
unfoldable pub toggle_of : AuthUser → Uuid → Uuid → Server → Panel Backup
toggle_of user server_id id server w =
    if not user.is_admin && not (server.user_id == user.id)
    then raise forbidden w
    else (do
      found ← query (backup_of id server_id)
      backup ← or_raise (not_found (text "backup not found")) found
      execute (set_locked (not backup.is_locked) id)
      pure (record backup { is_locked = not backup.is_locked }))
        w

unfoldable pub toggle_lock : AuthUser → Uuid → Uuid → Panel Backup
toggle_lock user server_id id = fetch_server server_id >>= toggle_of user server_id id
