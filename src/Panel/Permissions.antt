-- ===== src/Panel/Permissions.antt =====
-- crates/panel/src/permissions.rs: the permissions of subusers, by group.
pub mod Laws
use oxydactylus.Base.{String, Bool, List, [], ◌∷◌, any, str_eq}

abbrev pub control_console : String
control_console = "control.console"

abbrev pub control_start : String
control_start = "control.start"

abbrev pub control_stop : String
control_stop = "control.stop"

abbrev pub control_restart : String
control_restart = "control.restart"

abbrev pub user_create : String
user_create = "user.create"

abbrev pub user_read : String
user_read = "user.read"

abbrev pub user_update : String
user_update = "user.update"

abbrev pub user_delete : String
user_delete = "user.delete"

abbrev pub file_create : String
file_create = "file.create"

abbrev pub file_read : String
file_read = "file.read"

abbrev pub file_read_content : String
file_read_content = "file.read-content"

abbrev pub file_update : String
file_update = "file.update"

abbrev pub file_delete : String
file_delete = "file.delete"

abbrev pub file_archive : String
file_archive = "file.archive"

abbrev pub file_sftp : String
file_sftp = "file.sftp"

abbrev pub backup_create : String
backup_create = "backup.create"

abbrev pub backup_read : String
backup_read = "backup.read"

abbrev pub backup_delete : String
backup_delete = "backup.delete"

abbrev pub backup_download : String
backup_download = "backup.download"

abbrev pub backup_restore : String
backup_restore = "backup.restore"

abbrev pub network_read : String
network_read = "network.read"

abbrev pub network_create : String
network_create = "network.create"

abbrev pub network_update : String
network_update = "network.update"

abbrev pub network_delete : String
network_delete = "network.delete"

abbrev pub startup_read : String
startup_read = "startup.read"

abbrev pub startup_update : String
startup_update = "startup.update"

abbrev pub startup_docker_image : String
startup_docker_image = "startup.docker-image"

abbrev pub database_create : String
database_create = "database.create"

abbrev pub database_read : String
database_read = "database.read"

abbrev pub database_update : String
database_update = "database.update"

abbrev pub database_delete : String
database_delete = "database.delete"

abbrev pub database_view_password : String
database_view_password = "database.view-password"

abbrev pub schedule_create : String
schedule_create = "schedule.create"

abbrev pub schedule_read : String
schedule_read = "schedule.read"

abbrev pub schedule_update : String
schedule_update = "schedule.update"

abbrev pub schedule_delete : String
schedule_delete = "schedule.delete"

abbrev pub importer_access : String
importer_access = "importer.access"

abbrev pub settings_rename : String
settings_rename = "settings.rename"

abbrev pub settings_reinstall : String
settings_reinstall = "settings.reinstall"

abbrev pub settings_change_egg : String
settings_change_egg = "settings.change-egg"

abbrev pub activity_read : String
activity_read = "activity.read"

abbrev pub all_permissions : List (String × List String)
all_permissions =
    ("control", control_console ∷ control_start ∷ control_stop ∷ control_restart ∷ [])
    ∷ ("user", user_create ∷ user_read ∷ user_update ∷ user_delete ∷ [])
    ∷ (
      "file",
      file_create ∷ file_read ∷ file_read_content ∷ file_update ∷ file_delete ∷ file_archive
          ∷ file_sftp ∷ [],
    )
    ∷ (
      "backup",
      backup_create ∷ backup_read ∷ backup_delete ∷ backup_download ∷ backup_restore ∷ [],
    )
    ∷ ("network", network_read ∷ network_create ∷ network_update ∷ network_delete ∷ [])
    ∷ ("startup", startup_read ∷ startup_update ∷ startup_docker_image ∷ [])
    ∷ (
      "database",
      database_create ∷ database_read ∷ database_update ∷ database_delete ∷ database_view_password
          ∷ [],
    )
    ∷ ("schedule", schedule_create ∷ schedule_read ∷ schedule_update ∷ schedule_delete ∷ [])
    ∷ ("importer", importer_access ∷ [])
    ∷ ("settings", settings_rename ∷ settings_reinstall ∷ settings_change_egg ∷ [])
    ∷ ("activity", activity_read ∷ [])
    ∷ []

-- Every public constant of the module, in the order of the file.
abbrev pub public_constants : List String
public_constants =
    control_console ∷ control_start ∷ control_stop ∷ control_restart ∷ user_create ∷ user_read
    ∷ user_update ∷ user_delete ∷ file_create ∷ file_read ∷ file_read_content ∷ file_update
    ∷ file_delete ∷ file_archive ∷ file_sftp ∷ backup_create ∷ backup_read ∷ backup_delete
    ∷ backup_download ∷ backup_restore ∷ network_read ∷ network_create ∷ network_update
    ∷ network_delete ∷ startup_read ∷ startup_update ∷ startup_docker_image ∷ database_create
    ∷ database_read ∷ database_update ∷ database_delete ∷ database_view_password ∷ schedule_create
    ∷ schedule_read ∷ schedule_update ∷ schedule_delete ∷ importer_access ∷ settings_rename
    ∷ settings_reinstall ∷ settings_change_egg ∷ activity_read ∷ []

-- `perms.contains(&p)`
abbrev pub contains : List String → String → Bool
contains perms p = any (λ q. str_eq q p) perms

unfoldable pub is_valid_permission : String → Bool
is_valid_permission p = any (λ g. contains g.1 p) all_permissions
