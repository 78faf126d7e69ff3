-- ===== src/Panel/Store/Rows.antt =====
-- The tables of the database (crates/panel/migrations), with the structs of crates/panel/src that
-- their rows are read into.
use oxydactylus.Base.{ℕ, String, Bool, Option, List, []}
use oxydactylus.Base.Int.{ℤ}
use oxydactylus.Panel.Error.{PanelError, SqlxError, constraint}

-- A `Uuid` is a number of 128 bits.
abbrev pub Uuid : Type 0
Uuid = ℕ

-- Seconds since the epoch.
abbrev pub Time : Type 0
Time = ℕ

pub record Server : Type 0 where
  pub id : Uuid
  pub user_id : Uuid
  pub node_id : Uuid
  pub allocation_id : Option Uuid
  pub egg_id : Option Uuid
  pub name : String
  pub image : String
  pub memory_mb : ℤ
  pub cpu_percent : ℤ
  pub env : List String
  pub status : String
  pub database_limit : ℤ
  pub backup_limit : ℤ
  pub allocation_limit : ℤ
  pub created_at : Time

pub record Allocation : Type 0 where
  pub id : Uuid
  pub node_id : Uuid
  pub ip : String
  pub ip_alias : Option String
  pub port : ℤ
  pub server_id : Option Uuid
  pub created_at : Time

pub record ServerSubuser : Type 0 where
  pub id : Uuid
  pub server_id : Uuid
  pub user_id : Uuid
  pub permissions : List String
  pub created_at : Time

pub record NodeRow : Type 0 where
  pub id : Uuid
  pub name : String
  pub grpc_addr : String
  pub token : String
  pub created_at : Time

pub record Backup : Type 0 where
  pub id : Uuid
  pub server_id : Uuid
  pub uuid : Uuid
  pub name : String
  pub ignored_files : List String
  pub driver : String
  pub sha256_hash : Option String
  pub bytes : ℤ
  pub is_successful : Bool
  pub is_locked : Bool
  pub completed_at : Option Time
  pub created_at : Time

pub record ScheduleInfo : Type 0 where
  pub id : Uuid
  pub server_id : Uuid
  pub name : String
  pub cron_minute : String
  pub cron_hour : String
  pub cron_day_of_month : String
  pub cron_month : String
  pub cron_day_of_week : String
  pub is_active : Bool
  pub is_processing : Bool
  pub only_when_online : Bool
  pub last_run_at : Option Time
  pub next_run_at : Option Time
  pub created_at : Time

pub record ScheduleTask : Type 0 where
  pub id : Uuid
  pub schedule_id : Uuid
  pub sequence_id : ℤ
  pub action : String
  pub payload : String
  pub time_offset : ℤ
  pub is_queued : Bool
  pub continue_on_failure : Bool
  pub created_at : Time

-- A `serde_json::Value` of a row is its text.
pub record Egg : Type 0 where
  pub id : Uuid
  pub name : String
  pub description : Option String
  pub author : Option String
  pub version : String
  pub features : List String
  pub file_denylist : List String
  pub docker_images : String
  pub start_cmd : String
  pub stop_cmd : String
  pub startup_done : Option String
  pub created_at : Time
  pub updated_at : Time

pub record InstallScript : Type 0 where
  pub id : Uuid
  pub egg_id : Uuid
  pub container : String
  pub entrypoint : String
  pub script : String

pub record ConfigFile : Type 0 where
  pub id : Uuid
  pub egg_id : Uuid
  pub path : String
  pub parser : String
  pub patches : String

pub record EggVariable : Type 0 where
  pub id : Uuid
  pub egg_id : Uuid
  pub name : String
  pub description : Option String
  pub env_variable : String
  pub default_val : Option String
  pub user_viewable : Bool
  pub user_editable : Bool
  pub rules : Option String
  pub field_type : String

pub record UserRow : Type 0 where
  pub id : Uuid
  pub email : String
  pub password_hash : String
  pub is_admin : Bool
  pub created_at : Time

pub record DatabaseHost : Type 0 where
  pub id : Uuid
  pub node_id : Option Uuid
  pub name : String
  pub host : String
  pub port : ℤ
  pub username : String
  pub password : String
  pub max_databases : ℤ
  pub created_at : Time

pub record ServerDatabase : Type 0 where
  pub id : Uuid
  pub server_id : Uuid
  pub host_id : Uuid
  pub database_name : String
  pub username : String
  pub remote : String
  pub password : String
  pub created_at : Time

-- What `log_activity` writes of a task that the scheduler has run; `error` is `none` after success.
pub record ActivityEntry : Type 0 where
  pub server_id : Option Uuid
  pub user_id : Option Uuid
  pub event : String
  pub schedule_id : Uuid
  pub action : String
  pub error : Option PanelError

-- The tables. `violation` is the error of the database for a row that one of its constraints does not
-- admit, which the columns name: that of PostgreSQL has a name of its own, those of SQLite and MySQL
-- have a text and no name, so that `from_sqlx` makes them a conflict or an error of the database.
pub record Db : Type 0 where
  pub servers : List Server
  pub allocations : List Allocation
  pub server_subusers : List ServerSubuser
  pub nodes : List NodeRow
  pub backups : List Backup
  pub schedules : List ScheduleInfo
  pub schedule_tasks : List ScheduleTask
  pub eggs : List Egg
  pub egg_variables : List EggVariable
  pub egg_install_scripts : List InstallScript
  pub egg_config_files : List ConfigFile
  pub users : List UserRow
  pub activity_logs : List ActivityEntry
  pub database_hosts : List DatabaseHost
  pub server_databases : List ServerDatabase
  pub violation : String → SqlxError

abbrev pub empty_db : Db
empty_db = record {
  servers = [];
  allocations = [];
  server_subusers = [];
  nodes = [];
  backups = [];
  schedules = [];
  schedule_tasks = [];
  eggs = [];
  egg_variables = [];
  egg_install_scripts = [];
  egg_config_files = [];
  users = [];
  activity_logs = [];
  database_hosts = [];
  server_databases = [];
  violation = constraint;
}
