-- ===== src/Panel/MySql.antt =====
-- The checks and the quoting of crates/panel/src/server_databases.rs, by which names, hosts and
-- passwords get into statements for a MySQL server.
pub mod Literals
mod Names
mod Examples
use Prim.Native.String.{len}
use oxydactylus.Base.{ℕ, String, Bool, ◌||◌, not, ◌==◌, ltb, str_eq, if◌then◌else◌}
use oxydactylus.Base.Text.{is_empty, all_chars, is_ascii_alphanumeric, replace_char, ◌+++◌}
use oxydactylus.Panel.Error.{Result, ok, err, validation, text}

-- Letters, digits and the underscore.
abbrev pub in_username : ℕ → Bool
in_username c = is_ascii_alphanumeric c || c == b'_'

unfoldable pub validate_mysql_username : String → Result (Unit {0})
validate_mysql_username username =
    if is_empty username || ltb 32 (len username)
    then err (validation (text "MySQL username must be 1-32 characters"))
    else if not (all_chars in_username username)
    then err (
        validation
          (text "MySQL username must contain only alphanumeric characters and underscores"))
    else ok tt

-- Those and the hyphen.
abbrev pub in_database_name : ℕ → Bool
in_database_name c = is_ascii_alphanumeric c || c == b'_' || c == b'-'

unfoldable pub validate_mysql_database_name : String → Result (Unit {0})
validate_mysql_database_name name =
    if is_empty name || ltb 64 (len name)
    then err (validation (text "database name must be 1-64 characters"))
    else if not (all_chars in_database_name name)
    then err (
        validation (
          text "database name must contain only alphanumeric characters, underscores, and hyphens"))
    else ok tt

-- `matches` is the regular expression of the domain names, which the regex library reads.
unfoldable pub validate_mysql_remote_host : (String → Bool) → String → Result (Unit {0})
validate_mysql_remote_host matches remote =
    if is_empty remote || ltb 255 (len remote)
    then err (validation (text "remote host must be 1-255 characters"))
    else if str_eq remote "%" || str_eq remote "localhost"
    then ok tt
    else if matches remote
    then ok tt
    else err (
        validation
          (text "invalid remote host format: must be '%', 'localhost', IP address, or domain name"))

-- `s.replace('\\', "\\\\").replace('\'', "\\'")`
unfoldable pub escape_mysql_string : String → String
escape_mysql_string s = replace_char 39 "\\'" (replace_char 92 "\\\\" s)

-- The statements of `create_server_database`, `delete_server_database` and
-- `rotate_database_password`.
unfoldable pub create_database_sql : String → String
create_database_sql db_name =
    "CREATE DATABASE IF NOT EXISTS `" +++ replace_char 96 "" db_name +++ "`"

unfoldable pub create_user_sql : String → String → String → String
create_user_sql db_user remote pass =
    "CREATE USER IF NOT EXISTS '"
    +++ db_user
    +++ "'@'"
    +++ escape_mysql_string remote
    +++ "' IDENTIFIED BY '"
    +++ escape_mysql_string pass
    +++ "'"

unfoldable pub grant_sql : String → String → String → String
grant_sql db_name db_user remote =
    "GRANT ALL PRIVILEGES ON `"
    +++ replace_char 96 "" db_name
    +++ "`.* TO '"
    +++ db_user
    +++ "'@'"
    +++ escape_mysql_string remote
    +++ "'"

unfoldable pub drop_database_sql : String → String
drop_database_sql db_name = "DROP DATABASE IF NOT EXISTS `" +++ replace_char 96 "" db_name +++ "`"

unfoldable pub drop_user_sql : String → String → String
drop_user_sql db_user remote =
    "DROP USER IF EXISTS '" +++ db_user +++ "'@'" +++ escape_mysql_string remote +++ "'"

unfoldable pub alter_user_sql : String → String → String → String
alter_user_sql db_user remote pass =
    "ALTER USER '"
    +++ db_user
    +++ "'@'"
    +++ escape_mysql_string remote
    +++ "' IDENTIFIED BY '"
    +++ escape_mysql_string pass
    +++ "'"
