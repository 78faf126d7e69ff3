-- ===== src/Panel/Databases.antt =====
-- The databases of a server: the handlers of crates/panel/src/server_databases.rs, over the
-- statements of MySql and the passwords of Secrets. A call of `log_activity` makes a future there
-- that is never awaited, so it writes nothing.
pub mod Created
pub mod Rotated
mod Examples
use oxydactylus.Base.{
  ℕ, String, Bool, ◌==◌, ◌&&◌, ltb, str_eq, Option, none, some, List, [], ◌∷◌, ◌++◌, any, find,
  select, update, delete, order_by, if◌then◌else◌,
}
use oxydactylus.Base.Int.{ℤ}
use oxydactylus.Base.Text.{◌+++◌, concat}
use oxydactylus.Panel.Error.{
  not_found, of_id, Result, ok, err, row_not_found, constraint, from_sqlx,
}
use oxydactylus.Panel.Permissions.{database_create, database_read, database_update, database_delete}
use oxydactylus.Panel.Store.{
  Uuid, Time, DatabaseHost, ServerDatabase, Db, connecting, running, Panel, pure, lift, attempt,
  or_raise, query, execute, statement, ask_mysql, ◌>>=◌, ◌>>◌,
}
use oxydactylus.Panel.Access.{AuthUser, fetch_server, check_server_access}
use oxydactylus.Panel.MySql.{
  validate_mysql_database_name, validate_mysql_username, validate_mysql_remote_host,
  create_database_sql, create_user_sql, grant_sql, drop_user_sql, drop_database_sql, alter_user_sql,
}
use oxydactylus.Panel.Secrets.{Bytes, Crypto, stored, read_stored}

pub record CreateServerDatabaseRequest : Type 0 where
  pub host_id : Uuid
  pub database_name : String
  pub username : Option String
  pub remote : Option String

abbrev pub unwrap_or : Option String → String → String
unwrap_or none s = s
unwrap_or (some t) s = t

unfoldable pub list_server_databases : AuthUser → Uuid → Panel (List ServerDatabase)
list_server_databases user server_id = do
  server ← fetch_server server_id
  check_server_access user server (some database_read)
  query λ d.
      order_by (λ a b. ltb a.created_at b.created_at)
        (select (λ b. b.server_id == server_id) d.server_databases)

-- SELECT … FROM database_hosts WHERE id = $1
unfoldable pub host_by_id : Uuid → Db → Option DatabaseHost
host_by_id id d = find (λ h. h.id == id) d.database_hosts

-- SELECT … FROM server_databases WHERE id = $1 AND server_id = $2
unfoldable pub database_of : Uuid → Uuid → Db → Option ServerDatabase
database_of id server_id d = find (λ b. b.id == id && b.server_id == server_id) d.server_databases

-- INSERT INTO server_databases …, which fails on UNIQUE (host_id, database_name).
abbrev pub is_named : Uuid → String → ServerDatabase → Bool
is_named host_id database_name b = b.host_id == host_id && str_eq b.database_name database_name

unfoldable pub insert_database : ServerDatabase → Db → Result ServerDatabase × Db
insert_database b d =
    if any (is_named b.host_id b.database_name) d.server_databases
    then (
      err (from_sqlx (d.violation "server_databases.host_id, server_databases.database_name")),
      d,
    )
    else (ok b, record d { server_databases = d.server_databases ++ (b ∷ []) })

-- DELETE FROM server_databases WHERE id = $1
unfoldable pub delete_database_row : Uuid → Db → Db
delete_database_row id d = record d {
  server_databases = delete (λ b. b.id == id) d.server_databases;
}

-- UPDATE server_databases SET password = $1 WHERE id = $2 RETURNING …
unfoldable pub set_password : String → Uuid → Db → Option ServerDatabase × Db
set_password password id d =
    let rows =
      update (λ b. b.id == id) (λ b. record b { password = password }) d.server_databases in
    (find (λ b. b.id == id) rows, record d { server_databases = rows })

-- `port_text` is what `format!` makes of a number.
abbrev pub mysql_url : (ℤ → String) → DatabaseHost → String → String
mysql_url port_text h db_password =
    concat
      ("mysql://" ∷ h.username ∷ ":" ∷ db_password ∷ "@" ∷ h.host ∷ ":" ∷ port_text h.port ∷ [])

-- The four statements of a creation.
unfoldable pub create_on_host : String → String → String → String → String → Panel (Unit {0})
create_on_host url db_name db_user remote db_pass = do
  ask_mysql "failed to create database: {}" url (running (create_database_sql db_name))
  ask_mysql "failed to create database user: {}" url
      (running (create_user_sql db_user remote db_pass))
  ask_mysql "failed to grant privileges: {}" url (running (grant_sql db_name db_user remote))
  ask_mysql "failed to flush privileges: {}" url (running "FLUSH PRIVILEGES")

-- The three statements of a deletion, whose errors are dropped.
unfoldable pub drop_on_host : String → ServerDatabase → Panel (Unit {0})
drop_on_host url b = do
  attempt (ask_mysql "{}" url (running (drop_user_sql b.username b.remote)))
  attempt (ask_mysql "{}" url (running (drop_database_sql b.database_name)))
  attempt (ask_mysql "{}" url (running "FLUSH PRIVILEGES"))
  pure tt

abbrev pub new_database :
    Uuid → Time → Uuid → CreateServerDatabaseRequest → String → String → String → ServerDatabase
new_database id now server_id body username remote encrypted_pass = record {
  id = id;
  server_id = server_id;
  host_id = body.host_id;
  database_name = body.database_name;
  username = username;
  remote = remote;
  password = encrypted_pass;
  created_at = now;
}

-- `crypto` is what the crates for the cipher do; `app_key` is the panel's, where it has one.
module _ (crypto : Crypto) (port_text : ℤ → String) (app_key : Option String) where
  -- The host's row, its password, and the connection, which is its address here.
  unfoldable pub connect_host : Uuid → Panel String
  connect_host host_id = do
    found ← query (host_by_id host_id)
    host_info ← or_raise (not_found (of_id "database host {}" host_id)) found
    db_password ← lift (read_stored crypto app_key host_info.password)
    ask_mysql "failed to connect to MySQL host: {}" (mysql_url port_text host_info db_password)
        connecting
    pure (mysql_url port_text host_info db_password)

  -- `id` and `db_pass` are made by `Uuid::new_v4`, as is the text in `fresh_name` (its first eight
  -- characters); `nonce` is what the generator gives, `now` is the time, and `matches` is the
  -- regular expression of the domain names.
  module _ (matches : String → Bool) (id : Uuid) (now : Time) (fresh_name db_pass : String)
      (nonce : Bytes) where
    -- The part below the defaults.
    unfoldable pub create_named :
        Uuid → CreateServerDatabaseRequest → String → String → Panel ServerDatabase
    create_named server_id body username remote = do
      lift (validate_mysql_username username)
      lift (validate_mysql_remote_host matches remote)
      url ← connect_host body.host_id
      create_on_host url body.database_name username remote db_pass
      encrypted_pass ← lift (stored crypto app_key nonce db_pass)
      inserted ←
          statement
            (insert_database (new_database id now server_id body username remote encrypted_pass))
      lift inserted

    unfoldable pub create_server_database :
        AuthUser → Uuid → CreateServerDatabaseRequest → Panel ServerDatabase
    create_server_database user server_id body = do
      server ← fetch_server server_id
      check_server_access user server (some database_create)
      lift (validate_mysql_database_name body.database_name)
      create_named server_id body (unwrap_or body.username ("db_" +++ fresh_name))
          (unwrap_or body.remote "%")

  unfoldable pub delete_server_database : AuthUser → Uuid → Uuid → Panel ℕ
  delete_server_database user server_id database_id = do
    server ← fetch_server server_id
    check_server_access user server (some database_delete)
    found ← query (database_of database_id server_id)
    b ← or_raise (not_found (of_id "{}" database_id)) found
    url ← connect_host b.host_id
    drop_on_host url b
    execute (delete_database_row database_id)
    pure 204

  unfoldable pub keep_password : String → Bytes → Uuid → Panel ServerDatabase
  keep_password new_pass nonce database_id = do
    encrypted_pass ← lift (stored crypto app_key nonce new_pass)
    updated ← statement (set_password encrypted_pass database_id)
    or_raise (from_sqlx row_not_found) updated

  -- The part of a rotation below the database's row, with the new password.
  unfoldable pub rotate_on_host : String → Bytes → Uuid → ServerDatabase → Panel ServerDatabase
  rotate_on_host new_pass nonce database_id b = do
    url ← connect_host b.host_id
    ask_mysql "failed to rotate password: {}" url
        (running (alter_user_sql b.username b.remote new_pass))
    attempt (ask_mysql "{}" url (running "FLUSH PRIVILEGES"))
    keep_password new_pass nonce database_id

  unfoldable pub rotate_database_password :
      String → Bytes → AuthUser → Uuid → Uuid → Panel ServerDatabase
  rotate_database_password new_pass nonce user server_id database_id = do
    server ← fetch_server server_id
    check_server_access user server (some database_update)
    found ← query (database_of database_id server_id)
    b ← or_raise (not_found (of_id "{}" database_id)) found
    rotate_on_host new_pass nonce database_id b
