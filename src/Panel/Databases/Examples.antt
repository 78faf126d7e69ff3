-- ===== src/Panel/Databases/Examples.antt =====
-- Runs of the routes of the databases on a sample, with a stand-in for the cipher. The panel has no
-- key here.
use oxydactylus.Base.{
  String, true, false, ◌≡◌, refl, Option, none, some, List, [], ◌∷◌, ◌++◌, find, update, any,
  length,
}
use oxydactylus.Base.Int.{ℤ, pos}
use oxydactylus.Base.Text.{all_chars}
use oxydactylus.Panel.Error.{ok}
use oxydactylus.Panel.Store.{
  DatabaseHost, ServerDatabase, Db, calm, query, fetch_one, statement, ask_mysql,
}
use oxydactylus.Panel.Access.{server_by_id, fetch_server, check_server_access}
use oxydactylus.Panel.Sample.{sample_db, server_of, owner_user}
use oxydactylus.Panel.MySql.{
  validate_mysql_database_name, validate_mysql_username, validate_mysql_remote_host,
}
use oxydactylus.Panel.Secrets.{stored, read_stored}
use oxydactylus.Panel.Toy.Cipher.{toy_crypto, toy_nonce}
use oxydactylus.Panel.Databases.{
  CreateServerDatabaseRequest, host_by_id, database_of, insert_database, set_password, connect_host,
  create_on_host, create_named, create_server_database, keep_password, rotate_on_host,
  rotate_database_password,
}

abbrev host : DatabaseHost
host = record {
  id = 3;
  node_id = none;
  name = "mysql";
  host = "10.0.0.3";
  port = pos 3306;
  username = "panel";
  password = "hunter2";
  max_databases = pos 0;
  created_at = 0;
}

abbrev database : ServerDatabase
database = record {
  id = 40;
  server_id = 10;
  host_id = 3;
  database_name = "s10_world";
  username = "db_abcd1234";
  remote = "%";
  password = "old";
  created_at = 0;
}

abbrev hosted_db : Db
hosted_db = record sample_db { database_hosts = host ∷ []; server_databases = database ∷ [] }

abbrev request_for : String → CreateServerDatabaseRequest
request_for name = record { host_id = 3; database_name = name; username = none; remote = none }

abbrev any_text : String → oxydactylus.Base.Bool
any_text _ = true

abbrev port_text : ℤ → String
port_text _ = "3306"

handlers : Unit {0}
unfolding create_server_database create_named fetch_server fetch_one connect_host create_on_host
    query statement ask_mysql insert_database check_server_access host_by_id find server_by_id
    stored read_stored validate_mysql_database_name validate_mysql_username
    validate_mysql_remote_host all_chars database_of set_password update keep_password
    rotate_on_host rotate_database_password
handlers = tt

abbrev made : ServerDatabase
made = record {
  id = 41;
  server_id = 10;
  host_id = 3;
  database_name = "s10_stats";
  username = "db_0a1b2c3d";
  remote = "%";
  password = "fresh";
  created_at = 99;
}

name_ok : validate_mysql_database_name "s10_world" ≡ ok tt
unfolding handlers
name_ok = refl

user_ok : validate_mysql_username "db_0a1b2c3d" ≡ ok tt
unfolding handlers
user_ok = refl

remote_ok : validate_mysql_remote_host any_text "%" ≡ ok tt
unfolding handlers
remote_ok = refl

at_host : host_by_id 3 hosted_db ≡ some host
unfolding handlers
at_host = refl

found : server_by_id 11 hosted_db ≡ some (server_of 11 7 "stopped")
unfolding handlers
found = refl

reads : read_stored toy_crypto none "hunter2" ≡ ok "hunter2"
unfolding handlers
reads = refl

keeps : stored toy_crypto none toy_nonce "fresh" ≡ ok "fresh"
unfolding handlers
keeps = refl

rotate_test :
    (rotate_database_password toy_crypto port_text none "newer" toy_nonce owner_user 10 40
      (calm hosted_db)).0
    ≡ ok (record database { password = "newer" })
unfolding handlers
rotate_test = refl
