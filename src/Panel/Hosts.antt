-- ===== src/Panel/Hosts.antt =====
-- The MySQL hosts of the administrator: crates/panel/src/database_hosts.rs. A call of
-- `log_activity` makes a future there that is never awaited, so it writes nothing.
pub mod Kept
use oxydactylus.Base.{
  ℕ, String, Bool, ◌==◌, ◌||◌, ◌&&◌, ltb, Option, none, some, List, [], ◌∷◌, ◌++◌, any, delete,
  count, order_by, if◌then◌else◌,
}
use oxydactylus.Base.Int.{ℤ, pos}
use oxydactylus.Base.Text.{is_empty}
use oxydactylus.Panel.Error.{
  validation, not_found, of_id, text, Result, ok, err, constraint, from_sqlx,
}
use oxydactylus.Panel.Store.{
  Uuid, Time, DatabaseHost, Db, Panel, pure, raise, lift, query, statement, ◌>>=◌, ◌>>◌,
}
use oxydactylus.Panel.Secrets.{Bytes, Crypto, stored}

pub record CreateDatabaseHostRequest : Type 0 where
  pub node_id : Option Uuid
  pub name : String
  pub host : String
  pub port : Option ℤ
  pub username : String
  pub password : String
  pub max_databases : Option ℤ

unfoldable pub list_hosts : Panel (List DatabaseHost)
list_hosts = query (λ d. order_by (λ a b. ltb a.created_at b.created_at) d.database_hosts)

abbrev pub or_number : Option ℤ → ℤ → ℤ
or_number none n = n
or_number (some z) n = z

abbrev pub new_host : Uuid → Time → CreateDatabaseHostRequest → String → DatabaseHost
new_host id now body password = record {
  id = id;
  node_id = body.node_id;
  name = body.name;
  host = body.host;
  port = or_number body.port (pos 3306);
  username = body.username;
  password = password;
  max_databases = or_number body.max_databases (pos 0);
  created_at = now;
}

-- INSERT INTO database_hosts … RETURNING …
unfoldable pub insert_host : DatabaseHost → Db → DatabaseHost × Db
insert_host h d = (h, record d { database_hosts = d.database_hosts ++ (h ∷ []) })

-- `id` is the identifier that `Uuid::new_v4` makes, `now` the time, `nonce` what the generator gives.
module _ (crypto : Crypto) (app_key : Option String) (id : Uuid) (now : Time) (nonce : Bytes) where
  unfoldable pub create_named_host : CreateDatabaseHostRequest → Panel DatabaseHost
  create_named_host body = do
    password ← lift (stored crypto app_key nonce body.password)
    statement (insert_host (new_host id now body password))

  unfoldable pub create_host : CreateDatabaseHostRequest → Panel DatabaseHost
  create_host body w =
      if is_empty body.name
        || is_empty body.host
        || is_empty body.username
        || is_empty body.password
      then raise (validation (text "name, host, username, and password are required")) w
      else create_named_host body w

-- DELETE FROM database_hosts WHERE id = $1, which a database on the host stops. The result is the
-- number of rows.
unfoldable pub delete_host_rows : Uuid → Db → Result ℕ × Db
delete_host_rows id d =
    if any (λ h. h.id == id) d.database_hosts && any (λ b. b.host_id == id) d.server_databases
    then (err (from_sqlx (d.violation "server_databases.host_id")), d)
    else (
      ok (count (λ h. h.id == id) d.database_hosts),
      record d { database_hosts = delete (λ h. h.id == id) d.database_hosts },
    )

unfoldable pub removed_host : Uuid → ℕ → Panel ℕ
removed_host id rows w = if rows == 0 then raise (not_found (of_id "{}" id)) w else pure 204 w

unfoldable pub delete_host : Uuid → Panel ℕ
delete_host id = do
  deleted ← statement (delete_host_rows id)
  rows ← lift deleted
  removed_host id rows
