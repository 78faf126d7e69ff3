-- ===== src/Panel/Subusers/Examples.antt =====
-- The owner of a server adds a subuser.
use oxydactylus.Base.{[], ◌∷◌, false}
use oxydactylus.Panel.Permissions.{control_stop}
use oxydactylus.Panel.Store.{Db, ServerSubuser, UserRow}
use oxydactylus.Panel.Sample.{sample_db}

abbrev friend : UserRow
friend = record { id = 9; email = "friend"; password_hash = ""; is_admin = false; created_at = 0 }

abbrev friends_db : Db
friends_db = record sample_db { users = friend ∷ [] }

abbrev added : ServerSubuser
added = record {
  id = 71;
  server_id = 10;
  user_id = 9;
  permissions = control_stop ∷ [];
  created_at = 5;
}
