-- ===== src/Panel/Subusers.antt =====
-- The subusers of a server: crates/panel/src/subusers.rs.
pub mod Created
mod Examples
use oxydactylus.Base.{
  ℕ, String, Bool, not, ◌&&◌, ◌==◌, Option, List, [], ◌∷◌, ◌++◌, any, find, select, update, delete,
  count, if◌then◌else◌,
}
use oxydactylus.Panel.Error.{
  validation, not_found, of_text, of_id, Result, ok, err, row_not_found, from_sqlx,
}
use oxydactylus.Panel.Permissions.{
  is_valid_permission, user_read, user_create, user_update, user_delete,
}
use oxydactylus.Panel.Store.{
  Uuid, Time, ServerSubuser, Db, Panel, pure, raise, lift, or_raise, query, statement, ◌>>=◌, ◌>>◌,
}
use oxydactylus.Panel.Access.{AuthUser, check_access}

-- SELECT … FROM server_subusers WHERE server_id = $1 (its order by time is not modelled)
unfoldable pub list_subusers : AuthUser → Uuid → Panel (List ServerSubuser)
list_subusers user server_id = do
  check_access user server_id user_read
  query (λ d. select (λ r. r.server_id == server_id) d.server_subusers)

-- The loop over the permissions of a request.
unfoldable pub check_known : List String → Panel (Unit {0})
check_known [] w = pure tt w
check_known (p ∷ ps) w =
    if is_valid_permission p
    then check_known ps w
    else raise (validation (of_text "unknown permission: {}" p)) w

-- INSERT INTO server_subusers …, with its constraints: the two references, and
-- UNIQUE(server_id, user_id).
unfoldable pub insert_subuser : ServerSubuser → Db → Result ServerSubuser × Db
insert_subuser r d =
    if not (any (λ s. s.id == r.server_id) d.servers)
    then (err (from_sqlx (d.violation "server_subusers.server_id")), d)
    else if not (any (λ u. u.id == r.user_id) d.users)
    then (err (from_sqlx (d.violation "server_subusers.user_id")), d)
    else if any (λ s. s.server_id == r.server_id && s.user_id == r.user_id) d.server_subusers
    then (err (from_sqlx (d.violation "server_subusers.server_id, server_subusers.user_id")), d)
    else (ok r, record d { server_subusers = d.server_subusers ++ (r ∷ []) })

-- `id` is the identifier that `Uuid::new_v4` makes, `now` is the time.
unfoldable pub create_subuser :
    Uuid → Time → AuthUser → Uuid → Uuid → List String → Panel ServerSubuser
create_subuser id now user server_id user_id permissions = do
  check_access user server_id user_create
  check_known permissions
  inserted ← statement (
      insert_subuser (record {
        id = id;
        server_id = server_id;
        user_id = user_id;
        permissions = permissions;
        created_at = now;
      }))
  lift inserted

abbrev pub is_row : Uuid → Uuid → ServerSubuser → Bool
is_row id server_id r = r.id == id && r.server_id == server_id

-- UPDATE server_subusers SET permissions = $1 WHERE id = $2 AND server_id = $3 RETURNING …
unfoldable pub set_permissions : List String → Uuid → Uuid → Db → Option ServerSubuser × Db
set_permissions permissions id server_id d =
    let changed : List ServerSubuser =
      update (is_row id server_id) (λ r. record r { permissions = permissions })
        d.server_subusers in
    (find (is_row id server_id) changed, record d { server_subusers = changed })

unfoldable pub update_subuser : AuthUser → Uuid → Uuid → List String → Panel ServerSubuser
update_subuser user server_id subuser_id permissions = do
  check_access user server_id user_update
  check_known permissions
  changed ← statement (set_permissions permissions subuser_id server_id)
  or_raise (from_sqlx row_not_found) changed

-- DELETE FROM server_subusers WHERE id = $1 AND server_id = $2
unfoldable pub delete_subuser_rows : Uuid → Uuid → Db → ℕ × Db
delete_subuser_rows id server_id d = (
  count (is_row id server_id) d.server_subusers,
  record d { server_subusers = delete (is_row id server_id) d.server_subusers },
)

unfoldable pub removed_subuser : Uuid → ℕ → Panel ℕ
removed_subuser id rows w =
    if rows == 0 then raise (not_found (of_id "subuser {}" id)) w else pure 204 w

unfoldable pub delete_subuser : AuthUser → Uuid → Uuid → Panel ℕ
delete_subuser user server_id subuser_id = do
  check_access user server_id user_delete
  rows ← statement (delete_subuser_rows subuser_id server_id)
  removed_subuser subuser_id rows
