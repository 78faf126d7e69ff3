-- ===== src/Panel/Users.antt =====
-- The users of the panel: crates/panel/src/users.rs. That the caller is an administrator is
-- checked before, where it must be, by the extractor `AdminUser`.
pub mod Unique
pub mod Created
mod Examples
use Prim.Native.String.{len}
use oxydactylus.Base.{
  ℕ, String, Bool, true, false, not, ◌||◌, ◌&&◌, ◌==◌, ltb, Option, none, some, List, [], ◌∷◌, ◌++◌,
  map, any, find, order_by, update, delete, count, is_some_of, str_eq, if◌then◌else◌,
}
use oxydactylus.Base.Text.{is_empty}
use oxydactylus.Panel.Error.{
  validation, not_found, forbidden, of_id, text, Result, ok, err, constraint, from_sqlx,
}
use oxydactylus.Panel.Store.{
  Uuid, Time, UserRow, ActivityEntry, Db, Panel, pure, raise, lift, query, fetch_one, statement,
  ◌>>=◌, ◌>>◌,
}
use oxydactylus.Panel.Access.{AuthUser}
use oxydactylus.Panel.Login.{Argon2, hash_password}

pub record User : Type 0 where
  pub id : Uuid
  pub email : String
  pub is_admin : Bool
  pub created_at : Time

pub record MeResponse : Type 0 where
  pub id : Uuid
  pub email : String
  pub is_admin : Bool

pub record CreateUserRequest : Type 0 where
  pub email : String
  pub password : String
  pub is_admin : Bool

-- `FromRow`: the hash of the password is selected and dropped.
abbrev pub user_of : UserRow → User
user_of r = record { id = r.id; email = r.email; is_admin = r.is_admin; created_at = r.created_at }

unfoldable pub list_users : Panel (List User)
list_users = query (λ d. map user_of (order_by (λ r t. ltb r.created_at t.created_at) d.users))

unfoldable pub user_by_id : Uuid → Db → Option UserRow
user_by_id id d = find (λ u. u.id == id) d.users

unfoldable pub get_user : AuthUser → Uuid → Panel User
get_user caller id w =
    if not caller.is_admin && not (caller.id == id)
    then raise forbidden w
    else (fetch_one (user_by_id id) >>= λ r. pure (user_of r)) w

-- INSERT INTO users …, which fails on UNIQUE (email).
unfoldable pub insert_user : UserRow → Db → Result UserRow × Db
insert_user r d =
    if any (λ u. str_eq u.email r.email) d.users
    then (err (from_sqlx (d.violation "users.email")), d)
    else (ok r, record d { users = d.users ++ (r ∷ []) })

abbrev pub new_user : Uuid → Time → CreateUserRequest → String → UserRow
new_user id now body hash = record {
  id = id;
  email = body.email;
  password_hash = hash;
  is_admin = body.is_admin;
  created_at = now;
}

-- `id` is the identifier that `Uuid::new_v4` makes, `now` the time, `salt` what the generator
-- gives.
module _ (argon2 : Argon2) (id : Uuid) (now : Time) (salt : String) where
  unfoldable pub create_hashed : CreateUserRequest → Panel User
  create_hashed body = do
    hash ← lift (hash_password argon2 salt body.password)
    inserted ← statement (insert_user (new_user id now body hash))
    row ← lift inserted
    pure (user_of row)

  unfoldable pub create_user : CreateUserRequest → Panel User
  create_user body w =
      if is_empty body.email || ltb (len body.password) 8
      then raise (validation (text "email required; password must be at least 8 characters")) w
      else create_hashed body w

-- `ON DELETE SET NULL` of `activity_logs`
abbrev pub without_user : ActivityEntry → ActivityEntry
without_user e = record e { user_id = none }

-- DELETE FROM users WHERE id = $1, with what refers to the row: a server of the user stops the
-- deletion (ON DELETE RESTRICT), a subuser's row goes with it, an entry of the log forgets it.
-- The result is the number of rows.
unfoldable pub delete_user_rows : Uuid → Db → Result ℕ × Db
delete_user_rows id d =
    if any (λ u. u.id == id) d.users && any (λ s. s.user_id == id) d.servers
    then (err (from_sqlx (d.violation "servers.user_id")), d)
    else (
      ok (count (λ u. u.id == id) d.users),
      record d {
        users = delete (λ u. u.id == id) d.users;
        server_subusers =
            (if any (λ u. u.id == id) d.users
              then delete (λ r. r.user_id == id) d.server_subusers
              else d.server_subusers);
        activity_logs =
            (if any (λ u. u.id == id) d.users
              then update (λ e. is_some_of e.user_id id) without_user d.activity_logs
              else d.activity_logs);
      },
    )

unfoldable pub removed_user : Uuid → ℕ → Panel ℕ
removed_user id rows w = if rows == 0 then raise (not_found (of_id "{}" id)) w else pure 204 w

unfoldable pub delete_user : Uuid → Panel ℕ
delete_user id = do
  deleted ← statement (delete_user_rows id)
  rows ← lift deleted
  removed_user id rows

unfoldable pub me : AuthUser → Panel MeResponse
me user = do
  row ← fetch_one (user_by_id user.id)
  pure record { id = row.id; email = row.email; is_admin = row.is_admin }
