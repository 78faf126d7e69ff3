-- ===== src/Panel/Users/Created.antt =====
-- A user who was created may sign in: crates/panel/src/users.rs and auth.rs together.
use Prim.Native.String.{len}
use oxydactylus.Base.{
  String, true, false, ◌≡◌, refl, ◌||◌, any, find, find-append_fresh, str_eq, eq_iff, ltb, some,
  ◌++◌, ◌∷◌, [],
}
use oxydactylus.Base.Text.{is_empty}
use oxydactylus.Panel.Error.{ok}
use oxydactylus.Panel.Store.{Uuid, Time, Db, calm, query, statement}
use oxydactylus.Panel.Tokens.{returned, Jwt, UuidText, encode_token}
use oxydactylus.Panel.Login.{
  Argon2, verify_password, user_by_email, with_password, user_with, login,
}
use oxydactylus.Panel.Users.{
  CreateUserRequest, user_of, insert_user, new_user, create_hashed, create_user,
}

-- What the documentation of `argon2` says of a hash that it has made: it parses, and the
-- password that it was made of is verified.
abbrev pub IsArgon2 : Argon2 → Type 0
IsArgon2 argon2 =
    (salt password hash : String)
    → argon2.hash salt password ≡ returned hash
    → verify_password argon2 password hash ≡ true

module _ (argon2 : Argon2) (is_argon2 : IsArgon2 argon2) (id : Uuid) (now : Time)
    (salt hash : String) (body : CreateUserRequest) (d : Db)
    (hashed : argon2.hash salt body.password ≡ returned hash)
    (fresh : any (λ u. str_eq u.email body.email) d.users ≡ false) where
  abbrev pub with_new : Db
  with_new = record d { users = d.users ++ (new_user id now body hash ∷ []) }

  create_user-calm :
      (is_empty body.email || ltb (len body.password) 8) ≡ false
      → create_user argon2 id now salt body (calm d)
        ≡ (ok (user_of (new_user id now body hash)), calm with_new)
  unfolding create_user create_hashed statement insert_user
  create_user-calm fit = rw (fit, hashed, fresh) refl

  user_with-calm :
      user_with argon2 body.email body.password (calm with_new)
      ≡ (ok (new_user id now body hash), calm with_new)
  unfolding user_with with_password query user_by_email
  user_with-calm =
      let same : str_eq body.email body.email ≡ true = (eq_iff body.email body.email).1 refl in
      let found : find (λ u. str_eq u.email body.email) with_new.users
          ≡ some (new_user id now body hash) =
        find-append_fresh (λ u. str_eq u.email body.email) d.users (new_user id now body hash) fresh
          same in
      rw (found, is_argon2 salt body.password hash hashed) refl

  -- Where no statement fails and nobody has the address, a request with an address and a password
  -- of at least eight bytes creates a user. With that address and password the user then signs
  -- in: where the tokens are made, the response holds those of the new user, an administrator
  -- exactly if the request says so.
  pub create_user-login :
      (jwt : Jwt) (uuids : UuidText) (secret : String) (later : Time) (a b : String)
      → (is_empty body.email || ltb (len body.password) 8) ≡ false
      → encode_token jwt uuids secret later id body.is_admin "access" 900 ≡ ok a
      → encode_token jwt uuids secret later id body.is_admin "refresh" 604800 ≡ ok b
      → ((create_user argon2 id now salt body (calm d)).0
          ≡ ok (user_of (new_user id now body hash)))
        × ((login argon2 jwt uuids secret later
              (record { email = body.email; password = body.password })
              (create_user argon2 id now salt body (calm d)).1).0
            ≡ ok record {
              access_token = a;
              refresh_token = b;
              email = body.email;
              is_admin = body.is_admin;
            })
  unfolding login
  create_user-login jwt uuids secret later a b fit access refreshing =
      rw (create_user-calm fit) (refl, rw (user_with-calm, access, refreshing) refl)
