-- ===== src/Panel/Login.antt =====
-- Signing in: `login`, `refresh` and `sftp_verify` of crates/panel/src/auth.rs. A task of
-- `spawn_blocking` is taken to end without panic.
pub mod Issued
pub mod Refused
pub mod Sftp
mod Examples
use oxydactylus.Base.{
  String, Bool, true, false, Option, none, some, ◌&&◌, ◌==◌, any, find, str_eq, if◌then◌else◌,
}
use oxydactylus.Base.Text.{split_once, strip_prefix}
use oxydactylus.Panel.Error.{PanelError, Message, internal, unauthorized, text, Result}
use oxydactylus.Panel.Store.{
  Uuid, Time, UserRow, NodeRow, Server, Db, Panel, pure, raise, lift, or_raise, query, ◌>>=◌, ◌>>◌,
}
use oxydactylus.Panel.Tokens.{
  Claims, Outcome, Jwt, UuidText, or_error, bearer_of, encode_token, decode_token,
}

-- `argon2`: `hash_password` with a salt, and the password verifier of a text that is a hash.
pub record Argon2 : Type 0 where
  pub hash : String → String → Outcome String
  pub parse : String → Option (String → Bool)

abbrev pub hash_password : Argon2 → String → String → Result String
hash_password argon2 salt password = or_error internal (argon2.hash salt password)

abbrev pub verified_by : String → Option (String → Bool) → Bool
verified_by password none = false
verified_by password (some verify) = verify password

abbrev pub verify_password : Argon2 → String → String → Bool
verify_password argon2 password hash = verified_by password (argon2.parse hash)

abbrev pub invalid_credentials : PanelError
invalid_credentials = unauthorized (text "invalid credentials")

-- SELECT … FROM users WHERE email = $1
unfoldable pub user_by_email : String → Db → Option UserRow
user_by_email email d = find (λ u. str_eq u.email email) d.users

-- SELECT id FROM nodes WHERE token = $1
unfoldable pub node_by_token : String → Db → Option NodeRow
node_by_token token d = find (λ n. str_eq n.token token) d.nodes

unfoldable pub valid_node_token : String → Panel NodeRow
valid_node_token token = do
  exists ← query (node_by_token token)
  or_raise invalid_credentials exists

-- SELECT id FROM servers WHERE id = $1 AND user_id = $2
unfoldable pub server_of_user : Uuid → Uuid → Db → Option Server
server_of_user id user_id d = find (λ s. s.id == id && s.user_id == user_id) d.servers

pub record LoginRequest : Type 0 where
  pub email : String
  pub password : String

pub record TokenResponse : Type 0 where
  pub access_token : String
  pub refresh_token : String
  pub email : String
  pub is_admin : Bool

pub record SftpVerifyRequest : Type 0 where
  pub username : String
  pub password : String

-- The row of a user whose password is verified: what `login` and `sftp_verify` share.
module _ (argon2 : Argon2) where
  unfoldable pub with_password : String → UserRow → Panel UserRow
  with_password password row w =
      if verify_password argon2 password row.password_hash
      then pure row w
      else raise invalid_credentials w

  unfoldable pub user_with : String → String → Panel UserRow
  user_with email password = do
    found ← query (user_by_email email)
    row ← or_raise invalid_credentials found
    with_password password row

module _ (argon2 : Argon2) (jwt : Jwt) (uuids : UuidText) (jwt_secret : String) (now : Time) where
  unfoldable pub login : LoginRequest → Panel TokenResponse
  login body = do
    row ← user_with argon2 body.email body.password
    access_token ← lift (encode_token jwt uuids jwt_secret now row.id row.is_admin "access" 900)
    refresh_token ←
        lift (encode_token jwt uuids jwt_secret now row.id row.is_admin "refresh" 604800)
    pure record {
      access_token = access_token;
      refresh_token = refresh_token;
      email = row.email;
      is_admin = row.is_admin;
    }

-- It does not read the tables.
module _ (jwt : Jwt) (uuids : UuidText) (jwt_secret : String) (now : Time) where
  unfoldable pub refresh : String → Panel String
  refresh refresh_token = do
    claims ← lift (decode_token jwt uuids jwt_secret now refresh_token "refresh")
    user_id ← or_raise (unauthorized (text "invalid sub")) (uuids.parse_str claims.sub)
    lift (encode_token jwt uuids jwt_secret now user_id claims.adm "access" 900)

-- `authorization` is the header, `none` where it is absent or no text. The response is the
-- server's identifier.
module _ (argon2 : Argon2) (uuids : UuidText) where
  -- The part below the check of the node's token.
  unfoldable pub sftp_login : SftpVerifyRequest → Panel Uuid
  sftp_login body = do
    (email, server_id_str) ← or_raise invalid_credentials (split_once b'.' body.username)
    server_id ← or_raise invalid_credentials (uuids.parse_str server_id_str)
    row ← user_with argon2 email body.password
    server_exists ← query (server_of_user server_id row.id)
    or_raise invalid_credentials server_exists
    pure server_id

  unfoldable pub sftp_verify : Option String → SftpVerifyRequest → Panel Uuid
  sftp_verify authorization body = do
    token ← or_raise invalid_credentials (bearer_of authorization)
    valid_node_token token
    sftp_login body
