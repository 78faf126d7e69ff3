-- ===== src/Panel/Login/Sftp.antt =====
-- What `sftp_verify` of crates/panel/src/auth.rs has checked when it answers with a server, and
-- which user names it never takes.
use oxydactylus.Base.{
  String, true, Option, none, some, [], ◌≡◌, refl, sym, ◌∙◌, ap, arith, inl, inr, Memᴰ, find-Memᴰ,
  Option-cases, ◌==◌, ◌&&◌, str_eq, eq_iff,
}
use oxydactylus.Base.Text.{◌+++◌, split_once, contains_char}
use oxydactylus.Base.Text.Laws.{split_once-twice}
use oxydactylus.Panel.Error.{ok, err}
use oxydactylus.Panel.Store.{Uuid, UserRow, NodeRow, Server, Db, World, query}
use oxydactylus.Panel.Store.Frame.{Quiet, ok_bind, ok_query, ok_or_raise}
use oxydactylus.Panel.Tokens.{UuidText, bearer_of}
use oxydactylus.Panel.Login.{
  Argon2, user_with, invalid_credentials, SftpVerifyRequest, server_of_user, node_by_token,
  valid_node_token, sftp_login, sftp_verify,
}
use oxydactylus.Panel.Login.Issued.{IsUser, user_with_sound, user_with-Quiet}

valid_node_token-Quiet : (token : String) (w : World) → Quiet w (valid_node_token token w).1
unfolding valid_node_token query
valid_node_token-Quiet token w = ground arith

valid_node_token_sound :
    (token : String) (w : World) (node : NodeRow)
    → (valid_node_token token w).0 ≡ ok node
    → node_by_token token w.db ≡ some node
unfolding valid_node_token query
valid_node_token_sound token w node h = ground arith

-- The request comes from a node of the tables, and the user name names a server and its owner,
-- whose password it is.
pub record IsOwner (argon2 : Argon2) (uuids : UuidText) (authorization : Option String)
    (body : SftpVerifyRequest) (d : Db) (id : Uuid) : Type 0 where
  pub token : String
  pub bearer : bearer_of authorization ≡ some token
  pub node : NodeRow
  pub node_found : Memᴰ node d.nodes
  pub node_token : node.token ≡ token
  pub email : String
  pub server_text : String
  pub username : split_once b'.' body.username ≡ some (email, server_text)
  pub parsed : uuids.parse_str server_text ≡ some id
  pub owner : UserRow
  pub user : IsUser argon2 email body.password d owner
  pub server : Server
  pub server_found : Memᴰ server d.servers
  pub server_id : server.id ≡ id
  pub owned : server.user_id ≡ owner.id

module _ (argon2 : Argon2) (uuids : UuidText) (authorization : Option String)
    (body : SftpVerifyRequest) (d : Db) (id : Uuid) where
  IsOwner-row :
      (token : String) (node : NodeRow) (email server_text : String) (owner : UserRow) (s : Server)
      → bearer_of authorization ≡ some token
      → node_by_token token d ≡ some node
      → split_once b'.' body.username ≡ some (email, server_text)
      → uuids.parse_str server_text ≡ some id
      → IsUser argon2 email body.password d owner
      → server_of_user id owner.id d ≡ some s
      → IsOwner argon2 uuids authorization body d id
  unfolding node_by_token server_of_user
  IsOwner-row token node email server_text owner s bearer at_node username parsed user at_server =
      let (node_found, node_hit) = find-Memᴰ (λ n. str_eq n.token token) d.nodes node at_node in
      let p = λ (t : Server). t.id == id && t.user_id == owner.id in
      let (server_found, server_hit) = find-Memᴰ p d.servers s at_server in
      record {
        token = token;
        bearer = bearer;
        node = node;
        node_found = node_found;
        node_token = (eq_iff node.token token).0 node_hit;
        email = email;
        server_text = server_text;
        username = username;
        parsed = parsed;
        owner = owner;
        user = user;
        server = s;
        server_found = server_found;
        server_id = ground arith;
        owned = ground arith;
      }

  sftp_login_sound :
      (token : String) (node : NodeRow) (w : World)
      → w.db ≡ d
      → bearer_of authorization ≡ some token
      → node_by_token token d ≡ some node
      → (sftp_login argon2 uuids body w).0 ≡ ok id
      → IsOwner argon2 uuids authorization body d id
  unfolding sftp_login
  sftp_login_sound token node w same bearer at_node =
      let G : World → Type 0 = λ _. IsOwner argon2 uuids authorization body d id in
      ok_or_raise G invalid_credentials (split_once b'.' body.username) _ w id λ p username.
        ok_or_raise G invalid_credentials (uuids.parse_str p.1) _ w id λ server_id parsed.
          ok_bind G (user_with argon2 p.0 body.password) _ w id
            (user_with-Quiet argon2 p.0 body.password w).db
            λ owner w1 same1 e.
              let (found, verified) = user_with_sound argon2 p.0 body.password w owner e in
              ok_query G (server_of_user server_id owner.id) _ w1 id λ o w2 same2 o_is.
                ok_or_raise G invalid_credentials o _ w2 id λ s o_some h.
                  let same_id : server_id ≡ id = ground arith in
                  IsOwner-row token node p.0 p.1 owner s bearer at_node username
                    (parsed ∙ ap some same_id)
                    (record { found = rw same at found; verified = verified })
                    (let e1 : server_of_user server_id owner.id w1.db ≡ some s =
                        sym o_is ∙ o_some in
                      cc)

-- A verification that succeeds was asked for by a node of the tables, with a user name that is
-- the address of a user and a server's identifier, with that user's password; the server is one of
-- the tables that the user owns, and the answer is its identifier.
pub sftp_verify_sound :
    (argon2 : Argon2) (uuids : UuidText) (authorization : Option String) (body : SftpVerifyRequest)
    (w : World) (id : Uuid)
    → (sftp_verify argon2 uuids authorization body w).0 ≡ ok id
    → IsOwner argon2 uuids authorization body w.db id
unfolding sftp_verify valid_node_token
sftp_verify_sound argon2 uuids authorization body w id =
    let G : World → Type 0 = λ _. IsOwner argon2 uuids authorization body w.db id in
    ok_or_raise G invalid_credentials (bearer_of authorization) _ w id λ token bearer.
      ok_bind G (valid_node_token token) _ w id (valid_node_token-Quiet token w).db
        λ node w1 same e.
          sftp_login_sound argon2 uuids authorization body w.db id token node w1 same bearer
            (valid_node_token_sound token w node e)

sftp_login_refused :
    (argon2 : Argon2) (uuids : UuidText) (username email server_text password : String) (w : World)
    → split_once b'.' username ≡ some (email, server_text)
    → uuids.parse_str server_text ≡ none
    → sftp_login argon2 uuids (record { username = username; password = password }) w
      ≡ (err invalid_credentials, w)
unfolding sftp_login
sftp_login_refused argon2 uuids username email server_text password w e gone = rw (e, gone) refl

-- Where a user's address has a dot in it and no identifier's text has, the user name that names
-- the address and a server is refused, whatever the server and the password, and no table is
-- changed.
sftp_verify_dotted :
    (argon2 : Argon2) (uuids : UuidText)
    → ((s : String) → contains_char b'.' s ≡ true → uuids.parse_str s ≡ none)
    → (authorization : Option String) (email server_id password : String) (w : World)
    → w.faults ≡ []
    → contains_char b'.' email ≡ true
    → sftp_verify argon2 uuids authorization
        (record { username = email +++ "." +++ server_id; password = password })
        w
      ≡ (err invalid_credentials, w)
unfolding sftp_verify valid_node_token sftp_login query contains_char
sftp_verify_dotted argon2 uuids undotted authorization email server_id password w calm dotted =
    let (first, rest, e, dot) = split_once-twice b'.' email "." server_id dotted refl in
    let refused = sftp_login_refused argon2 uuids _ first rest password w e (undotted rest dot) in
    elim (Option-cases (bearer_of authorization)) [
      | inl absent ↦ ground (arith, absent)
      | inr (token, there) ↦ ground (arith, there, calm, refused)
    ]
