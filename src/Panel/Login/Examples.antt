-- ===== src/Panel/Login/Examples.antt =====
-- Runs of the logins, with stand-ins for the crates.
use oxydactylus.Base.{true, false, ◌≡◌, refl, arith, none, some, [], ◌∷◌, Memᴰ, find}
use oxydactylus.Base.Text.{split_once, strip_prefix}
use oxydactylus.Panel.Error.{ok, err}
use oxydactylus.Panel.Store.{UserRow, Db, calm, query}
use oxydactylus.Panel.Sample.{sample_db}
use oxydactylus.Panel.Toy.Tokens.{
  toy_uuids, toy_uuids-IsUuidText, toy_jwt, toy_jwt-IsJwt, toy_argon2, toy_token,
}
use oxydactylus.Panel.Toy.Tokens
use oxydactylus.Panel.Tokens.{claims_of, encode_token, from_request_parts}
use oxydactylus.Panel.Tokens.Laws.{with_token}
use oxydactylus.Panel.Login.{
  user_by_email, node_by_token, valid_node_token, server_of_user, LoginRequest, TokenResponse,
  SftpVerifyRequest, with_password, user_with, login, refresh, sftp_login, sftp_verify,
  invalid_credentials,
}
use oxydactylus.Panel.Login.Issued.{IsUser, login-from_request_parts, refresh-from_request_parts}
use oxydactylus.Panel.Login.Refused.{NoUser, login_refused}
use oxydactylus.Panel.Login.Sftp.{IsOwner, sftp_verify_sound}

abbrev ana : UserRow
ana = record {
  id = 7;
  email = "ana@example.org";
  password_hash = "correct horse";
  is_admin = false;
  created_at = 0;
}

abbrev root : UserRow
root = record {
  id = 1;
  email = "root@localhost";
  password_hash = "battery staple";
  is_admin = true;
  created_at = 0;
}

abbrev login_db : Db
login_db = record sample_db { users = root ∷ ana ∷ [] }

abbrev request : LoginRequest
request = record { email = "ana@example.org"; password = "correct horse" }

abbrev response : TokenResponse
response = record {
  access_token = toy_token (claims_of toy_uuids 1000 7 false "access" 900);
  refresh_token = toy_token (claims_of toy_uuids 1000 7 false "refresh" 604800);
  email = "ana@example.org";
  is_admin = false;
}

login_test :
    (login toy_argon2 toy_jwt toy_uuids "secret" 1000 request (calm login_db)).0 ≡ ok response
unfolding login user_with with_password query user_by_email find encode_token
login_test = refl

login-from_request_parts_example :
    (row : UserRow) × IsUser toy_argon2 "ana@example.org" "correct horse" login_db row
    × (from_request_parts toy_jwt toy_uuids "secret" 1500 (with_token response.access_token none)
        ≡ ok (record { id = row.id; is_admin = row.is_admin }))
login-from_request_parts_example =
    login-from_request_parts toy_argon2 toy_jwt toy_uuids toy_jwt-IsJwt toy_uuids-IsUuidText
      "secret" 1000 request (calm login_db) response login_test 1500 none (omega arith)

refresh_test :
    (refresh toy_jwt toy_uuids "secret" 5000 response.refresh_token (calm login_db)).0
    ≡ ok (toy_token (claims_of toy_uuids 5000 7 false "access" 900))
unfolding encode_token refresh oxydactylus.Panel.Tokens.decode_token
refresh_test =
    let claims = claims_of toy_uuids 1000 7 false "refresh" 604800 in
    rw
      (
        toy_jwt-IsJwt.valid "secret" claims response.refresh_token 5000 refl (omega arith),
        toy_uuids-IsUuidText 7,
      )
      refl

refresh-from_request_parts_example :
    (row : UserRow) × IsUser toy_argon2 "ana@example.org" "correct horse" login_db row
    × (from_request_parts toy_jwt toy_uuids "secret" 5100
          (with_token (toy_token (claims_of toy_uuids 5000 7 false "access" 900)) none)
        ≡ ok (record { id = row.id; is_admin = row.is_admin }))
refresh-from_request_parts_example =
    refresh-from_request_parts toy_argon2 toy_jwt toy_uuids toy_jwt-IsJwt toy_uuids-IsUuidText
      "secret" 1000 request (calm login_db) response login_test 5000 5100 (calm login_db)
      (toy_token (claims_of toy_uuids 5000 7 false "access" 900)) none (omega arith) refresh_test
      (omega arith)

wrong_password : NoUser toy_argon2 "ana@example.org" "wrong" (calm login_db)
wrong_password u (Memᴰ.head e) h = rw e refl
wrong_password u (Memᴰ.tail (Memᴰ.head e)) h = rw e refl
wrong_password u (Memᴰ.tail (Memᴰ.tail m)) h = elim m [ ]

login_refused_example :
    login toy_argon2 toy_jwt toy_uuids "secret" 1000
      (record { email = "ana@example.org"; password = "wrong" })
      (calm login_db)
    ≡ (err invalid_credentials, calm login_db)
login_refused_example =
    login_refused toy_argon2 toy_jwt toy_uuids "secret" 1000
      (record { email = "ana@example.org"; password = "wrong" }) (calm login_db) refl wrong_password

-- An address without a dot, and the identifier of a server: 10 letters.
abbrev owner_db : Db
owner_db = record sample_db { users = record root { id = 7 } ∷ [] }

abbrev sftp_request : SftpVerifyRequest
sftp_request = record { username = "root@localhost.xxxxxxxxxx"; password = "battery staple" }

sftp_test :
    (sftp_verify toy_argon2 toy_uuids (some "Bearer secret") sftp_request (calm owner_db)).0 ≡ ok 10
unfolding sftp_verify valid_node_token sftp_login user_with with_password query user_by_email
    node_by_token server_of_user find split_once strip_prefix Tokens.read_marks
sftp_test = refl

sftp_verify_sound_example :
    IsOwner toy_argon2 toy_uuids (some "Bearer secret") sftp_request owner_db 10
sftp_verify_sound_example =
    sftp_verify_sound toy_argon2 toy_uuids (some "Bearer secret") sftp_request (calm owner_db) 10
      sftp_test
