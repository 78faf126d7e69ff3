-- ===== src/Panel/Users/Examples.antt =====
-- Runs of the routes of the users, with stand-ins for the crates.
use oxydactylus.Base.{true, ◌≡◌, refl}
use oxydactylus.Panel.Error.{ok}
use oxydactylus.Panel.Store.{calm}
use oxydactylus.Panel.Sample.{sample_db}
use oxydactylus.Panel.Toy.Tokens.{toy_uuids, toy_jwt, toy_argon2, toy_argon2-IsArgon2, toy_token}
use oxydactylus.Panel.Tokens.{claims_of, encode_token}
use oxydactylus.Panel.Login.{login}
use oxydactylus.Panel.Users.{CreateUserRequest, user_of, new_user, create_user}
use oxydactylus.Panel.Users.Created.{create_user-login}

abbrev body : CreateUserRequest
body = record { email = "eve@example.org"; password = "open sesame"; is_admin = true }

access_token :
    encode_token toy_jwt toy_uuids "secret" 2000 30 true "access" 900
    ≡ ok (toy_token (claims_of toy_uuids 2000 30 true "access" 900))
unfolding encode_token
access_token = refl

refresh_token :
    encode_token toy_jwt toy_uuids "secret" 2000 30 true "refresh" 604800
    ≡ ok (toy_token (claims_of toy_uuids 2000 30 true "refresh" 604800))
unfolding encode_token
refresh_token = refl

create_user-login_example :
    ((create_user toy_argon2 30 1000 "salt" body (calm sample_db)).0
      ≡ ok (user_of (new_user 30 1000 body "open sesame")))
    × ((login toy_argon2 toy_jwt toy_uuids "secret" 2000
          (record { email = "eve@example.org"; password = "open sesame" })
          (create_user toy_argon2 30 1000 "salt" body (calm sample_db)).1).0
        ≡ ok record {
          access_token = toy_token (claims_of toy_uuids 2000 30 true "access" 900);
          refresh_token = toy_token (claims_of toy_uuids 2000 30 true "refresh" 604800);
          email = "eve@example.org";
          is_admin = true;
        })
create_user-login_example =
    create_user-login toy_argon2 toy_argon2-IsArgon2 30 1000 "salt" "open sesame" body sample_db
      refl refl toy_jwt toy_uuids "secret" 2000
      (toy_token (claims_of toy_uuids 2000 30 true "access" 900))
      (toy_token (claims_of toy_uuids 2000 30 true "refresh" 604800)) refl access_token
      refresh_token
