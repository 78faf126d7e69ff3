-- ===== src/Panel/Login/Refused.antt =====
-- How a login fails: crates/panel/src/auth.rs does not tell an unknown address from a wrong
-- password.
use oxydactylus.Base.{
  String, false, [], ◌≡◌, refl, arith, inl, inr, Memᴰ, find-Memᴰ, Option-cases, str_eq, eq_iff,
}
use oxydactylus.Panel.Error.{err}
use oxydactylus.Panel.Store.{Time, UserRow, World, query}
use oxydactylus.Panel.Tokens.{Jwt, UuidText}
use oxydactylus.Panel.Login.{
  Argon2, verify_password, user_by_email, with_password, user_with, invalid_credentials,
  LoginRequest, login,
}

-- No user has both the address and the password.
abbrev pub NoUser : Argon2 → String → String → World → Type 0
NoUser argon2 email password w =
    (u : UserRow)
    → Memᴰ u w.db.users
    → u.email ≡ email
    → verify_password argon2 password u.password_hash ≡ false

pub user_with_refused :
    (argon2 : Argon2) (email password : String) (w : World)
    → w.faults ≡ []
    → NoUser argon2 email password w
    → user_with argon2 email password w ≡ (err invalid_credentials, w)
unfolding user_with with_password query user_by_email
user_with_refused argon2 email password w calm nobody =
    elim (Option-cases (user_by_email email w.db)) [
      | inl e ↦ ground (arith, e, calm)
      | inr (row, e) ↦
          let (m, hit) = find-Memᴰ (λ u. str_eq u.email email) w.db.users row e in
          let no = nobody row m ((eq_iff row.email email).0 hit) in ground (arith, e, calm, no)
    ]

-- Where no statement fails, a login without a user who has both the address and the password
-- answers with the same error, whether the address is unknown or the password wrong, and leaves
-- the state as it is.
pub login_refused :
    (argon2 : Argon2) (jwt : Jwt) (uuids : UuidText) (secret : String) (now : Time)
    (body : LoginRequest) (w : World)
    → w.faults ≡ []
    → NoUser argon2 body.email body.password w
    → login argon2 jwt uuids secret now body w ≡ (err invalid_credentials, w)
unfolding login
login_refused argon2 jwt uuids secret now body w calm nobody =
    rw (user_with_refused argon2 body.email body.password w calm nobody) refl
