-- ===== src/Panel/Login/Issued.antt =====
-- What a login gives out, and what the extractors and `refresh` of crates/panel/src/auth.rs make
-- of it.
use oxydactylus.Base.{
  String, true, Option, some, ◌≡◌, ◌≢◌, ◌≤◌, ◌<◌, ◌-◌, ◌⊎◌, inl, inr, arith, str_eq, eq_iff,
}
use oxydactylus.Panel.Error.{text, unauthorized, ok, err}
use oxydactylus.Panel.Store.{Time, UserRow, Db, World, query, lift}
use oxydactylus.Panel.Store.Frame.{Quiet, ok_then}
use oxydactylus.Panel.Tokens.{Jwt, UuidText, saturating_add, encode_token, from_request_parts}
use oxydactylus.Panel.Tokens.Laws.{
  IsJwt, IsUuidText, with_token, from_request_parts-encode_token, from_request_parts_refused,
  decode_token-encode_token,
}
use oxydactylus.Panel.Login.{
  Argon2, verify_password, user_by_email, with_password, user_with, LoginRequest, TokenResponse,
  login, refresh,
}

module _ (argon2 : Argon2) (email password : String) where
  pub user_with_sound :
      (w : World) (row : UserRow)
      → (user_with argon2 email password w).0 ≡ ok row
      → (user_by_email email w.db ≡ some row)
        × (verify_password argon2 password row.password_hash ≡ true)
  unfolding user_with with_password query
  user_with_sound w row h = ground arith

  pub user_with-Quiet : (w : World) → Quiet w (user_with argon2 email password w).1
  unfolding user_with with_password query
  user_with-Quiet w = ground arith

-- The user who has the address and the password.
pub record IsUser (argon2 : Argon2) (email password : String) (d : Db) (row : UserRow)
    : Type 0 where
  pub found : user_by_email email d ≡ some row
  pub verified : verify_password argon2 password row.password_hash ≡ true

module _ (argon2 : Argon2) (jwt : Jwt) (uuids : UuidText) (secret : String) (now : Time) where
  -- The two tokens of a response are made for a user of the tables.
  pub record IsIssued (body : LoginRequest) (d : Db) (r : TokenResponse) : Type 0 where
    pub row : UserRow
    pub user : IsUser argon2 body.email body.password d row
    pub access :
        encode_token jwt uuids secret now row.id row.is_admin "access" 900 ≡ ok r.access_token
    pub refreshing :
        encode_token jwt uuids secret now row.id row.is_admin "refresh" 604800 ≡ ok r.refresh_token

  pub login-IsIssued :
      (body : LoginRequest) (w : World) (r : TokenResponse)
      → (login argon2 jwt uuids secret now body w).0 ≡ ok r
      → IsIssued body w.db r
  unfolding login
  login-IsIssued body w r =
      ok_then (λ _. IsIssued body w.db r) (user_with argon2 body.email body.password) _ w r
        λ row w1 e.
          let (found, verified) = user_with_sound argon2 body.email body.password w row e in
          ok_then (λ _. IsIssued body w.db r)
            (lift (encode_token jwt uuids secret now row.id row.is_admin "access" 900)) _ w1 r
            λ a w2 access.
              ok_then (λ _. IsIssued body w.db r)
                (lift (encode_token jwt uuids secret now row.id row.is_admin "refresh" 604800)) _ w2
                r
                λ b w3 refreshing h. record {
                  row = row;
                  user = record { found = found; verified = verified };
                  access = ground (arith, access);
                  refreshing = ground (arith, refreshing);
                }

module _ (argon2 : Argon2) (jwt : Jwt) (uuids : UuidText) (is_jwt : IsJwt jwt)
    (is_uuids : IsUuidText uuids) (secret : String) (now : Time) (body : LoginRequest) (w : World)
    (r : TokenResponse) (h : (login argon2 jwt uuids secret now body w).0 ≡ ok r) where
  -- A login that succeeds has found the user with the address, whose password it was, and until
  -- its expiry the access token in the header makes a request one of that user, an administrator
  -- exactly if the row says so.
  pub login-from_request_parts :
      (later : Time) (q : Option String)
      → later ≤ saturating_add (now - 1) 900
      → (row : UserRow) × IsUser argon2 body.email body.password w.db row
        × (from_request_parts jwt uuids secret later (with_token r.access_token q)
            ≡ ok (record { id = row.id; is_admin = row.is_admin }))
  login-from_request_parts later q le =
      let i = login-IsIssued argon2 jwt uuids secret now body w r h in
      (
        i.row,
        i.user,
        from_request_parts-encode_token jwt uuids is_jwt is_uuids secret now i.row.id i.row.is_admin
            900 r.access_token later q i.access le,
      )

  -- The other token of the response is never accepted in a request, at no time, and neither is
  -- the access token once it has expired.
  login_tokens_refused :
      (token : String) (later : Time) (q : Option String)
      → (token ≡ r.refresh_token)
        ⊎ ((token ≡ r.access_token) × (saturating_add (now - 1) 900 < later))
      → (what : String) × (from_request_parts jwt uuids secret later (with_token token q)
          ≡ err (unauthorized (text what)))
  login_tokens_refused token later q which =
      let i = login-IsIssued argon2 jwt uuids secret now body w r h in
      elim which [
        | inl e ↦ rw e (
            from_request_parts_refused jwt uuids is_jwt is_uuids secret now i.row.id i.row.is_admin
              "refresh" 604800 r.refresh_token later q i.refreshing (inl kinds))
        | inr (e, late) ↦ rw e (
            from_request_parts_refused jwt uuids is_jwt is_uuids secret now i.row.id i.row.is_admin
              "access" 900 r.access_token later q i.access (inr late))
      ]
    where
      kinds : ◌≢◌ {A = String} "refresh" "access"
      kinds e = let t : str_eq "refresh" "access" ≡ true = (eq_iff "refresh" "access").1 e in cc

  -- A refresh that succeeds before the refresh token has expired, whatever the tables are by then,
  -- gives an access token that is again one of the user who signed in, with the rights that the
  -- user had when signing in.
  pub refresh-from_request_parts :
      (then later : Time) (w' : World) (token : String) (q : Option String)
      → then ≤ saturating_add (now - 1) 604800
      → (refresh jwt uuids secret then r.refresh_token w').0 ≡ ok token
      → later ≤ saturating_add (then - 1) 900
      → (row : UserRow) × IsUser argon2 body.email body.password w.db row
        × (from_request_parts jwt uuids secret later (with_token token q)
            ≡ ok (record { id = row.id; is_admin = row.is_admin }))
  unfolding refresh
  refresh-from_request_parts then later w' token q le fresh le' =
      let i = login-IsIssued argon2 jwt uuids secret now body w r h in
      let claims =
        decode_token-encode_token jwt uuids is_jwt is_uuids secret now i.row.id i.row.is_admin
          "refresh" 604800 r.refresh_token then i.refreshing le in
      let again : encode_token jwt uuids secret then i.row.id i.row.is_admin "access" 900
          ≡ ok token =
        (rw (claims, is_uuids i.row.id) at fresh) in
      (
        i.row,
        i.user,
        from_request_parts-encode_token jwt uuids is_jwt is_uuids secret then i.row.id
            i.row.is_admin 900 token later q again le',
      )
