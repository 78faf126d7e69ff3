-- ===== src/Panel/Tokens/Laws.antt =====
-- What the panel makes of a token that it has issued.
use oxydactylus.Base.{
  ℕ, String, Bool, true, ◌≡◌, refl, arith, some, ◌≤◌, ◌<◌, ◌-◌, str_eq, eq_iff, Option,
}
use oxydactylus.Panel.Error.{text, internal, unauthorized, ok, err}
use oxydactylus.Panel.Store.{Uuid, Time}
use oxydactylus.Base.{inl, inr, ◌⊎◌, leb, Bool-cases, ◌≢◌}
use oxydactylus.Base.Text.{◌+++◌}
use oxydactylus.Base.Text.Laws.{strip_prefix-append}
use oxydactylus.Panel.Tokens.{
  or_error, Claims, Outcome, returned, failed, Jwt, UuidText, saturating_add, Parts, claims_of,
  encode_token, decode_token, from_request_parts,
}

-- What the documentation of `jsonwebtoken` says of a token and the secret that it was made with:
-- until the second of `exp` it reads back, from then on it is refused.
pub record IsJwt (jwt : Jwt) : Type 0 where
  pub valid :
      (secret : String) (c : Claims) (token : String) (now : Time)
      → jwt.encode secret c ≡ returned token
      → now ≤ c.exp
      → jwt.decode secret now token ≡ returned c
  pub expired :
      (secret : String) (c : Claims) (token : String) (now : Time)
      → jwt.encode secret c ≡ returned token
      → c.exp < now
      → (what : String) × (jwt.decode secret now token ≡ failed what)

-- An identifier reads back from its text.
abbrev pub IsUuidText : UuidText → Type 0
IsUuidText uuids = (id : Uuid) → uuids.parse_str (uuids.to_string id) ≡ some id

-- The header of a client that was given a token.
abbrev pub with_token : String → Option String → Parts
with_token token q = record { authorization = some ("Bearer " +++ token); query = q }

module _ (jwt : Jwt) (uuids : UuidText) (is_jwt : IsJwt jwt) (is_uuids : IsUuidText uuids)
    (secret : String) where
  pub encode_token_returned :
      (now : Time) (id : Uuid) (is_admin : Bool) (kind : String) (ttl : ℕ) (token : String)
      → encode_token jwt uuids secret now id is_admin kind ttl ≡ ok token
      → jwt.encode secret (claims_of uuids now id is_admin kind ttl) ≡ returned token
  unfolding encode_token
  encode_token_returned now id is_admin kind ttl token h = go _ refl h
    where
      go :
          (o : Outcome String)
          → jwt.encode secret (claims_of uuids now id is_admin kind ttl) ≡ o
          → or_error internal o ≡ ok token
          → jwt.encode secret (claims_of uuids now id is_admin kind ttl) ≡ returned token
      go (returned t) e h' = ground (arith, e)
      go (failed what) e h' = cc

  -- A token that the panel made, given back to it as of a kind, at a time.
  pub decode_token-encode_token :
      (now : Time) (id : Uuid) (is_admin : Bool) (kind : String) (ttl : ℕ) (token : String)
      (later : Time)
      → encode_token jwt uuids secret now id is_admin kind ttl ≡ ok token
      → later ≤ saturating_add (now - 1) ttl
      → decode_token jwt uuids secret later token kind
        ≡ ok (claims_of uuids now id is_admin kind ttl)
  unfolding decode_token
  decode_token-encode_token now id is_admin kind ttl token later h le =
      let e = encode_token_returned now id is_admin kind ttl token h in
      let same : str_eq kind kind ≡ true = (eq_iff kind kind).1 refl in
      rw (is_jwt.valid secret _ token later e le, same) refl

  -- A token of another kind, or one that has expired, is refused.
  pub decode_token_refused :
      (now : Time) (id : Uuid) (is_admin : Bool) (kind : String) (ttl : ℕ) (token : String)
      (later : Time) (expected : String)
      → encode_token jwt uuids secret now id is_admin kind ttl ≡ ok token
      → (kind ≢ expected) ⊎ (saturating_add (now - 1) ttl < later)
      → (what : String) × (decode_token jwt uuids secret later token expected
          ≡ err (unauthorized (text what)))
  unfolding decode_token
  decode_token_refused now id is_admin kind ttl token later expected h why =
      let e = encode_token_returned now id is_admin kind ttl token h in
      elim (Bool-cases (leb later (saturating_add (now - 1) ttl))) [
        | inl early ↦ elim (Bool-cases (str_eq kind expected)) [
          | inl same ↦ elim why [
            | inl other ↦ elim (other ((eq_iff kind expected).0 same)) [ ]
            | inr late ↦ ground arith
          ]
          | inr other ↦ (
            "wrong token type",
            rw (is_jwt.valid secret _ token later e (ground arith), other) refl,
          )
        ]
        | inr late ↦
            let (what, gone) = is_jwt.expired secret _ token later e (ground arith) in
            (what, rw gone refl)
      ]

  pub from_request_parts-encode_token :
      (now : Time) (id : Uuid) (is_admin : Bool) (ttl : ℕ) (token : String) (later : Time)
      (q : Option String)
      → encode_token jwt uuids secret now id is_admin "access" ttl ≡ ok token
      → later ≤ saturating_add (now - 1) ttl
      → from_request_parts jwt uuids secret later (with_token token q)
        ≡ ok (record { id = id; is_admin = is_admin })
  unfolding from_request_parts
  from_request_parts-encode_token now id is_admin ttl token later q h le =
      rw
        (
          strip_prefix-append,
          decode_token-encode_token now id is_admin "access" ttl token later h le,
          is_uuids id,
        )
        refl

  pub from_request_parts_refused :
      (now : Time) (id : Uuid) (is_admin : Bool) (kind : String) (ttl : ℕ) (token : String)
      (later : Time) (q : Option String)
      → encode_token jwt uuids secret now id is_admin kind ttl ≡ ok token
      → (kind ≢ "access") ⊎ (saturating_add (now - 1) ttl < later)
      → (what : String) × (from_request_parts jwt uuids secret later (with_token token q)
          ≡ err (unauthorized (text what)))
  unfolding from_request_parts
  from_request_parts_refused now id is_admin kind ttl token later q h why =
      let (what, gone) = decode_token_refused now id is_admin kind ttl token later "access" h why in
      (what, rw (strip_prefix-append, gone) refl)
