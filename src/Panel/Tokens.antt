-- ===== src/Panel/Tokens.antt =====
-- The tokens of crates/panel/src/auth.rs: what they claim, how they are made and read, and the
-- extractors that make a user of a request. The crates for tokens and identifiers are records of
-- the operations that the source calls.
pub mod Laws
use oxydactylus.Base.{
  ℕ, String, Bool, ◌+◌, ◌-◌, ◌^◌, leb, str_eq, Option, none, some, List, [], ◌∷◌, if◌then◌else◌,
}
use oxydactylus.Base.Text.{strip_prefix, split}
use oxydactylus.Panel.Error.{
  PanelError, Message, text, internal, unauthorized, forbidden, Result, ok, err, ◌>>=◌,
}
use oxydactylus.Panel.Store.{Uuid, Time}
use oxydactylus.Panel.Access.{AuthUser}

pub record Claims : Type 0 where
  pub sub : String
  pub adm : Bool
  pub exp : ℕ
  pub kind : String

-- What a crate returns: a value, or an error with its text.
pub data Outcome (A : Type 0) : Type 0 where
  returned : A → Outcome A
  failed : String → Outcome A

-- `map_err(|e| …(e.to_string()))`
abbrev pub or_error : {A : Type 0} → (Message → PanelError) → Outcome A → Result A
or_error e (returned a) = ok a
or_error e (failed what) = err (e (text what))

-- `jsonwebtoken`: `encode` with a secret; `decode` with a secret, at a time, without leeway.
pub record Jwt : Type 0 where
  pub encode : String → Claims → Outcome String
  pub decode : String → Time → String → Outcome Claims

-- `uuid`: `to_string` and `parse_str`.
pub record UuidText : Type 0 where
  pub to_string : Uuid → String
  pub parse_str : String → Option Uuid

-- `saturating_add` of `u64`
abbrev pub saturating_add : ℕ → ℕ → ℕ
saturating_add a b = if leb (a + b) (2 ^ 64 - 1) then a + b else 2 ^ 64 - 1

-- The parts of a request that the extractors read, each `none` where it is absent or no text.
pub record Parts : Type 0 where
  pub authorization : Option String
  pub query : Option String

-- `find_map(|kv| kv.strip_prefix("token="))`
abbrev pub token_of : List String → Option String
token_of [] = none
token_of (kv ∷ rest) = elim (strip_prefix "token=" kv) [
  | none ↦ token_of rest
  | some token ↦ some token
]

abbrev pub bearer_of : Option String → Option String
bearer_of none = none
bearer_of (some header) = strip_prefix "Bearer " header

abbrev pub query_token : Option String → Option String
query_token none = none
query_token (some q) = token_of (split b'&' q)

-- `or_else`
abbrev pub first_of : Option String → Option String → Option String
first_of none b = b
first_of (some a) b = some a

abbrev pub or_unauthorized : {A : Type 0} → String → Option A → Result A
or_unauthorized what none = err (unauthorized (text what))
or_unauthorized what (some a) = ok a

abbrev pub claims_of : UuidText → Time → Uuid → Bool → String → ℕ → Claims
claims_of uuids now user_id is_admin kind ttl_secs = record {
  sub = uuids.to_string user_id;
  adm = is_admin;
  exp = saturating_add (now - 1) ttl_secs;
  kind = kind;
}

abbrev pub of_kind : String → Claims → Result Claims
of_kind expected_kind claims =
    if str_eq claims.kind expected_kind
    then ok claims
    else err (unauthorized (text "wrong token type"))

abbrev pub only_admin : AuthUser → Result AuthUser
only_admin user = if user.is_admin then ok user else err forbidden

module _ (jwt : Jwt) (uuids : UuidText) (jwt_secret : String) where
  unfoldable pub encode_token : Time → Uuid → Bool → String → ℕ → Result String
  encode_token now user_id is_admin kind ttl_secs =
      or_error internal (jwt.encode jwt_secret (claims_of uuids now user_id is_admin kind ttl_secs))

  unfoldable pub decode_token : Time → String → String → Result Claims
  decode_token now token expected_kind =
      or_error unauthorized (jwt.decode jwt_secret now token) >>= of_kind expected_kind

  -- `AuthUser::from_request_parts`
  unfoldable pub from_request_parts : Time → Parts → Result AuthUser
  from_request_parts now parts = do
    token ←
        or_unauthorized "missing token"
          (first_of (bearer_of parts.authorization) (query_token parts.query))
    claims ← decode_token now token "access"
    id ← or_unauthorized "invalid sub" (uuids.parse_str claims.sub)
    ok (record { id = id; is_admin = claims.adm })

  -- `AdminUser::from_request_parts`
  unfoldable pub admin_from_request_parts : Time → Parts → Result AuthUser
  admin_from_request_parts now parts = from_request_parts now parts >>= only_admin
