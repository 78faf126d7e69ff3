-- ===== src/Node/Guard.antt =====
-- The token of a request between the panel and a node: `BearerInterceptor` of crates/panel/src/
-- node_client.rs, which puts it in, and `AuthInterceptor` of crates/node/src/interceptor.rs, which
-- looks for it.
pub mod Accepted
mod Examples
use oxydactylus.Base.{◌≡◌, String, Option, none, some, str_eq, if◌then◌else◌}
use oxydactylus.Base.Text.{◌+++◌}

-- The values of the metadata of a request, a type of the crate tonic: `MetadataValue::try_from`
-- and `to_str`.
pub record Metadata : Type 1 where
  pub Value : Type 0
  pub try_from : String → Option Value
  pub to_str : Value → Option String

-- A value that was made of a text and can be read is read as that text.
abbrev pub IsMetadata : Metadata → Type 0
IsMetadata m = (s t : String) (v : m.Value) → m.try_from s ≡ some v → m.to_str v ≡ some t → t ≡ s

-- What a call of an interceptor ends with: the request, or a status with its message.
pub data Outcome (A : Type 0) : Type 0 where
  passed : A → Outcome A
  internal : String → Outcome A
  unauthenticated : String → Outcome A

abbrev pub bearer : String → String
bearer token = "Bearer " +++ token

module _ (m : Metadata) where
  -- Of a request, only the value of `authorization` counts here.
  unfoldable pub panel_call : String → Option m.Value → Outcome (Option m.Value)
  panel_call token req = inserted (m.try_from (bearer token))
    where
      inserted : Option m.Value → Outcome (Option m.Value)
      inserted none = internal "invalid token format"
      inserted (some val) = passed (some val)

  abbrev text_of : Option m.Value → Option String
  text_of none = none
  text_of (some v) = m.to_str v

  abbrev or_empty : Option String → String
  or_empty none = ""
  or_empty (some s) = s

  -- `expected` is the field that `AuthInterceptor::new` makes of the node's token.
  unfoldable pub node_call : String → Option m.Value → Outcome (Option m.Value)
  node_call token req =
      let expected = bearer token in
      let provided = or_empty (text_of req) in
      if str_eq provided expected then passed req else unauthenticated "invalid or missing token"

  -- A request of the panel to a node.
  unfoldable pub deliver : String → String → Option m.Value → Outcome (Option m.Value)
  deliver sent token req = received (panel_call sent req)
    where
      received : Outcome (Option m.Value) → Outcome (Option m.Value)
      received (passed r) = node_call token r
      received (internal s) = internal s
      received (unauthenticated s) = unauthenticated s
