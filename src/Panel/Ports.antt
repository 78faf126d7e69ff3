-- ===== src/Panel/Ports.antt =====
-- The ports that a request for allocations names: `create_allocations` of
-- crates/panel/src/allocations.rs, up to its statements.
pub mod Bounds
use oxydactylus.Base.{
  ℕ, zero, suc, ◌+◌, ◌-◌, String, ◌||◌, Option, none, some, List, [], ◌∷◌, ◌++◌, if◌then◌else◌,
}
use oxydactylus.Base.Int.{ℤ, pos, negsuc, pos_part, neg_part, leb_ℤ, ltb_ℤ}
use oxydactylus.Base.Text.{trim, contains_char, split, parse_i32}
use oxydactylus.Panel.Error.{Result, ok, err, PanelError, validation, text, ◌>>=◌}

-- A `serde_json::Value` among the ports: a number, with what `as_i64` makes of it, a text, or any
-- other value.
pub data PortVal : Type 0 where
  number : Option ℤ → PortVal
  string : String → PortVal
  other_value : PortVal

abbrev or_invalid : {A : Type 0} → String → Option A → Result A
or_invalid message none = err (validation (text message))
or_invalid message (some a) = ok a

-- `p <= 0 || p > 65535`, or else the port
unfoldable pub single_port : ℤ → Result (List ℤ)
single_port p =
    if leb_ℤ p (pos 0) || ltb_ℤ (pos 65535) p
    then err (validation (text "invalid port bounds"))
    else ok (p ∷ [])

abbrev next_ℤ : ℤ → ℤ
next_ℤ (pos n) = pos (suc n)
next_ℤ (negsuc zero) = pos 0
next_ℤ (negsuc (suc n)) = negsuc n

unfoldable pub counted_from : ℤ → ℕ → List ℤ
counted_from z zero = []
counted_from z (suc n) = z ∷ counted_from (next_ℤ z) n

-- `start..=end`
unfoldable pub inclusive : ℤ → ℤ → List ℤ
unfolding counted_from
inclusive start end =
    counted_from start (pos_part end + neg_part start + 1 - (pos_part start + neg_part end))

unfoldable pub port_range : ℤ → ℤ → Result (List ℤ)
port_range start end =
    if ltb_ℤ end start || leb_ℤ start (pos 0) || ltb_ℤ (pos 65535) end
    then err (validation (text "invalid port range bounds"))
    else ok (inclusive start end)

-- `a-b`, split at its hyphens
unfoldable pub range_of_parts : List String → Result (List ℤ)
range_of_parts (first ∷ second ∷ []) =
    or_invalid "invalid port range" (parse_i32 (trim first)) >>= λ start.
    or_invalid "invalid port range" (parse_i32 (trim second)) >>= λ end. port_range start end
range_of_parts _ = err (validation (text "invalid port range format"))

unfoldable pub resolve_text : String → Result (List ℤ)
resolve_text port_str =
    if contains_char b'-' port_str
    then range_of_parts (split b'-' port_str)
    else or_invalid "invalid port" (parse_i32 port_str) >>= single_port

unfoldable pub resolve_port : PortVal → Result (List ℤ)
resolve_port (number n) = or_invalid "invalid port format" n >>= single_port
resolve_port (string port_str) = resolve_text (trim port_str)
resolve_port other_value = err (validation (text "invalid port format"))

-- `resolved_ports` after the loop over the request's ports
unfoldable pub resolve_ports : List PortVal → Result (List ℤ)
resolve_ports [] = ok []
resolve_ports (v ∷ vs) = resolve_port v >>= λ ps. resolve_ports vs >>= λ rest. ok (ps ++ rest)
