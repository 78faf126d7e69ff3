-- ===== src/Node/Docker/Config.antt =====
-- The configuration of a container: `create_container` of `BollardDocker`, crates/node/src/docker.rs,
-- up to the call of Docker.
use oxydactylus.Base.{
  ℕ, ◌+◌, ◌-◌, ◌*◌, ◌^◌, ◌%◌, String, Bool, true, false, ltb, ◌||◌, str_eq, Option, none, some,
  List, [], ◌∷◌, if◌then◌else◌,
}
use oxydactylus.Base.Int.{ℤ, pos, negsuc, leb_ℤ}
use oxydactylus.Base.Text.{◌+++◌, split_once, contains_char}
use oxydactylus.Node.Docker.{ContainerSpec}

pub record PortBinding : Type 0 where
  pub host_ip : String
  pub host_port : String

-- `HashMap<String, Option<Vec<PortBinding>>>`, each value a vector of one.
abbrev pub Bindings : Type 0
Bindings = String → Option PortBinding

abbrev pub no_bindings : Bindings
no_bindings key = none

abbrev pub insert_binding : String → PortBinding → Bindings → Bindings
insert_binding key b m other = if str_eq key other then some b else m other

-- `splitn(3, ':')`
abbrev pub two_parts : String → String → Option (String × String) → List String
two_parts first rest none = first ∷ rest ∷ []
two_parts first rest (some (second, third)) = first ∷ second ∷ third ∷ []

abbrev pub parts_of : String → Option (String × String) → List String
parts_of entry none = entry ∷ []
parts_of entry (some (first, rest)) = two_parts first rest (split_once b':' rest)

unfoldable pub splitn_3 : String → List String
splitn_3 entry = parts_of entry (split_once b':' entry)

abbrev pub with_protocol : String → String
with_protocol container_part =
    if contains_char b'/' container_part then container_part else container_part +++ "/tcp"

abbrev pub entry_of : List String → Option (String × PortBinding)
entry_of (ip ∷ hp ∷ cp ∷ []) = some (with_protocol cp, record { host_ip = ip; host_port = hp })
entry_of (hp ∷ cp ∷ []) = some (with_protocol cp, record { host_ip = "0.0.0.0"; host_port = hp })
entry_of _ = none

abbrev pub insert_entry : Option (String × PortBinding) → Bindings → Bindings
insert_entry none m = m
insert_entry (some (key, b)) m = insert_binding key b m

-- One round of the loop over the ports.
unfoldable pub bind_port : String → Bindings → Bindings
bind_port entry m = insert_entry (entry_of (splitn_3 entry)) m

unfoldable pub port_bindings : List String → Bindings → Bindings
port_bindings [] m = m
port_bindings (entry ∷ rest) m = port_bindings rest (bind_port entry m)

-- Multiplication of `i64`, which wraps.
abbrev times : ℤ → ℕ → ℤ
times (pos n) k = pos (n * k)
times (negsuc n) k = if ltb 0 k then negsuc ((n + 1) * k - 1) else pos 0

abbrev signed_64 : ℕ → ℤ
signed_64 m = if ltb m (2 ^ 63) then pos m else negsuc (2 ^ 64 - 1 - m)

abbrev wrap_i64 : ℤ → ℤ
wrap_i64 (pos n) = signed_64 (n % 2 ^ 64)
wrap_i64 (negsuc n) = signed_64 (2 ^ 64 - 1 - n % 2 ^ 64)

unfoldable pub mul_i64 : ℤ → ℕ → ℤ
mul_i64 z k = wrap_i64 (times z k)

-- The parts of bollard's `Config` and `HostConfig` that are set.
pub record ContainerConfig : Type 0 where
  pub name : String
  pub image : String
  pub env : List String
  pub open_stdin : Bool
  pub stdin_once : Bool
  pub memory : ℤ
  pub nano_cpus : ℤ
  pub bindings : Bindings

unfoldable pub config_of : ContainerSpec → ContainerConfig
config_of spec = record {
  name = spec.name;
  image = spec.image;
  env = spec.env;
  open_stdin = true;
  stdin_once = false;
  memory = mul_i64 (mul_i64 spec.memory_mb 1024) 1024;
  nano_cpus = mul_i64 spec.cpu_percent 10000000;
  bindings = port_bindings spec.ports no_bindings;
}

-- `memory_mb <= 0 || cpu_percent <= 0`
unfoldable pub out_of_range : ContainerSpec → Bool
out_of_range spec = leb_ℤ spec.memory_mb (pos 0) || leb_ℤ spec.cpu_percent (pos 0)
