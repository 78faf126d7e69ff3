-- ===== src/Node/Docker/Examples.antt =====
-- The ports and the numbers of a container.
use oxydactylus.Base.{ℕ, String, true, ◌*◌, ◌≡◌, ◌↔◌, ◌⊎◌, refl, some, none, [], ◌∷◌, arith}
use oxydactylus.Base.Int.{ℤ, pos, negsuc}
use oxydactylus.Panel.Store.{Allocation}
use oxydactylus.Panel.Lifecycle.{bindings}
use Prim.Native.String.{◌∷◌ as ◌∷ˢ◌}
use oxydactylus.Base.Text.{contains_char}
use oxydactylus.Node.Toy.{marks, marks_free}
use oxydactylus.Node.Service.{ServerProvisionRequest, spec_of}
use oxydactylus.Node.Docker.Config.{config_of, out_of_range, no_bindings, port_bindings}
use oxydactylus.Node.Docker.Ports.{IsNumberText, key_of, port_bindings-bindings}
use oxydactylus.Node.Docker.Bounds.{config_of-spec_of}

abbrev port_text : ℤ → String
port_text (pos n) = marks n
port_text (negsuc n) = "-" ∷ˢ marks n

port_text-IsNumberText : IsNumberText port_text
unfolding contains_char
port_text-IsNumberText (pos n) = (marks_free b':' n refl, marks_free b'/' n refl)
port_text-IsNumberText (negsuc n) = (marks_free b':' n refl, marks_free b'/' n refl)

abbrev at : String → Allocation
at ip = record {
  id = 1;
  node_id = 1;
  ip = ip;
  ip_alias = none;
  port = pos 5;
  server_id = some 10;
  created_at = 0;
}

port_bindings-bindings_example :
    port_bindings
      (bindings port_text (at "10.0.0.1" ∷ at "10.0.0.2" ∷ []))
      no_bindings
      (key_of port_text (pos 5) true)
    ≡ some record { host_ip = "10.0.0.2"; host_port = "xxxxx" }
unfolding marks contains_char
port_bindings-bindings_example =
    port_bindings-bindings port_text port_text-IsNumberText (at "10.0.0.1" ∷ at "10.0.0.2" ∷ [])
      (pos 5) true (refl, (refl, tt))

abbrev request : ServerProvisionRequest
request = record {
  server_id = "10";
  image = "alpine";
  memory_mb = 512;
  cpu_percent = 50;
  env = [];
  ports = [];
}

config_of-spec_of_example :
    ((out_of_range (spec_of request) ≡ true) ↔ ((◌≡◌ {A = ℕ} 512 0) ⊎ (◌≡◌ {A = ℕ} 50 0)))
    × ((config_of (spec_of request)).memory ≡ pos (512 * 1048576))
    × ((config_of (spec_of request)).nano_cpus ≡ pos (50 * 10000000))
config_of-spec_of_example = config_of-spec_of request (omega arith) (omega arith)
