-- ===== src/Node/Docker/Bollard.antt =====
-- `BollardDocker` of crates/node/src/docker.rs: the methods of the trait by calls of the crate
-- bollard, whose client is a parameter.
use oxydactylus.Base.{
  ℕ, ◌+◌, ◌-◌, ◌^◌, ◌%◌, String, Bool, true, false, ltb, Option, none, some, List, [], ◌∷◌, map,
  if◌then◌else◌,
}
use oxydactylus.Base.Text.{◌+++◌}
use oxydactylus.Node.Error.{
  NodeError, docker, validation, BollardError, from_bollard, Result, ok, err, Run, raise, ◌>>=◌,
  ◌>>◌, map_err,
}
use oxydactylus.Node.Docker.{ContainerSpec, ContainerStats, LogChunk, DockerBackend}
use oxydactylus.Node.Docker.Config.{ContainerConfig, config_of, out_of_range}

-- The counters of a container. `networks` are the bytes received and sent of each network.
pub record Stats : Type 0 where
  pub total_usage : ℕ
  pub system_cpu_usage : Option ℕ
  pub pre_total_usage : ℕ
  pub pre_system_cpu_usage : Option ℕ
  pub online_cpus : Option ℕ
  pub usage : Option ℕ
  pub networks : Option (List (ℕ × ℕ))

pub data LogOutput : Type 0 where
  std_out : String → LogOutput
  std_err : String → LogOutput
  std_in : String → LogOutput
  console : String → LogOutput

-- The client: a state of the Docker server, and the calls. `attach` takes whether the output is
-- wanted; `output` is what a connection yields until its end, each a text or an error's text. An
-- error of a stream of bytes is its text.
pub record Client : Type 1 where
  pub State : Type 0
  pub Connection : Type 0
  pub create_container : ContainerConfig → Run State BollardError String
  pub start_container : String → Run State BollardError (Unit {0})
  pub stop_container : String → ℕ → Run State BollardError (Unit {0})
  pub remove_container : String → Bool → Bool → Bool → Run State BollardError (Unit {0})
  pub attach_container : String → Bool → Run State BollardError Connection
  pub write_all : Connection → String → Run State String (Unit {0})
  pub flush : Connection → Run State String (Unit {0})
  pub output : Connection → Run State String (List (Result String String))
  pub stats : String → State → Option (Result BollardError Stats) × State
  pub logs : String → Bool → State → List (Result BollardError LogOutput) × State

-- What the code uses of `f64`.
pub record FloatOps : Type 1 where
  pub Float : Type 0
  pub of_u64 : ℕ → Float
  pub divide : Float → Float → Float
  pub multiply : Float → Float → Float
  pub zero_float : Float
  pub hundred : Float

abbrev or_number : ℕ → Option ℕ → ℕ
or_number n none = n
or_number n (some m) = m

abbrev add_traffic : ℕ × ℕ → ℕ × ℕ → ℕ × ℕ
add_traffic (rx, tx) (a, b) = ((rx + a) % 2 ^ 64, (tx + b) % 2 ^ 64)

abbrev sum_traffic : ℕ × ℕ → List (ℕ × ℕ) → ℕ × ℕ
sum_traffic acc [] = acc
sum_traffic acc (net ∷ nets) = sum_traffic (add_traffic acc net) nets

abbrev traffic_of : Option (List (ℕ × ℕ)) → ℕ × ℕ
traffic_of none = (0, 0)
traffic_of (some nets) = sum_traffic (0, 0) nets

module _ (ops : FloatOps) where
  -- `saturating_sub` is the subtraction of natural numbers.
  unfoldable pub cpu_percent_of : Stats → ops.Float
  cpu_percent_of stats =
      let cpu_delta = stats.total_usage - stats.pre_total_usage in
      let system_delta =
        or_number 0 stats.system_cpu_usage - or_number 0 stats.pre_system_cpu_usage in
      let num_cpus = ops.of_u64 (or_number 1 stats.online_cpus) in
      if ltb 0 system_delta
      then ops.multiply
          (ops.multiply (ops.divide (ops.of_u64 cpu_delta) (ops.of_u64 system_delta)) num_cpus)
          ops.hundred
      else ops.zero_float

  unfoldable pub stats_of : Stats → ContainerStats ops.Float
  stats_of stats = record {
    memory_bytes = or_number 0 stats.usage;
    cpu_percent = cpu_percent_of stats;
    rx_bytes = (traffic_of stats.networks).0;
    tx_bytes = (traffic_of stats.networks).1;
  }

abbrev chunk_of : LogOutput → LogChunk
chunk_of (std_out s) = record { content = s; stream = "stdout" }
chunk_of (std_err s) = record { content = s; stream = "stderr" }
chunk_of (std_in s) = record { content = s; stream = "stdout" }
chunk_of (console s) = record { content = s; stream = "stdout" }

abbrev log_item : Result BollardError LogOutput → Result NodeError LogChunk
log_item (ok o) = ok (chunk_of o)
log_item (err e) = err (from_bollard e)

-- The texts of a stream one after the other, up to the first error.
unfoldable pub collect_output : String → List (Result String String) → Result NodeError String
collect_output acc [] = ok acc
collect_output acc (ok msg ∷ rest) = collect_output (acc +++ msg) rest
collect_output acc (err e ∷ rest) = err (docker e)

module _ (client : Client) where
  unfoldable pub create : ContainerSpec → Run client.State NodeError String
  create spec s =
      if out_of_range spec
      then raise (validation "memory_mb and cpu_percent must be positive") s
      else map_err from_bollard (client.create_container (config_of spec)) s

  -- The payload, which goes to the standard input of the container's first process.
  abbrev write_line : client.Connection → String → Run client.State NodeError (Unit {0})
  write_line c command = do
    map_err docker (client.write_all c (command +++ "\n"))
    map_err docker (client.flush c)

  unfoldable pub send_line : String → String → Run client.State NodeError (Unit {0})
  send_line id command = do
    c ← map_err from_bollard (client.attach_container id false)
    write_line c command

  unfoldable pub send_line_with_output : String → String → Run client.State NodeError String
  send_line_with_output id command = do
    c ← map_err from_bollard (client.attach_container id true)
    write_line c command
    messages ← map_err docker (client.output c)
    λ s. (collect_output "" messages, s)

  abbrev first_stats :
      (ops : FloatOps)
      → Option (Result BollardError Stats)
      → Result NodeError (ContainerStats ops.Float)
  first_stats ops none = err (docker "no stats returned")
  first_stats ops (some (ok stats)) = ok (stats_of ops stats)
  first_stats ops (some (err e)) = err (from_bollard e)

  abbrev pub bollard_docker : (ops : FloatOps) → DockerBackend ops.Float
  bollard_docker ops = record {
    State = client.State;
    create_container = create;
    start_container = λ id. map_err from_bollard (client.start_container id);
    stop_container = λ id timeout. map_err from_bollard (client.stop_container id timeout);
    delete_container = λ id. map_err from_bollard (client.remove_container id true false false);
    send_command = send_line;
    send_command_with_output = send_line_with_output;
    get_stats = λ id s. let (first, s') = client.stats id s in (first_stats ops first, s');
    log_stream =
        λ id follow s. let (items, s') = client.logs id follow s in (ok (map log_item items), s');
  }
