-- ===== src/Node/Docker.antt =====
-- What the daemon asks of Docker: the trait `DockerBackend` of crates/node/src/docker.rs and what
-- its methods take and give.
pub mod Config
pub mod Bollard
pub mod Ports
pub mod Bounds
mod Examples
use oxydactylus.Base.{ℕ, String, Bool, List}
use oxydactylus.Base.Int.{ℤ}
use oxydactylus.Node.Error.{NodeError, Result, Run}

pub record ContainerSpec : Type 0 where
  pub image : String
  pub name : String
  pub env : List String
  pub memory_mb : ℤ
  pub cpu_percent : ℤ
  pub ports : List String

-- `Float` stands for `f64`.
pub record ContainerStats (Float : Type 0) : Type 0 where
  pub memory_bytes : ℕ
  pub cpu_percent : Float
  pub rx_bytes : ℕ
  pub tx_bytes : ℕ

pub record LogChunk : Type 0 where
  pub content : String
  pub stream : String

-- A stream is the list of what it yields.
pub record DockerBackend (Float : Type 0) : Type 1 where
  pub State : Type 0
  pub create_container : ContainerSpec → Run State NodeError String
  pub start_container : String → Run State NodeError (Unit {0})
  pub stop_container : String → ℕ → Run State NodeError (Unit {0})
  pub delete_container : String → Run State NodeError (Unit {0})
  pub send_command : String → String → Run State NodeError (Unit {0})
  pub send_command_with_output : String → String → Run State NodeError String
  pub get_stats : String → Run State NodeError (ContainerStats Float)
  pub log_stream : String → Bool → Run State NodeError (List (Result NodeError LogChunk))
