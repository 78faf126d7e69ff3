-- ===== src/Node/Docker/Bounds.antt =====
-- The numbers of a container: `provision_server` of crates/node/src/server.rs with `create_container`
-- of crates/node/src/docker.rs.
use oxydactylus.Base.{◌*◌, ◌^◌, ◌<◌, ◌≡◌, ◌↔◌, ◌⊎◌, true, arith}
use oxydactylus.Base.Int.{pos}
use oxydactylus.Node.Docker.Config.{mul_i64, config_of, out_of_range}
use oxydactylus.Node.Service.{ServerProvisionRequest, spec_of}

module _ (r : ServerProvisionRequest) (memory : r.memory_mb < 2 ^ 32)
    (cpu : r.cpu_percent < 2 ^ 32) where
  -- Of a request, whose numbers have 32 bits, the daemon refuses exactly those with a zero, and the
  -- products that it gives to Docker, the memory in bytes and the processor time in billionths,
  -- are exact: no multiplication overflows.
  pub config_of-spec_of :
      ((out_of_range (spec_of r) ≡ true) ↔ ((r.memory_mb ≡ 0) ⊎ (r.cpu_percent ≡ 0)))
      × ((config_of (spec_of r)).memory ≡ pos (r.memory_mb * 1048576))
      × ((config_of (spec_of r)).nano_cpus ≡ pos (r.cpu_percent * 10000000))
  unfolding config_of mul_i64 out_of_range
  config_of-spec_of = ((ground arith, ground arith), ground arith, ground arith)
