-- ===== src/Node/Service.antt =====
-- The service of the daemon: `NodeServiceImpl` of crates/node/src/server.rs over any backend of the
-- trait `DockerBackend`.
pub mod Transfer
pub mod Upload
pub mod Logs
mod Examples
use oxydactylus.Base.{ℕ, String, Bool, true, List}
use oxydactylus.Base.Int.{pos}
use oxydactylus.Base.Text.{◌+++◌}
use oxydactylus.Node.Error.{NodeError, Status, status_of, Run, pure, ◌>>=◌, ◌>>◌, map_err}
use oxydactylus.Node.Docker.{ContainerSpec, ContainerStats, DockerBackend}
use oxydactylus.Node.Files.Listing.{FileEntry}
use oxydactylus.Node.Files.Operations as Operations
use oxydactylus.Node.Files.Operations.{Codec}

pub record ServerReply : Type 0 where
  pub success : Bool
  pub message : String

abbrev pub reply : String → ServerReply
reply message = record { success = true; message = message }

-- The message of `provision_server`; the numbers are `u32`.
pub record ServerProvisionRequest : Type 0 where
  pub server_id : String
  pub image : String
  pub memory_mb : ℕ
  pub cpu_percent : ℕ
  pub env : List String
  pub ports : List String

abbrev pub spec_of : ServerProvisionRequest → ContainerSpec
spec_of r = record {
  name = r.server_id;
  image = r.image;
  memory_mb = pos r.memory_mb;
  cpu_percent = pos r.cpu_percent;
  env = r.env;
  ports = r.ports;
}

-- With the server's identifier.
pub record ServerStats (Float : Type 0) : Type 0 where
  pub server_id : String
  pub stats : ContainerStats Float

module _ {Float : Type 0} (backend : DockerBackend Float) where
  -- A call of the backend, and the reply if that succeeds.
  abbrev pub replying :
      {A : Type 0} → Run backend.State NodeError A → String → Run backend.State Status ServerReply
  replying m message = do map_err status_of m; pure (reply message)

  unfoldable pub start_server : String → Run backend.State Status ServerReply
  start_server id = replying (backend.start_container id) ("started " +++ id)

  unfoldable pub stop_server : String → ℕ → Run backend.State Status ServerReply
  stop_server id timeout = replying (backend.stop_container id timeout) ("stopped " +++ id)

  unfoldable pub delete_server : String → Run backend.State Status ServerReply
  delete_server id = replying (backend.delete_container id) ("deleted " +++ id)

  unfoldable pub get_stats : String → Run backend.State Status (ServerStats Float)
  get_stats id = do
    s ← map_err status_of (backend.get_stats id)
    pure record { server_id = id; stats = s }

  unfoldable pub send_command : String → String → Run backend.State Status ServerReply
  send_command id content = replying (backend.send_command id content) ("command sent to " +++ id)

  unfoldable pub provision_server : ServerProvisionRequest → Run backend.State Status ServerReply
  provision_server r =
      replying (backend.create_container (spec_of r)) ("provisioned " +++ r.server_id)

  unfoldable pub list_files : String → String → Run backend.State Status (List FileEntry)
  list_files id path = map_err status_of (Operations.list_files backend id path)

  unfoldable pub create_directory : String → String → Run backend.State Status ServerReply
  create_directory id path =
      replying (Operations.create_directory backend id path) ("created directory on " +++ id)

  unfoldable pub delete_files : String → String → Bool → Run backend.State Status ServerReply
  delete_files id path recursive =
      replying (Operations.delete_files backend id path recursive) ("deleted files on " +++ id)

  unfoldable pub rename_file : String → String → String → Run backend.State Status ServerReply
  rename_file id old_path new_path =
      replying (Operations.rename_file backend id old_path new_path) ("renamed file on " +++ id)

  module _ (codec : Codec) where
    unfoldable pub get_file_contents : String → String → Run backend.State Status (List ℕ)
    get_file_contents id path =
        map_err status_of (Operations.get_file_contents codec backend id path)

    unfoldable pub write_file_contents :
        String → String → List ℕ → Run backend.State Status ServerReply
    write_file_contents id path content =
        replying (Operations.write_file_contents codec backend id path content)
          ("wrote file to " +++ id)
