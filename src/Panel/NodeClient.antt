-- ===== src/Panel/NodeClient.antt =====
-- The calls of a node: each method of `NodeClient` in crates/panel/src/node_client.rs, with the
-- handler of the node's service that answers it.
pub mod Commands
mod Examples
use oxydactylus.Base.{ℕ, String}
use oxydactylus.Panel.Error.{PanelError, from_status}
use oxydactylus.Panel.Store.{
  Uuid, Request, connect, provision, start, stop, delete, send_command, get_stats, stream_logs,
  list_files, get_file_contents, write_file_contents, create_directory, delete_files, rename_file,
}
use oxydactylus.Panel.Logs.{message}
use oxydactylus.Node.Error.{Status, Run, pure, ◌>>◌, map_err}
use oxydactylus.Node.Docker.{DockerBackend}
use oxydactylus.Node.Files.Operations.{Codec}
use oxydactylus.Node.Service as Service

-- `.map_err(PanelError::from)`
abbrev pub failed : Status → PanelError
failed s = from_status (message s)

-- `.map(|_| ())`, or what the model leaves out of an answer.
abbrev pub called : {S A : Type 0} → Run S Status A → Run S PanelError (Unit {0})
called m = map_err failed (m >> pure tt)

-- `id_text` is the text of an identifier.
module _ {Float : Type 0} (codec : Codec) (backend : DockerBackend Float)
    (id_text : Uuid → String) where
  unfoldable pub call : Request → Run backend.State PanelError (Unit {0})
  call connect = pure tt
  call (provision id image memory_mb cpu_percent env ports) = called (
      Service.provision_server backend record {
        server_id = id_text id;
        image = image;
        memory_mb = memory_mb;
        cpu_percent = cpu_percent;
        env = env;
        ports = ports;
      })
  call (start id) = called (Service.start_server backend (id_text id))
  call (stop id timeout) = called (Service.stop_server backend (id_text id) timeout)
  call (delete id) = called (Service.delete_server backend (id_text id))
  call (send_command id content) = called (Service.send_command backend (id_text id) content)
  call (get_stats id) = called (Service.get_stats backend (id_text id))
  call (stream_logs id follow) = pure tt
  call (list_files id path) = called (Service.list_files backend (id_text id) path)
  call (get_file_contents id path) =
      called (Service.get_file_contents backend codec (id_text id) path)
  call (write_file_contents id path content) =
      called
        (Service.write_file_contents backend codec (id_text id) path (codec.into_bytes content))
  call (create_directory id path) = called (Service.create_directory backend (id_text id) path)
  call (delete_files id path recursive) =
      called (Service.delete_files backend (id_text id) path recursive)
  call (rename_file id old_path new_path) =
      called (Service.rename_file backend (id_text id) old_path new_path)
