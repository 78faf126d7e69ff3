-- ===== src/Node/Files/Operations.antt =====
-- The operations on files, crates/node/src/files.rs: each runs a command in the server's container.
use oxydactylus.Base.{ℕ, String, Bool, List}
use oxydactylus.Base.Text.{◌+++◌}
use oxydactylus.Node.Error.{NodeError, Run, pure, ◌>>=◌}
use oxydactylus.Node.Docker.{DockerBackend}
use oxydactylus.Node.Files.{
  shell_escape, list_command, contents_command, directory_command, delete_command, rename_command,
  write_command, upload_command,
}
use oxydactylus.Node.Files.Listing.{FileEntry, entries_of}

-- What the code uses of the standard library and of the crate base64: the bytes of a text, the text
-- of a number, and `STANDARD.encode`.
pub record Codec : Type 0 where
  pub into_bytes : String → List ℕ
  pub number_text : ℕ → String
  pub encode : List ℕ → String

module _ (codec : Codec) where
  unfoldable pub chunk_command : String → ℕ → ℕ → String
  chunk_command path offset chunk_size =
      "dd if="
      +++ shell_escape path
      +++ " bs=1 skip="
      +++ codec.number_text offset
      +++ " count="
      +++ codec.number_text chunk_size
      +++ " 2>/dev/null"

  module _ {Float : Type 0} (backend : DockerBackend Float) (server_id path : String) where
    unfoldable pub get_file_contents : Run backend.State NodeError (List ℕ)
    get_file_contents = do
      output ← backend.send_command_with_output server_id (contents_command path)
      pure (codec.into_bytes output)

    unfoldable pub write_file_contents : List ℕ → Run backend.State NodeError (Unit {0})
    write_file_contents content =
        backend.send_command server_id (write_command (codec.encode content) path)

    unfoldable pub download_file_chunk : ℕ → ℕ → Run backend.State NodeError (List ℕ)
    download_file_chunk offset chunk_size = do
      output ← backend.send_command_with_output server_id (chunk_command path offset chunk_size)
      pure (codec.into_bytes output)

    unfoldable pub upload_file_chunk : List ℕ → Bool → Run backend.State NodeError (Unit {0})
    upload_file_chunk chunk append =
        backend.send_command server_id (upload_command (codec.encode chunk) append path)

module _ {Float : Type 0} (backend : DockerBackend Float) (server_id path : String) where
  unfoldable pub list_files : Run backend.State NodeError (List FileEntry)
  list_files = do
    output ← backend.send_command_with_output server_id (list_command path)
    pure (entries_of path output)

  unfoldable pub create_directory : Run backend.State NodeError (Unit {0})
  create_directory = backend.send_command server_id (directory_command path)

  unfoldable pub delete_files : Bool → Run backend.State NodeError (Unit {0})
  delete_files recursive = backend.send_command server_id (delete_command path recursive)

  unfoldable pub rename_file : String → Run backend.State NodeError (Unit {0})
  rename_file new_path = backend.send_command server_id (rename_command path new_path)
