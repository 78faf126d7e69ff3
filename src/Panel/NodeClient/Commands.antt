-- ===== src/Panel/NodeClient/Commands.antt =====
-- Which command a request of the panel about files makes a node run in the server's container.
use oxydactylus.Base.{
  ℕ, String, Bool, true, false, Option, none, some, List, [], ◌∷◌, ◌≡◌, refl, if◌then◌else◌,
}
use oxydactylus.Panel.Error.{PanelError}
use oxydactylus.Panel.Store.{
  Uuid, Request, list_files, get_file_contents, write_file_contents, create_directory, delete_files,
  rename_file,
}
use oxydactylus.Node.Error.{NodeError, Result, ok, err, status_of, Run, pure, ◌>>◌, ◌>>=◌, map_err}
use oxydactylus.Node.Docker.{DockerBackend}
use oxydactylus.Node.Files.{
  flag, list_command, contents_command, directory_command, delete_command, rename_command,
  write_command,
}
use oxydactylus.Node.Files.Operations.{Codec}
use oxydactylus.Node.Files.Operations as Operations
use oxydactylus.Node.Service as Service
use oxydactylus.Node.Service.Upload.{IsBase64, decoding}
use oxydactylus.Node.Shell.Quoting.{tokens-rename_command, tokens-delete_command}
use oxydactylus.Node.Shell.Commands.{
  tokens-list_command, tokens-contents_command, tokens-directory_command, tokens-write_command,
}
use oxydactylus.Node.Shell.{Token, word, tokens}
use oxydactylus.Panel.NodeClient.{failed, called, call}

-- What runs: in which container, the words that the shell gets, and whether its output is read.
pub record Command : Type 0 where
  pub container : String
  pub words : List Token
  pub is_read : Bool

-- The outcome of a command, for the panel.
abbrev pub outcome : {S A : Type 0} → Result NodeError A × S → Result PanelError (Unit {0}) × S
outcome (ok a, s) = (ok tt, s)
outcome (err e, s) = (err (failed (status_of e)), s)

called-replying :
    {S A B : Type 0} (m : Run S NodeError A) (b : B) (s : S)
    → called (map_err status_of m >> pure b) s ≡ outcome (m s)
called-replying {S} {A} {B} m b s = go (m s)
  where
    go : (q : Result NodeError A × S) → called (map_err status_of (λ _. q) >> pure b) s ≡ outcome q
    go (ok a, s') = refl
    go (err e, s') = refl

called-reading :
    {S A B : Type 0} (m : Run S NodeError A) (f : A → B) (s : S)
    → called (map_err status_of (m >>= λ a. pure (f a))) s ≡ outcome (m s)
called-reading {S} {A} {B} m f s = go (m s)
  where
    go :
        (q : Result NodeError A × S)
        → called (map_err status_of ((λ _. q) >>= λ a. pure (f a))) s ≡ outcome q
    go (ok a, s') = refl
    go (err e, s') = refl

module _ {Float : Type 0} (codec : Codec) (backend : DockerBackend Float)
    (id_text : Uuid → String) where
  abbrev pub writing : List ℕ → String → String → Option Command
  writing [] container path = none
  writing (b ∷ bytes) container path = some record {
    container = container;
    words = decoding (codec.encode (b ∷ bytes)) false path;
    is_read = false;
  }

  -- What a request about files is to run; nothing for any other request and for a write of nothing.
  abbrev pub command_for : Request → Option Command
  command_for (list_files id path) = some record {
    container = id_text id;
    words = word "ls" ∷ word "-la" ∷ word "--time-style=long-iso" ∷ word path ∷ [];
    is_read = true;
  }
  command_for (get_file_contents id path) =
      some record { container = id_text id; words = word "cat" ∷ word path ∷ []; is_read = true }
  command_for (write_file_contents id path content) =
      writing (codec.into_bytes content) (id_text id) path
  command_for (create_directory id path) = some record {
    container = id_text id;
    words = word "mkdir" ∷ word "-p" ∷ word path ∷ [];
    is_read = false;
  }
  command_for (delete_files id path recursive) = some record {
    container = id_text id;
    words = word "rm" ∷ word (flag recursive) ∷ word path ∷ [];
    is_read = false;
  }
  command_for (rename_file id old_path new_path) = some record {
    container = id_text id;
    words = word "mv" ∷ word old_path ∷ word new_path ∷ [];
    is_read = false;
  }
  command_for r = none

  -- What the backend does with the text of a command.
  abbrev pub ran : Command → String → backend.State → Result PanelError (Unit {0}) × backend.State
  ran c text s =
      if c.is_read
      then outcome (backend.send_command_with_output c.container text s)
      else outcome (backend.send_command c.container text s)

  abbrev pub Runs : Request → Command → Type 0
  Runs r c =
      (text : String) × (tokens text ≡ some c.words)
      × ((s : backend.State) → call codec backend id_text r s ≡ ran c text s)

  abbrev RunsIfAny : Request → Option Command → Type 0
  RunsIfAny r none = Unit
  RunsIfAny r (some c) = Runs r c

  write-writing :
      (decode : String → List ℕ) (id : Uuid) (path content : String)
      → IsBase64 codec decode
      → RunsIfAny
          (write_file_contents id path content)
          (writing (codec.into_bytes content) (id_text id) path)
  unfolding call Service.write_file_contents Operations.write_file_contents
  write-writing decode id path content base64 = go (codec.into_bytes content) refl
    where
      go :
          (bytes : List ℕ)
          → codec.into_bytes content ≡ bytes
          → RunsIfAny (write_file_contents id path content) (writing bytes (id_text id) path)
      go [] e = tt
      go (b ∷ bytes) e =
          let (c, s, text, plain) = base64.plain_text b bytes in
          (
            write_command (codec.encode (b ∷ bytes)) path,
            rw text (tokens-write_command c s path plain),
            λ st. rw e (
                called-replying
                  (backend.send_command (id_text id)
                    (write_command (codec.encode (b ∷ bytes)) path))
                  _ st),
          )

  each_runs :
      (decode : String → List ℕ) (r : Request) → IsBase64 codec decode → RunsIfAny r (command_for r)
  unfolding call Service.list_files Service.get_file_contents Service.create_directory
      Service.delete_files Service.rename_file Operations.list_files Operations.get_file_contents
      Operations.create_directory Operations.delete_files Operations.rename_file
  each_runs decode (list_files id path) base64 = (
    list_command path,
    tokens-list_command path,
    called-reading (backend.send_command_with_output (id_text id) (list_command path)) _,
  )
  each_runs decode (get_file_contents id path) base64 = (
    contents_command path,
    tokens-contents_command path,
    called-reading (backend.send_command_with_output (id_text id) (contents_command path)) _,
  )
  each_runs decode (write_file_contents id path content) base64 =
      write-writing decode id path content base64
  each_runs decode (create_directory id path) base64 = (
    directory_command path,
    tokens-directory_command path,
    called-replying (backend.send_command (id_text id) (directory_command path)) _,
  )
  each_runs decode (delete_files id path recursive) base64 = (
    delete_command path recursive,
    tokens-delete_command path recursive,
    called-replying (backend.send_command (id_text id) (delete_command path recursive)) _,
  )
  each_runs decode (rename_file id old_path new_path) base64 = (
    rename_command old_path new_path,
    tokens-rename_command old_path new_path,
    called-replying (backend.send_command (id_text id) (rename_command old_path new_path)) _,
  )
  each_runs decode r base64 = tt

  -- A request of the panel about files, but for a write of nothing, makes the node run one command
  -- in the container of the server, and a shell reads its text as the words that the request
  -- stands for, with each path one word, whatever it holds; the panel is told of how the command
  -- ended.
  pub call-command_for :
      (decode : String → List ℕ) (r : Request) (c : Command)
      → IsBase64 codec decode
      → command_for r ≡ some c
      → Runs r c
  call-command_for decode r c base64 e = rw e at (each_runs decode r base64)
