-- ===== src/Panel/NodeClient/Examples.antt =====
-- Calls of a node with one file.
use oxydactylus.Base.{String, refl, [], ◌∷◌, true, false}
use oxydactylus.Panel.Store.{Uuid, Request, delete_files}
use oxydactylus.Node.Shell.{word}
use oxydactylus.Node.Toy.{toy_codec, toy_backend, toy-IsBase64, decode_text}
use oxydactylus.Panel.NodeClient.Commands.{Runs, call-command_for}

abbrev id_text : Uuid → String
id_text id = "10"

-- A path that would be two commands if it were not quoted.
abbrev sly : Request
sly = delete_files 10 "a; rm -rf b'" true

call-command_for_example : Runs toy_codec toy_backend id_text sly record {
  container = "10";
  words = word "rm" ∷ word "-rf" ∷ word "a; rm -rf b'" ∷ [];
  is_read = false;
}
call-command_for_example =
    call-command_for toy_codec toy_backend id_text decode_text sly
      record {
        container = "10";
        words = word "rm" ∷ word "-rf" ∷ word "a; rm -rf b'" ∷ [];
        is_read = false;
      }
      toy-IsBase64 refl
