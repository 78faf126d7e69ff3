-- ===== src/Node/Files.antt =====
-- crates/node/src/files.rs: the shell commands that the daemon runs in a server's container, and
-- what it reads from their output.
pub mod Listing
pub mod Operations
mod Examples
use Prim.Native.Char.{code}
use Prim.Native.String.{[], ◌∷◌}
use oxydactylus.Base.{String, Bool, ◌==◌, if◌then◌else◌}
use oxydactylus.Base.Text.{◌+++◌}

-- `s.replace('\'', "'\\''")`
unfoldable pub escape_quotes : String → String
escape_quotes [] = []
escape_quotes (c ∷ s) =
    let rest = escape_quotes s in if code c == 39 then "'\\''" +++ rest else c ∷ rest

unfoldable pub shell_escape : String → String
unfolding escape_quotes
shell_escape s = "'" +++ escape_quotes s +++ "'"

-- The command of each operation.
unfoldable pub list_command : String → String
list_command path = "ls -la --time-style=long-iso " +++ shell_escape path

unfoldable pub contents_command : String → String
contents_command path = "cat " +++ shell_escape path

unfoldable pub directory_command : String → String
directory_command path = "mkdir -p " +++ shell_escape path

abbrev pub flag : Bool → String
flag recursive = if recursive then "-rf" else "-f"

unfoldable pub delete_command : String → Bool → String
delete_command path recursive = "rm " +++ flag recursive +++ " " +++ shell_escape path

unfoldable pub rename_command : String → String → String
rename_command old_path new_path = "mv " +++ shell_escape old_path +++ " " +++ shell_escape new_path

-- `encoded` is the content in base64.
unfoldable pub write_command : String → String → String
write_command encoded path = "echo " +++ encoded +++ " | base64 -d > " +++ shell_escape path

abbrev pub redirect : Bool → String
redirect append = if append then ">>" else ">"

unfoldable pub upload_command : String → Bool → String → String
upload_command encoded append path =
    "echo " +++ encoded +++ " | base64 -d " +++ redirect append +++ " " +++ shell_escape path
