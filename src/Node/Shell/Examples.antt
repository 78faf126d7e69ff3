-- ===== src/Node/Shell/Examples.antt =====
-- Commands for paths that a shell would otherwise read as more than one word.
use mathlib.Core.List.{[] as []ᴸ, ◌∷◌ as ◌∷ᴸ◌}
use oxydactylus.Base.{◌≡◌, some}
use oxydactylus.Node.Files.{rename_command}
use oxydactylus.Node.Shell.{word, tokens}
use oxydactylus.Node.Shell.Quoting.{tokens-rename_command}

tokens-rename_command_example :
    tokens (rename_command "it's; rm -rf /" "b c")
    ≡ some (word "mv" ∷ᴸ word "it's; rm -rf /" ∷ᴸ word "b c" ∷ᴸ []ᴸ)
tokens-rename_command_example = tokens-rename_command "it's; rm -rf /" "b c"
