-- ===== src/Node/Shell/Commands.antt =====
-- What a shell makes of the other commands of crates/node/src/files.rs: those that list a directory,
-- print a file, make a directory and write a file.
use Prim.Native.Char.{Char}
use Prim.Native.String.{[], ◌∷◌}
use mathlib.Core.List.{[] as []ᴸ, ◌∷◌ as ◌∷ᴸ◌}
use oxydactylus.Base.{String, ◌≡◌, ◌∙◌, ap, false, some}
use oxydactylus.Base.Text.{◌+++◌}
use oxydactylus.Base.Text.Laws.{append-prepend}
use oxydactylus.Node.Files.{
  shell_escape, list_command, contents_command, directory_command, write_command,
}
use oxydactylus.Node.Shell.{word, operator, emit, scan, gap, in_word, tokens}
use oxydactylus.Node.Shell.Quoting.{scan-last}
use oxydactylus.Node.Shell.Redirects.{IsPlain, scan-plain_word, redirecting}

pub tokens-list_command :
    (path : String)
    → tokens (list_command path)
      ≡ some (word "ls" ∷ᴸ word "-la" ∷ᴸ word "--time-style=long-iso" ∷ᴸ word path ∷ᴸ []ᴸ)
unfolding tokens list_command scan
tokens-list_command path =
    ap (scan gap []) (append-prepend "ls -la --time-style=long-iso " (shell_escape path))
    ∙ ap (λ o. emit (word "ls") (emit (word "-la") (emit (word "--time-style=long-iso") o)))
        (scan-last path)

pub tokens-contents_command :
    (path : String) → tokens (contents_command path) ≡ some (word "cat" ∷ᴸ word path ∷ᴸ []ᴸ)
unfolding tokens contents_command scan
tokens-contents_command path =
    ap (scan gap []) (append-prepend "cat " (shell_escape path))
    ∙ ap (emit (word "cat")) (scan-last path)

pub tokens-directory_command :
    (path : String)
    → tokens (directory_command path) ≡ some (word "mkdir" ∷ᴸ word "-p" ∷ᴸ word path ∷ᴸ []ᴸ)
unfolding tokens directory_command scan
tokens-directory_command path =
    ap (scan gap []) (append-prepend "mkdir -p " (shell_escape path))
    ∙ ap (λ o. emit (word "mkdir") (emit (word "-p") o)) (scan-last path)

pub tokens-write_command :
    (c : Char) (s path : String)
    → IsPlain (c ∷ s)
    → tokens (write_command (c ∷ s) path)
      ≡ some (
          word "echo"
          ∷ᴸ word (c ∷ s)
          ∷ᴸ operator b'|'
          ∷ᴸ word "base64"
          ∷ᴸ word "-d"
          ∷ᴸ redirecting false (word path ∷ᴸ []ᴸ))
unfolding tokens write_command scan
tokens-write_command c s path h =
    let rest = " | base64 -d > " +++ shell_escape path in
    ap (scan gap []) (append-prepend "echo " ((c ∷ s) +++ rest))
    ∙ ap (emit (word "echo")) (
        scan-plain_word c s rest h
        ∙ ap (scan in_word (c ∷ s)) (append-prepend " | base64 -d > " (shell_escape path))
        ∙ ap
            (λ o. emit (word (c ∷ s)) (
              emit (operator b'|')
                (emit (word "base64") (emit (word "-d") (emit (operator b'>') o)))))
            (scan-last path))
