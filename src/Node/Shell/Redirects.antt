-- ===== src/Node/Shell/Redirects.antt =====
-- What a shell makes of the command that writes a part of a file, `upload_file_chunk` of
-- crates/node/src/files.rs.
use Prim.Native.Char.{Char, code}
use Prim.Native.String.{[], ◌∷◌}
use text.Mathlib.TextLemmas.{nil-append, cons-append, append-nil}
use mathlib.Core.List.{[] as []ᴸ, ◌∷◌ as ◌∷ᴸ◌}
use oxydactylus.Base.{String, ◌≡◌, ◌∙◌, ap, Bool, true, false, some}
use oxydactylus.Base.Text.{push, ◌+++◌}
use oxydactylus.Base.Text.Laws.{prepend, append-prepend}
use oxydactylus.Node.Files.{shell_escape, redirect, upload_command}
use oxydactylus.Node.Shell.{
  Token, word, operator, classify, plain, emit, scan, gap, in_word, tokens,
}
use oxydactylus.Node.Shell.Quoting.{append-push, scan-last}

-- Every character of the text stands for itself outside quotes, as those of base64 do.
abbrev pub IsPlain : String → Type 0
IsPlain [] = Unit
IsPlain (c ∷ s) = (classify (code c) ≡ plain) × IsPlain s

scan-plain :
    (acc s rest : String)
    → IsPlain s
    → scan in_word acc (s +++ rest) ≡ scan in_word (acc +++ s) rest
unfolding scan
scan-plain acc [] rest h = rw (nil-append, append-nil)
scan-plain acc (c ∷ s) rest (here, later) =
    ap (scan in_word acc) (cons-append c s rest)
    ∙ rw (here, scan) (scan-plain (push acc c) s rest later)
    ∙ ap (λ t. scan in_word t rest) (append-push acc c s)

pub scan-plain_word :
    (c : Char) (s rest : String)
    → IsPlain (c ∷ s)
    → scan gap [] ((c ∷ s) +++ rest) ≡ scan in_word (c ∷ s) rest
unfolding scan
scan-plain_word c s rest (here, later) =
    ap (scan gap []) (cons-append c s rest)
    ∙ rw (here, scan) (scan-plain (c ∷ []) s rest later)
    ∙ ap (λ t. scan in_word t rest) (cons-append c [] s ∙ ap (λ t. c ∷ t) (nil-append s))

-- The operators that the shell reads in `>` and in `>>`.
abbrev pub redirecting : Bool → mathlib.Core.List.List Token → mathlib.Core.List.List Token
redirecting true rest = operator b'>' ∷ᴸ operator b'>' ∷ᴸ rest
redirecting false rest = operator b'>' ∷ᴸ rest

scan-redirect :
    (append : Bool) (path : String)
    → scan gap [] (redirect append +++ " " +++ shell_escape path)
      ≡ some (redirecting append (word path ∷ᴸ []ᴸ))
unfolding scan
scan-redirect true path =
    ap (scan gap []) (
      append-prepend ">>" (" " +++ shell_escape path)
      ∙ ap (prepend ">>") (append-prepend " " (shell_escape path)))
    ∙ ap (λ o. emit (operator b'>') (emit (operator b'>') o)) (scan-last path)
scan-redirect false path =
    ap (scan gap []) (
      append-prepend ">" (" " +++ shell_escape path)
      ∙ ap (prepend ">") (append-prepend " " (shell_escape path)))
    ∙ ap (emit (operator b'>')) (scan-last path)

-- If the encoded chunk is not empty and holds only characters that stand for themselves, a shell
-- pipes `echo` of it into `base64 -d`, and directs that to exactly the given path: whatever the
-- path holds, it is the one word after `>`, or after `>>` for a chunk that is appended.
pub tokens-upload_command :
    (c : Char) (s : String) (append : Bool) (path : String)
    → IsPlain (c ∷ s)
    → tokens (upload_command (c ∷ s) append path)
      ≡ some (
          word "echo"
          ∷ᴸ word (c ∷ s)
          ∷ᴸ operator b'|'
          ∷ᴸ word "base64"
          ∷ᴸ word "-d"
          ∷ᴸ redirecting append (word path ∷ᴸ []ᴸ))
unfolding tokens upload_command scan
tokens-upload_command c s append path h =
    let target = redirect append +++ " " +++ shell_escape path in
    let rest = " | base64 -d " +++ target in
    ap (scan gap []) (append-prepend "echo " ((c ∷ s) +++ rest))
    ∙ ap (emit (word "echo")) (
        scan-plain_word c s rest h
        ∙ ap (scan in_word (c ∷ s)) (append-prepend " | base64 -d " target)
        ∙ ap
            (λ o.
              emit (word (c ∷ s))
                (emit (operator b'|') (emit (word "base64") (emit (word "-d") o))))
            (scan-redirect append path))
