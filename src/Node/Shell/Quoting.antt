-- ===== src/Node/Shell/Quoting.antt =====
-- What a shell makes of the commands of crates/node/src/files.rs.
use Prim.Native.Char.{Char, char, code}
use Prim.Native.String.{[], ◌∷◌}
use text.Mathlib.TextLemmas.{nil-append, cons-append, append-nil, append_assoc}
use text.Mathlib.TextEquality.{Char-path}
use mathlib.Core.List.{[] as []ᴸ, ◌∷◌ as ◌∷ᴸ◌}
use oxydactylus.Base.{
  String, ◌≡◌, refl, sym, ◌∙◌, ap, inl, inr, Bool, some, Bool-cases, true, false, ==_iff, ◌==◌,
}
use oxydactylus.Base.Text.{push, ◌+++◌}
use oxydactylus.Base.Text.Laws.{prepend, append-prepend}
use oxydactylus.Node.Files.{escape_quotes, shell_escape, rename_command, delete_command, flag}
use oxydactylus.Node.Shell.{word, emit, scan, gap, in_word, quoted, tokens}

pub append-push : (acc : String) (c : Char) (s : String) → push acc c +++ s ≡ acc +++ (c ∷ s)
append-push acc c s =
    append_assoc acc (c ∷ []) s
    ∙ ap (λ t. acc +++ t) (cons-append c [] s ∙ ap (λ t. c ∷ t) (nil-append s))

scan-quoted :
    (acc : String) (c : Char) (s : String)
    → (code c == 39) ≡ false
    → scan quoted acc (c ∷ s) ≡ scan quoted (push acc c) s
unfolding scan
scan-quoted acc c s e = rw (e, scan)

quote_char : Char
quote_char = char 39 tt

-- An escaped quotation mark, inside quotes: leave them, escape it, and go back.
scan-escaped_quote :
    (acc s : String) → scan quoted acc ("'\\''" +++ s) ≡ scan quoted (push acc quote_char) s
unfolding scan quote_char
scan-escaped_quote acc s = rw (cons-append, cons-append, cons-append, cons-append, nil-append) refl

-- Reading an escaped text inside quotes gives the text back, whatever it holds.
scan-escape_quotes :
    (acc s rest : String)
    → scan quoted acc (escape_quotes s +++ ("'" +++ rest)) ≡ scan in_word (acc +++ s) rest
unfolding escape_quotes scan
scan-escape_quotes acc [] rest = rw (nil-append, cons-append, nil-append, append-nil) refl
scan-escape_quotes acc (c ∷ s) rest = elim (Bool-cases (code c == 39)) [
  | inl e ↦
      let same : c ≡ quote_char =
        Char-path c quote_char (unfold quote_char in (==_iff (code c) 39).0 e) in
      ap (λ t. scan quoted acc (t +++ ("'" +++ rest))) (rw e)
      ∙ ap (scan quoted acc) (append_assoc "'\\''" (escape_quotes s) ("'" +++ rest))
      ∙ scan-escaped_quote acc (escape_quotes s +++ ("'" +++ rest))
      ∙ scan-escape_quotes (push acc quote_char) s rest
      ∙ ap (λ t. scan in_word t rest)
          (append-push acc quote_char s ∙ ap (λ d. acc +++ (d ∷ s)) (sym same))
  | inr e ↦
      ap (λ t. scan quoted acc (t +++ ("'" +++ rest))) (rw e)
      ∙ ap (scan quoted acc) (cons-append c (escape_quotes s) ("'" +++ rest))
      ∙ scan-quoted acc c (escape_quotes s +++ ("'" +++ rest)) e
      ∙ scan-escape_quotes (push acc c) s rest
      ∙ ap (λ t. scan in_word t rest) (append-push acc c s)
]

-- An escaped text is one word for the shell: between the words it reads back as the text.
scan-shell_escape : (s rest : String) → scan gap [] (shell_escape s +++ rest) ≡ scan in_word s rest
unfolding shell_escape scan
scan-shell_escape s rest =
    rw (append_assoc, append_assoc, cons-append, nil-append)
      (rw nil-append at (scan-escape_quotes [] s rest))

pub scan-last : (s : String) → scan gap [] (shell_escape s) ≡ some (word s ∷ᴸ []ᴸ)
unfolding scan
scan-last s = ap (scan gap []) (sym (append-nil (shell_escape s))) ∙ scan-shell_escape s []

scan-more :
    (s rest : String)
    → scan gap [] (shell_escape s +++ (" " +++ rest)) ≡ emit (word s) (scan gap [] rest)
unfolding scan
scan-more s rest = scan-shell_escape s (" " +++ rest) ∙ rw (cons-append, nil-append) refl

module _ (t : String) where
  scan-mv : scan gap [] ("mv " +++ t) ≡ emit (word "mv") (scan gap [] t)
  unfolding scan
  scan-mv = ap (scan gap []) (append-prepend "mv " t)

  scan-flag :
      (recursive : Bool)
      → scan gap [] (flag recursive +++ " " +++ t) ≡ emit (word (flag recursive)) (scan gap [] t)
  unfolding scan
  scan-flag true =
      ap (scan gap [])
        (append-prepend "-rf" (" " +++ t) ∙ ap (prepend "-rf") (append-prepend " " t))
  scan-flag false =
      ap (scan gap []) (append-prepend "-f" (" " +++ t) ∙ ap (prepend "-f") (append-prepend " " t))

  scan-rm : scan gap [] ("rm " +++ t) ≡ emit (word "rm") (scan gap [] t)
  unfolding scan
  scan-rm = ap (scan gap []) (append-prepend "rm " t)

-- Whatever the two paths hold, a shell runs a rename as `mv` with exactly the two paths as its words.
pub tokens-rename_command :
    (old_path new_path : String)
    → tokens (rename_command old_path new_path)
      ≡ some (word "mv" ∷ᴸ word old_path ∷ᴸ word new_path ∷ᴸ []ᴸ)
unfolding tokens rename_command
tokens-rename_command old_path new_path =
    scan-mv (shell_escape old_path +++ (" " +++ shell_escape new_path))
    ∙ ap (emit (word "mv")) (
        scan-more old_path (shell_escape new_path) ∙ ap (emit (word old_path)) (scan-last new_path))

-- Whatever the path holds, a shell runs a deletion as `rm` with the flag and the path as its words.
pub tokens-delete_command :
    (path : String) (recursive : Bool)
    → tokens (delete_command path recursive)
      ≡ some (word "rm" ∷ᴸ word (flag recursive) ∷ᴸ word path ∷ᴸ []ᴸ)
unfolding tokens delete_command
tokens-delete_command path recursive =
    scan-rm (flag recursive +++ " " +++ shell_escape path)
    ∙ ap (emit (word "rm")) (scan-flag (shell_escape path) recursive)
    ∙ ap (λ o. emit (word "rm") (emit (word (flag recursive)) o)) (scan-last path)
