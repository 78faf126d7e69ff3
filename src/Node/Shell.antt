-- ===== src/Node/Shell.antt =====
-- How a POSIX shell splits a command into words and operators. Unquoted characters that a shell
-- would expand make the reader give up.
pub mod Quoting
pub mod Redirects
pub mod Commands
mod Examples
use Prim.Native.Char.{Char, code}
use Prim.Native.String.{[], ◌∷◌}
use mathlib.Core.Option
use mathlib.Core.List
use oxydactylus.Base.{
  ℕ, String, Bool, true, false, ◌||◌, Option, none, some, List, ◌==◌, if◌then◌else◌,
}
use oxydactylus.Base.Text.{push}

pub data Token : Type 0 where
  word : String → Token
  operator : ℕ → Token

pub data Mode : Type 0 where
  gap in_word quoted escaped : Mode

pub data Class : Type 0 where
  blank oper quote backslash expanding plain : Class

-- The classes of the characters outside quotes: `|&;<>()` and the line end are operators, and
-- the quotation mark, `$`, the grave accent, `*`, `?`, `[`, `#` and `~` start expansions.
abbrev pub classify : ℕ → Class
classify c =
    if c == 32 || c == 9
    then blank
    else if c == b'|'
        || c == b'&'
        || c == b';'
        || c == b'<'
        || c == b'>'
        || c == b'('
        || c == b')'
        || c == 10
    then oper
    else if c == 39
    then quote
    else if c == 92
    then backslash
    else if c == 34
        || c == b'$'
        || c == 96
        || c == b'*'
        || c == b'?'
        || c == b'['
        || c == b'#'
        || c == b'~'
    then expanding
    else plain

abbrev emit : Token → Option (List Token) → Option (List Token)
emit t = Option.map (List.◌∷◌ t)

-- The rest of a command, with the word that was begun.
unfoldable pub scan : Mode → String → String → Option (List Token)
scan gap acc [] = some List.[]
scan gap acc (c ∷ s) = elim (classify (code c)) [
  | blank ↦ scan gap [] s
  | oper ↦ emit (operator (code c)) (scan gap [] s)
  | quote ↦ scan quoted [] s
  | backslash ↦ scan escaped [] s
  | expanding ↦ none
  | plain ↦ scan in_word (c ∷ []) s
]
scan in_word acc [] = some (List.◌∷◌ (word acc) List.[])
scan in_word acc (c ∷ s) = elim (classify (code c)) [
  | blank ↦ emit (word acc) (scan gap [] s)
  | oper ↦ emit (word acc) (emit (operator (code c)) (scan gap [] s))
  | quote ↦ scan quoted acc s
  | backslash ↦ scan escaped acc s
  | expanding ↦ none
  | plain ↦ scan in_word (push acc c) s
]
scan quoted acc [] = none
scan quoted acc (c ∷ s) = elim (code c == 39) [
  | true ↦ scan in_word acc s
  | false ↦ scan quoted (push acc c) s
]
scan escaped acc [] = none
scan escaped acc (c ∷ s) = scan in_word (push acc c) s

unfoldable pub tokens : String → Option (List Token)
unfolding scan
tokens s = scan gap [] s
