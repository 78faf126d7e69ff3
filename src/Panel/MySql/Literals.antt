-- ===== src/Panel/MySql/Literals.antt =====
-- How MySQL reads a string literal, and that the escaped texts of
-- crates/panel/src/server_databases.rs read back as they were.
use Prim.Native.Char.{Char, char, code}
use Prim.Native.String.{[], ◌∷◌}
use text.Mathlib.TextLemmas.{nil-append, cons-append}
use text.Mathlib.TextEquality.{Char-path}
use oxydactylus.Base.{
  String, ◌≡◌, refl, sym, ◌∙◌, ap, inl, inr, Bool, true, false, Option, none, some, Bool-cases,
  ◌==◌, ==_iff, if◌then◌else◌,
}
use oxydactylus.Base.Text.{◌+++◌, replace_char}
use oxydactylus.Base.Text.Laws.{append-prepend}
use oxydactylus.Panel.MySql.{escape_mysql_string}

-- What a character after a backslash stands for; `none` for the letters that MySQL reads as
-- control characters or as wildcards.
abbrev pub escaped : Char → Option Char
escaped c = if code c == 39 then some c else if code c == 92 then some c else none

abbrev pub also : Option Char → Option (String × String) → Option (String × String)
also none r = none
also (some c) none = none
also (some c) (some (s, rest)) = some (c ∷ s, rest)

-- The rest of a literal in single quotes, after the opening one (the flag says that a backslash was
-- read): what it stands for, and the text behind the closing quote. (Two quotes in a row are read
-- as the end of the literal, and the second one is left over.)
unfoldable pub read_literal : Bool → String → Option (String × String)
read_literal _ [] = none
read_literal true (c ∷ s) = also (escaped c) (read_literal false s)
read_literal false (c ∷ s) = elim (code c == 92) [
  | true ↦ read_literal true s
  | false ↦ elim (code c == 39) [
    | true ↦ some ([], s)
    | false ↦ also (some c) (read_literal false s)
  ]
]

escape-backslash :
    (s : String)
    → escape_mysql_string (char 92 tt ∷ s) ≡ char 92 tt ∷ char 92 tt ∷ escape_mysql_string s
unfolding escape_mysql_string replace_char
escape-backslash s = ap (replace_char 39 "\\'") (append-prepend "\\\\" (replace_char 92 "\\\\" s))

escape-quote :
    (s : String)
    → escape_mysql_string (char 39 tt ∷ s) ≡ char 92 tt ∷ char 39 tt ∷ escape_mysql_string s
unfolding escape_mysql_string replace_char
escape-quote s = append-prepend "\\'" (replace_char 39 "\\'" (replace_char 92 "\\\\" s))

escape-plain :
    (c : Char) (s : String)
    → (code c == 92) ≡ false
    → (code c == 39) ≡ false
    → escape_mysql_string (c ∷ s) ≡ c ∷ escape_mysql_string s
unfolding escape_mysql_string replace_char
escape-plain c s e e' = rw (e, replace_char, e') refl

-- The character of an escape, and the text behind it.
read-escape :
    (c : Char) (s t rest : String)
    → escaped c ≡ some c
    → read_literal false (t +++ ("'" +++ rest)) ≡ some (s, rest)
    → read_literal false ((char 92 tt ∷ c ∷ t) +++ ("'" +++ rest)) ≡ some (c ∷ s, rest)
unfolding read_literal
read-escape c s t rest e h =
    ap (read_literal false) (
      cons-append (char 92 tt) (c ∷ t) ("'" +++ rest)
      ∙ ap (λ u. char 92 tt ∷ u) (cons-append c t ("'" +++ rest)))
    ∙ ap (λ o. also o (read_literal false (t +++ ("'" +++ rest)))) e
    ∙ ap (also (some c)) h

-- A text that was escaped and quoted is read back by MySQL as it was, whatever it holds, and the
-- literal ends where the text behind it begins.
pub read_literal-escape_mysql_string :
    (s rest : String)
    → read_literal false (escape_mysql_string s +++ ("'" +++ rest)) ≡ some (s, rest)
unfolding read_literal escape_mysql_string replace_char
read_literal-escape_mysql_string [] rest = rw (nil-append, cons-append, nil-append) refl
read_literal-escape_mysql_string (c ∷ s) rest =
    let later = read_literal-escape_mysql_string s rest in
    elim (Bool-cases (code c == 92)) [
      | inl e ↦
          let same : c ≡ char 92 tt = Char-path c (char 92 tt) ((==_iff (code c) 92).0 e) in
          ap (λ d. read_literal false (escape_mysql_string (d ∷ s) +++ ("'" +++ rest))) same
          ∙ ap (λ t. read_literal false (t +++ ("'" +++ rest))) (escape-backslash s)
          ∙ read-escape (char 92 tt) s (escape_mysql_string s) rest refl later
          ∙ ap (λ d. some (d ∷ s, rest)) (sym same)
      | inr e ↦ elim (Bool-cases (code c == 39)) [
        | inl e' ↦
            let same : c ≡ char 39 tt = Char-path c (char 39 tt) ((==_iff (code c) 39).0 e') in
            ap (λ d. read_literal false (escape_mysql_string (d ∷ s) +++ ("'" +++ rest))) same
            ∙ ap (λ t. read_literal false (t +++ ("'" +++ rest))) (escape-quote s)
            ∙ read-escape (char 39 tt) s (escape_mysql_string s) rest refl later
            ∙ ap (λ d. some (d ∷ s, rest)) (sym same)
        | inr e' ↦
            ap (λ t. read_literal false (t +++ ("'" +++ rest))) (escape-plain c s e e')
            ∙ ap (read_literal false) (cons-append c (escape_mysql_string s) ("'" +++ rest))
            ∙ read-plain c (escape_mysql_string s +++ ("'" +++ rest)) e e'
            ∙ ap (also (some c)) later
      ]
    ]
  where
    read-plain :
        (c : Char) (t : String)
        → (code c == 92) ≡ false
        → (code c == 39) ≡ false
        → read_literal false (c ∷ t) ≡ also (some c) (read_literal false t)
    read-plain c t e e' = rw (e, read_literal, e') refl
