-- ===== src/Node/Files/Listing.antt =====
-- What `list_files` of crates/node/src/files.rs reads from the output of `ls`.
use Prim.Native.String.{[] as []ˢ, ◌∷◌ as ◌∷ˢ◌}
use Prim.Native.Char.{code}
use oxydactylus.Base.{String, Bool, false, ◌==◌, Option, none, some, List, [], ◌∷◌, drop}
use oxydactylus.Base.Int.{ℤ, pos}
use oxydactylus.Base.Text.{◌+++◌, parse_i64}
use oxydactylus.Base.Text.Words.{join, lines, split_whitespace, trim_end_char}

pub record FileEntry : Type 0 where
  pub name : String
  pub path : String
  pub is_dir : Bool
  pub size_bytes : ℤ
  pub mode : String

abbrev starts_with_d : String → Bool
starts_with_d []ˢ = false
starts_with_d (c ∷ˢ s) = code c == b'd'

abbrev or_zero : Option ℤ → ℤ
or_zero none = pos 0
or_zero (some n) = n

-- `parts[8..].join(" ")` if there are more than eight, `parts[7]` if there are eight.
abbrev name_of : String → List String → String
name_of seventh [] = seventh
name_of seventh (p ∷ rest) = join " " (p ∷ rest)

-- A line with fewer parts is passed over.
abbrev parsed : String → String → List String → Option FileEntry
parsed path line (mode ∷ _ ∷ _ ∷ _ ∷ size ∷ _ ∷ _ ∷ seventh ∷ more) = some record {
  name = name_of seventh more;
  path = trim_end_char b'/' path +++ "/" +++ name_of seventh more;
  is_dir = starts_with_d line;
  size_bytes = or_zero (parse_i64 size);
  mode = mode;
}
parsed path line _ = none

unfoldable pub entry_of_line : String → String → Option FileEntry
entry_of_line path line = parsed path line (split_whitespace line)

abbrev add_entry : Option FileEntry → List FileEntry → List FileEntry
add_entry none rest = rest
add_entry (some e) rest = e ∷ rest

unfoldable pub entries_of_lines : String → List String → List FileEntry
entries_of_lines path [] = []
entries_of_lines path (line ∷ rest) =
    add_entry (entry_of_line path line) (entries_of_lines path rest)

-- The loop over `output.lines().skip(1)`.
unfoldable pub entries_of : String → String → List FileEntry
entries_of path output = entries_of_lines path (drop 1 (lines output))

-- `ls` writes `d` before the rights of a directory.
abbrev is_directory : String → Bool
is_directory []ˢ = false
is_directory (c ∷ˢ s) = code c == 100

-- An entry with a name, found under a path: the type is told by the first letter of the mode.
abbrev named : String → String → String → String → FileEntry
named path mode size name = record {
  name = name;
  path = trim_end_char b'/' path +++ "/" +++ name;
  is_dir = is_directory mode;
  size_bytes = elim (parse_i64 size) [ none ↦ pos 0 | some n ↦ n ];
  mode = mode;
}

-- What a line of words lists: nothing if they are fewer than eight; the eighth as the name if there
-- is no other behind it; and the words behind the eighth, joined by blanks, if there are any.
abbrev pub listed : String → List String → Option FileEntry
listed path (mode ∷ _ ∷ _ ∷ _ ∷ size ∷ _ ∷ _ ∷ word ∷ []) = some (named path mode size word)
listed path (mode ∷ _ ∷ _ ∷ _ ∷ size ∷ _ ∷ _ ∷ lost ∷ word ∷ more) =
    some (named path mode size (join " " (word ∷ more)))
listed path _ = none
