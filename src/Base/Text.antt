-- ===== src/Base/Text.antt =====
-- What Rust's `str` does, over the code points of native texts.
pub mod Laws
pub mod Words
use Prim.Native.Nat.{ℕ, zero, suc, ◌+◌, ◌-◌, ◌*◌, ◌^◌}
use Prim.Native.Char.{Char, code}
use Prim.Native.String
use Prim.Native.String.{String, [], ◌∷◌}
use mathlib.Core.Bool.{Bool, true, false, ◌&&◌, ◌||◌}
use mathlib.Core.Option
use mathlib.Core.Option.{Option, none, some}
use mathlib.Core.List
use mathlib.Core.List.{List}
use oxydactylus.Base.Tests.{◌==◌, leb, if◌then◌else◌}
use oxydactylus.Base.Int.{ℤ, pos, negsuc}

infixr 65 ◌+++◌
abbrev pub ◌+++◌ : String → String → String
s +++ t = String.◌++◌ s t

abbrev pub push : String → Char → String
push s c = s +++ (c ∷ [])

-- `format!` on texts
abbrev pub concat : List String → String
concat List.[] = []
concat (List.◌∷◌ s rest) = s +++ concat rest

-- `split_once`, on a character
unfoldable pub split_once : ℕ → String → Option (String × String)
split_once sep [] = none
split_once sep (c ∷ s) =
    if code c == sep then some ([], s) else Option.map (λ p. (c ∷ p.0, p.1)) (split_once sep s)

unfoldable pub strip_prefix : String → String → Option String
strip_prefix [] s = some s
strip_prefix (p ∷ ps) [] = none
strip_prefix (p ∷ ps) (c ∷ s) = if code c == code p then strip_prefix ps s else none

-- `contains`, on a character
unfoldable pub contains_char : ℕ → String → Bool
contains_char sep [] = false
contains_char sep (c ∷ s) = code c == sep || contains_char sep s

-- `char::is_whitespace`
unfoldable pub is_whitespace : ℕ → Bool
is_whitespace c =
    (leb 9 c && leb c 13)
    || c == 32
    || c == 133
    || c == 160
    || c == 5760
    || (leb 8192 c && leb c 8202)
    || c == 8232
    || c == 8233
    || c == 8239
    || c == 8287
    || c == 12288

unfoldable pub trim_start : String → String
unfolding is_whitespace
trim_start [] = []
trim_start (c ∷ s) = if is_whitespace (code c) then trim_start s else c ∷ s

-- Whitespace at the end goes: a blank is kept only before what is kept.
keep_blank : Char → String → String
keep_blank c [] = if is_whitespace (code c) then [] else c ∷ []
keep_blank c (d ∷ s) = c ∷ d ∷ s

unfoldable pub trim_end : String → String
unfolding keep_blank is_whitespace
trim_end [] = []
trim_end (c ∷ s) = keep_blank c (trim_end s)

unfoldable pub trim : String → String
unfolding trim_start trim_end
trim s = trim_end (trim_start s)

abbrev pub is_digit : ℕ → Bool
is_digit c = leb 48 c && leb c 57

digits_from : ℕ → String → Option ℕ
digits_from n [] = some n
digits_from n (c ∷ s) = if is_digit (code c) then digits_from (n * 10 + (code c - 48)) s else none

parse_digits : String → Option ℕ
parse_digits [] = none
parse_digits (c ∷ s) = digits_from 0 (c ∷ s)

abbrev negate : ℕ → ℤ
negate zero = pos 0
negate (suc n) = negsuc n

-- Values from `- bound` to `bound - 1`.
abbrev in_range : ℕ → ℤ → Bool
in_range bound (pos n) = leb (suc n) bound
in_range bound (negsuc n) = leb (suc n) bound

abbrev ranged : ℕ → Option ℤ → Option ℤ
ranged bound none = none
ranged bound (some z) = if in_range bound z then some z else none

signed : String → Option ℤ
signed [] = none
signed (c ∷ s) =
    if code c == b'-'
    then Option.map negate (parse_digits s)
    else if code c == b'+'
    then Option.map pos (parse_digits s)
    else Option.map pos (parse_digits (c ∷ s))

-- `str::parse::<i32>` and `str::parse::<i64>`
unfoldable pub parse_i32 : String → Option ℤ
unfolding signed parse_digits digits_from
parse_i32 s = ranged (2 ^ 31) (signed s)

unfoldable pub parse_i64 : String → Option ℤ
unfolding signed parse_digits digits_from
parse_i64 s = ranged (2 ^ 63) (signed s)

unsigned : String → Option ℕ
unsigned [] = none
unsigned (c ∷ s) = if code c == b'+' then parse_digits s else parse_digits (c ∷ s)

-- `str::parse::<usize>`, on a machine of 64 bits
unfoldable pub parse_usize : String → Option ℕ
unfolding unsigned parse_digits digits_from
parse_usize s = elim (unsigned s) [
  | none ↦ none
  | some n ↦ if leb (suc n) (2 ^ 64) then some n else none
]

-- `split(sep).collect()`, on a character
prepend_first : Char → List String → List String
prepend_first c List.[] = List.◌∷◌ (c ∷ []) List.[]
prepend_first c (List.◌∷◌ p ps) = List.◌∷◌ (c ∷ p) ps

unfoldable pub split : ℕ → String → List String
unfolding prepend_first
split sep [] = List.◌∷◌ [] List.[]
split sep (c ∷ s) =
    let rest = split sep s in if code c == sep then List.◌∷◌ [] rest else prepend_first c rest

abbrev pub is_empty : String → Bool
is_empty [] = true
is_empty (_ ∷ _) = false

-- `chars().all(…)` on code points
unfoldable pub all_chars : (ℕ → Bool) → String → Bool
all_chars p [] = true
all_chars p (c ∷ s) = p (code c) && all_chars p s

-- `char::is_ascii_alphanumeric`
abbrev pub is_ascii_alphanumeric : ℕ → Bool
is_ascii_alphanumeric c =
    (leb b'0' c && leb c b'9') || (leb b'A' c && leb c b'Z') || (leb b'a' c && leb c b'z')

-- `replace` of one character by a text
unfoldable pub replace_char : ℕ → String → String → String
replace_char from to [] = []
replace_char from to (c ∷ s) =
    let rest = replace_char from to s in if code c == from then to +++ rest else c ∷ rest
