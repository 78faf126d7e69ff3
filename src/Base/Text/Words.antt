-- ===== src/Base/Text/Words.antt =====
-- Lines and words: what Rust's `lines`, `split_whitespace`, `join` and `trim_end_matches` do.
use Prim.Native.Char.{Char, code}
use Prim.Native.String.{String, [], ◌∷◌}
use mathlib.Core.List.{List, [] as []ᴸ, ◌∷◌ as ◌∷ᴸ◌}
use mathlib.Core.Bool.{Bool, true, false, ◌&&◌}
use mathlib.Core.Path.{◌≡◌, refl, ap, ◌∙◌, sym}
use mathlib.Core.Logic.{inl, inr}
use Prim.Native.Nat.{ℕ}
use text.Mathlib.TextLemmas.{nil-append, cons-append, append-nil, append_assoc}
use oxydactylus.Base.Tests.{◌==◌, if◌then◌else◌, Bool-cases}
use oxydactylus.Base.Text.{◌+++◌, push, split, is_empty, is_whitespace}
use oxydactylus.Base.Text.Laws.{append-prepend}

abbrev pub join : String → List String → String
join sep []ᴸ = []
join sep (s ∷ᴸ []ᴸ) = s
join sep (s ∷ᴸ t ∷ᴸ rest) = s +++ sep +++ join sep (t ∷ᴸ rest)

-- A line's end may have a carriage return before it.
unfoldable pub strip_return : String → String
strip_return [] = []
strip_return (c ∷ s) = if is_empty s && code c == 13 then [] else c ∷ strip_return s

abbrev without_last : List String → List String
without_last []ᴸ = []ᴸ
without_last (s ∷ᴸ []ᴸ) = if is_empty s then []ᴸ else s ∷ᴸ []ᴸ
without_last (s ∷ᴸ t ∷ᴸ rest) = strip_return s ∷ᴸ without_last (t ∷ᴸ rest)

-- `lines`: what stands behind the last line end is a line unless it is empty.
unfoldable pub lines : String → List String
lines s = without_last (split 10 s)

abbrev flush : String → List String → List String
flush acc rest = if is_empty acc then rest else acc ∷ᴸ rest

unfoldable pub words_from : String → String → List String
words_from acc [] = flush acc []ᴸ
words_from acc (c ∷ s) = elim (is_whitespace (code c)) [
  | true ↦ flush acc (words_from [] s)
  | false ↦ words_from (push acc c) s
]

unfoldable pub split_whitespace : String → List String
unfolding words_from
split_whitespace s = words_from [] s

-- `trim_end_matches`, on a character
keep_unless : ℕ → Char → String → String
keep_unless sep c [] = if code c == sep then [] else c ∷ []
keep_unless sep c (d ∷ s) = c ∷ d ∷ s

unfoldable pub trim_end_char : ℕ → String → String
unfolding keep_unless
trim_end_char sep [] = []
trim_end_char sep (c ∷ s) = keep_unless sep c (trim_end_char sep s)

-- A word: it has a character, and no blank.
unfoldable pub is_solid : String → Bool
is_solid [] = true
is_solid (c ∷ s) = elim (is_whitespace (code c)) [ true ↦ false | false ↦ is_solid s ]

abbrev pub IsWord : String → Type 0
IsWord s = (is_empty s ≡ false) × (is_solid s ≡ true)

abbrev pub AreWords : List String → Type 0
AreWords []ᴸ = Unit
AreWords (s ∷ᴸ rest) = IsWord s × AreWords rest

push-append : (acc : String) (c : Char) (s : String) → push acc c +++ s ≡ acc +++ (c ∷ s)
push-append acc c s =
    append_assoc acc (c ∷ []) s
    ∙ ap (λ t. acc +++ t) (cons-append c [] s ∙ ap (λ t. c ∷ t) (nil-append s))

words_from-append :
    (acc w rest : String)
    → is_solid w ≡ true
    → words_from acc (w +++ rest) ≡ words_from (acc +++ w) rest
unfolding words_from is_solid
words_from-append acc [] rest h = rw (nil-append, append-nil) refl
words_from-append acc (c ∷ w) rest h = elim (Bool-cases (is_whitespace (code c))) [
  | inl e ↦ let failed = rw (is_solid, e) at h in cc
  | inr e ↦
      ap (words_from acc) (cons-append c w rest)
      ∙ rw (words_from, e)
          (words_from-append (push acc c) w rest (rw (is_solid, e) at h)
            ∙ ap (λ t. words_from t rest) (push-append acc c w))
]

flush_word : (w : String) (rest : List String) → is_empty w ≡ false → flush w rest ≡ w ∷ᴸ rest
flush_word w rest h = rw h refl

-- Words that are joined by blanks are split again as they were.
pub split_whitespace-join : (ws : List String) → AreWords ws → split_whitespace (join " " ws) ≡ ws
unfolding split_whitespace is_whitespace
split_whitespace-join []ᴸ h = refl
split_whitespace-join (w ∷ᴸ []ᴸ) ((filled, solid), _) =
    ap (words_from []) (sym (append-nil w))
    ∙ words_from-append [] w [] solid
    ∙ ap (λ t. words_from t []) (nil-append w)
    ∙ flush_word w []ᴸ filled
split_whitespace-join (w ∷ᴸ v ∷ᴸ ws) ((filled, solid), later) =
    words_from-append [] w (" " +++ join " " (v ∷ᴸ ws)) solid
    ∙ ap (λ t. words_from t (" " +++ join " " (v ∷ᴸ ws))) (nil-append w)
    ∙ ap (words_from w) (append-prepend " " (join " " (v ∷ᴸ ws)))
    ∙ flush_word w (words_from [] (join " " (v ∷ᴸ ws))) filled
    ∙ ap (λ us. w ∷ᴸ us) (split_whitespace-join (v ∷ᴸ ws) later)
