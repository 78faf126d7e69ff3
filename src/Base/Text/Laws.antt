-- ===== src/Base/Text/Laws.antt =====
-- Laws of the operations on texts.
use Prim.Native.String.{String, [], ◌∷◌}
use mathlib.Core.Path.{◌≡◌, refl, ap, ◌∙◌}
use text.Mathlib.TextLemmas.{nil-append, cons-append}
use Prim.Native.Char.{Char, code}
use mathlib.Core.Option.{some}
use Prim.Native.Nat.{ℕ}
use mathlib.Core.Bool.{true, false}
use mathlib.Core.Logic.{inl, inr}
use native.Mathlib.Omega.{arith}
use oxydactylus.Base.Tests.{==_refl, ◌==◌, Bool-cases}
use oxydactylus.Base.Text.{◌+++◌, strip_prefix, split_once, contains_char}

-- Appending character by character, which computes where the first text is a literal.
abbrev pub prepend : String → String → String
prepend [] t = t
prepend (c ∷ s) t = c ∷ prepend s t

pub append-prepend : (s t : String) → s +++ t ≡ prepend s t
append-prepend [] t = nil-append t
append-prepend (c ∷ s) t = cons-append c s t ∙ ap (λ u. c ∷ u) (append-prepend s t)

pub strip_prefix-append : (p s : String) → strip_prefix p (p +++ s) ≡ some s
unfolding strip_prefix
strip_prefix-append p s = rw append-prepend (strip_prefix-prepend p s)
  where
    strip_prefix-prepend : (p s : String) → strip_prefix p (prepend p s) ≡ some s
    strip_prefix-prepend [] s = refl
    strip_prefix-prepend (c ∷ p) s = rw (==_refl (code c)) (strip_prefix-prepend p s)

-- A text with two separators is split at the first of them, and the second is in the rest.
module _ (sep : ℕ) where
  contains_char-prepend :
      (s t : String) → contains_char sep t ≡ true → contains_char sep (prepend s t) ≡ true
  unfolding contains_char
  contains_char-prepend [] t h = h
  contains_char-prepend (c ∷ s) t h = ground (arith, contains_char-prepend s t h)

  contains_char-prepend_first :
      (s t : String) → contains_char sep s ≡ true → contains_char sep (prepend s t) ≡ true
  unfolding contains_char
  contains_char-prepend_first [] t h = cc
  contains_char-prepend_first (c ∷ s) t h = elim (Bool-cases (code c == sep)) [
    | inl e ↦ rw e refl
    | inr e ↦ rw e (contains_char-prepend_first s t (ground arith))
  ]

  split_once-prepend :
      (s t : String)
      → contains_char sep s ≡ true
      → contains_char sep t ≡ true
      → (first rest : String) × (split_once sep (prepend s t) ≡ some (first, rest))
        × (contains_char sep rest ≡ true)
  unfolding split_once contains_char
  split_once-prepend [] t h h' = cc
  split_once-prepend (c ∷ s) t h h' = elim (Bool-cases (code c == sep)) [
    | inl e ↦ ([], prepend s t, rw e refl, contains_char-prepend s t h')
    | inr e ↦
        let (first, rest, split, there) = split_once-prepend s t (ground arith) h' in
        (c ∷ first, rest, rw (e, split) refl, there)
  ]

  pub split_once-twice :
      (s t u : String)
      → contains_char sep s ≡ true
      → contains_char sep t ≡ true
      → (first rest : String) × (split_once sep (s +++ t +++ u) ≡ some (first, rest))
        × (contains_char sep rest ≡ true)
  split_once-twice s t u h h' =
      rw (append-prepend s (t +++ u), append-prepend t u)
        (split_once-prepend s (prepend t u) h (contains_char-prepend_first t u h'))

-- A text without the separator, and the separator, are split there.
pub split_once-prepend_first :
    (sep : ℕ) (s t : String) (c : Char)
    → contains_char sep s ≡ false
    → (code c == sep) ≡ true
    → split_once sep (prepend s (c ∷ t)) ≡ some (s, t)
unfolding split_once contains_char
split_once-prepend_first sep [] t c free is = rw is refl
split_once-prepend_first sep (d ∷ s) t c free is = elim (Bool-cases (code d == sep)) [
  | inl e ↦ ground arith
  | inr e ↦ rw (e, split_once-prepend_first sep s t c (ground arith) is) refl
]
