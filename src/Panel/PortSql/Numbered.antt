-- ===== src/Panel/PortSql/Numbered.antt =====
-- What MySQL makes of a statement that crates/panel/src/db.rs has rewritten: its placeholders take
-- the values in the order in which they stand, where those of the source are numbered.
use Prim.Native.Char.{Char, char, code}
use Prim.Native.String.{[] as []ˢ, ◌∷◌ as ◌∷ˢ◌}
use mathlib.Core.Option as Option
use oxydactylus.Base.{
  ℕ, zero, suc, ◌<◌, ◌≤◌, String, Bool, true, false, ◌==◌, Option, none, some, List, [], ◌∷◌, ◌⊎◌,
  inl, inr, ◌≡◌, refl, ◌∙◌, ap, length, drop, if◌then◌else◌, arith,
}
use oxydactylus.Base.Text.Laws.{prepend}
use oxydactylus.Panel.PortSql.{begins_decimal, replace_all, port_sql}

-- A statement: texts, and placeholders, of which the first has the number 0 here and 1 in the text.
pub data Piece : Type 0 where
  text : String → Piece
  placeholder : ℕ → Piece

-- A statement with its values: characters and values.
abbrev pub Filled : Type 0 → Type 0
Filled A = List (Char ⊎ A)

abbrev with_chars : {A : Type 0} → String → Option (Filled A) → Option (Filled A)
with_chars []ˢ o = o
with_chars (c ∷ˢ s) o = Option.map (◌∷◌ (inl c)) (with_chars s o)

abbrev pub nth : {A : Type 0} → ℕ → List A → Option A
nth n [] = none
nth zero (a ∷ rest) = some a
nth (suc n) (a ∷ rest) = nth n rest

abbrev with_value : {A : Type 0} → Option A → Option (Filled A) → Option (Filled A)
with_value none o = none
with_value (some a) o = Option.map (◌∷◌ (inr a)) o

-- What the other databases run: each placeholder stands for the value with its number.
abbrev pub numbered : {A : Type 0} → List A → List Piece → Option (Filled A)
numbered values [] = some []
numbered values (text s ∷ rest) = with_chars s (numbered values rest)
numbered values (placeholder n ∷ rest) = with_value (nth n values) (numbered values rest)

-- What MySQL runs: each question mark takes the next value, and there are as many as values.
abbrev next_value : {A : Type 0} → (List A → Option (Filled A)) → List A → Option (Filled A)
next_value rest [] = none
next_value rest (a ∷ values) = Option.map (◌∷◌ (inr a)) (rest values)

abbrev all_used : {A : Type 0} → List A → Option (Filled A)
all_used [] = some []
all_used (a ∷ values) = none

unfoldable pub positional : {A : Type 0} → String → List A → Option (Filled A)
positional []ˢ values = all_used values
positional (c ∷ˢ s) values =
    let rest = positional s in
    if code c == b'?' then next_value rest values else Option.map (◌∷◌ (inl c)) (rest values)

-- Neither `$` nor `?` stands in a text.
abbrev pub IsPlain : String → Type 0
IsPlain []ˢ = Unit
IsPlain (c ∷ˢ s) = ((code c == b'$') ≡ false) × ((code c == b'?') ≡ false) × IsPlain s

-- The placeholders are numbered in the order in which they stand, from `k` to before `total`.
abbrev pub AreInOrder : ℕ → ℕ → List Piece → Type 0
AreInOrder total k [] = k ≡ total
AreInOrder total k (text s ∷ rest) = AreInOrder total k rest
AreInOrder total k (placeholder n ∷ rest) = (n ≡ k) × AreInOrder total (suc k) rest

in_order_le : (total k : ℕ) (ps : List Piece) → AreInOrder total k ps → k ≤ total
in_order_le total k [] e = omega arith
in_order_le total k (text s ∷ rest) h = in_order_le total k rest h
in_order_le total k (placeholder n ∷ rest) (e, h) =
    let later : suc k ≤ total = in_order_le total (suc k) rest h in omega arith

nth-drop :
    {A : Type 0} (values : List A) (k : ℕ)
    → k < length values
    → (a : A) × (nth k values ≡ some a) × (drop k values ≡ a ∷ drop (suc k) values)
unfolding drop
nth-drop [] k h = absurd (omega arith)
nth-drop (a ∷ values) zero h = (a, refl, refl)
nth-drop (a ∷ values) (suc k) h = nth-drop values k (omega arith)

drop-length : {A : Type 0} (values : List A) → drop (length values) values ≡ []
unfolding drop
drop-length [] = refl
drop-length (a ∷ values) = drop-length values

-- What is left of a statement for MySQL.
abbrev marked : List Piece → String
marked [] = []ˢ
marked (text s ∷ rest) = prepend s (marked rest)
marked (placeholder n ∷ rest) = char b'?' tt ∷ˢ marked rest

module _ (is_decimal : Char → Bool) (number_text : ℕ → String) where
  abbrev pub render : List Piece → String
  render [] = []ˢ
  render (text s ∷ rest) = prepend s (render rest)
  render (placeholder n ∷ rest) = char b'$' tt ∷ˢ prepend (number_text (suc n)) (render rest)

  abbrev pub AreDecimal : String → Type 0
  AreDecimal []ˢ = Unit
  AreDecimal (c ∷ˢ s) = (is_decimal c ≡ true) × AreDecimal s

  -- The text of a number is a digit and further digits.
  pub record AreNumbers : Type 0 where
    pub first_digit : ℕ → Char
    pub other_digits : ℕ → String
    pub digits :
        (n : ℕ)
        → (number_text n ≡ first_digit n ∷ˢ other_digits n)
          × AreDecimal (first_digit n ∷ˢ other_digits n)

  -- The texts of a statement are plain, and what follows a placeholder is no digit.
  abbrev pub IsStatement : List Piece → Type 0
  IsStatement [] = Unit
  IsStatement (text s ∷ rest) = IsPlain s × IsStatement rest
  IsStatement (placeholder n ∷ rest) =
      (begins_decimal is_decimal (render rest) ≡ false) × IsStatement rest

  replace_all-prepend :
      (s t : String)
      → IsPlain s
      → replace_all is_decimal false (prepend s t) ≡ prepend s (replace_all is_decimal false t)
  unfolding replace_all
  replace_all-prepend []ˢ t h = refl
  replace_all-prepend (c ∷ˢ s) t (dollar, mark, h) = rw (dollar, replace_all-prepend s t h) refl

  replace_all-digits :
      (s t : String)
      → AreDecimal s
      → replace_all is_decimal true (prepend s t) ≡ replace_all is_decimal true t
  unfolding replace_all
  replace_all-digits []ˢ t h = refl
  replace_all-digits (c ∷ˢ s) t (digit, h) = rw digit (replace_all-digits s t h)

  replace_all_outside :
      (t : String)
      → begins_decimal is_decimal t ≡ false
      → replace_all is_decimal true t ≡ replace_all is_decimal false t
  unfolding replace_all
  replace_all_outside []ˢ h = refl
  replace_all_outside (c ∷ˢ s) h = rw h refl

  module _ (numbers : AreNumbers) where
    replace_all-render :
        (ps : List Piece) → IsStatement ps → replace_all is_decimal false (render ps) ≡ marked ps
    unfolding replace_all
    replace_all-render [] h = refl
    replace_all-render (text s ∷ rest) (plain, h) =
        replace_all-prepend s (render rest) plain ∙ ap (prepend s) (replace_all-render rest h)
    replace_all-render (placeholder n ∷ rest) (behind, h) =
        let (number, are) = numbers.digits (suc n) in
        rw (number, are.0)
          (ap (λ t. char b'?' tt ∷ˢ t)
            (replace_all-digits (numbers.other_digits (suc n)) (render rest) are.1
              ∙ replace_all_outside (render rest) behind
              ∙ replace_all-render rest h))

  module _ {A : Type 0} (values : List A) where
    positional-prepend :
        (s t : String) (vs : List A)
        → IsPlain s
        → positional (prepend s t) vs ≡ with_chars s (positional t vs)
    unfolding positional
    positional-prepend []ˢ t vs h = refl
    positional-prepend (c ∷ˢ s) t vs (dollar, mark, h) = rw (mark, positional-prepend s t vs h) refl

    positional-marked :
        (k : ℕ) (ps : List Piece)
        → IsStatement ps
        → AreInOrder (length values) k ps
        → positional (marked ps) (drop k values) ≡ numbered values ps
    unfolding positional
    positional-marked k [] h e = ap all_used (ap (λ n. drop n values) e ∙ drop-length values)
    positional-marked k (text s ∷ rest) (plain, h) order =
        positional-prepend s (marked rest) (drop k values) plain
        ∙ ap (with_chars s) (positional-marked k rest h order)
    positional-marked k (placeholder n ∷ rest) (behind, h) (e, order) =
        let (a, here, split) = nth-drop values k (in_order_le (length values) (suc k) rest order) in
        rw (e, here, split) (ap (Option.map (◌∷◌ (inr a))) (positional-marked (suc k) rest h order))

    -- If the placeholders of a statement are numbered in the order in which they stand and there are
    -- as many as values, then MySQL, which gives the values out in that order, runs of the
    -- rewritten statement what the other databases run of the statement itself.
    pub positional-port_sql :
        (ps : List Piece)
        → AreNumbers
        → IsStatement ps
        → AreInOrder (length values) 0 ps
        → positional (port_sql is_decimal (render ps) "MySQL") values ≡ numbered values ps
    unfolding port_sql drop
    positional-port_sql ps numbers statement order =
        ap (λ t. positional t values) (replace_all-render numbers ps statement)
        ∙ positional-marked 0 ps statement order
