-- ===== src/Panel/PortSql/Examples.antt =====
-- A statement with two placeholders, and numbers written in ones.
use Prim.Native.Char.{Char, char, code}
use Prim.Native.String.{[] as []ˢ, ◌∷◌ as ◌∷ˢ◌}
use oxydactylus.Base.{ℕ, zero, suc, String, Bool, ◌&&◌, leb, List, [], ◌∷◌, none, ◌≡◌, refl, take}
use oxydactylus.Panel.PortSql.{replace_all, port_sql}
use oxydactylus.Panel.PortSql.Numbered.{
  Piece, text, placeholder, positional, numbered, AreDecimal, AreNumbers, render,
  positional-port_sql,
}

abbrev is_digit : Char → Bool
is_digit c = leb 48 (code c) && leb (code c) 57

abbrev ones : ℕ → String
ones zero = []ˢ
ones (suc n) = char b'1' tt ∷ˢ ones n

abbrev number_text : ℕ → String
number_text n = char b'1' tt ∷ˢ ones n

ones_decimal : (n : ℕ) → AreDecimal is_digit number_text (ones n)
ones_decimal zero = tt
ones_decimal (suc n) = (refl, ones_decimal n)

ones-AreNumbers : AreNumbers is_digit number_text
ones-AreNumbers = record {
  first_digit = λ n. char b'1' tt;
  other_digits = ones;
  digits = λ n. (refl, (refl, ones_decimal n));
}

abbrev values : List ℕ
values = 7 ∷ 8 ∷ []

abbrev statement : List Piece
statement = text "a = " ∷ placeholder 0 ∷ text ", b = " ∷ placeholder 1 ∷ []

rewritten_test : port_sql is_digit (render is_digit number_text statement) "MySQL" ≡ "a = ?, b = ?"
unfolding port_sql replace_all
rewritten_test = refl

-- A placeholder that is used again wants a value of its own.
repeated_test :
    positional
      (port_sql is_digit
        (render is_digit number_text (placeholder 0 ∷ text "," ∷ placeholder 0 ∷ []))
        "MySQL")
      (take 1 values)
    ≡ none
unfolding port_sql replace_all positional take
repeated_test = refl

positional-port_sql_example :
    positional (port_sql is_digit (render is_digit number_text statement) "MySQL") values
    ≡ numbered values statement
positional-port_sql_example =
    positional-port_sql is_digit number_text values statement ones-AreNumbers
      (
        (refl, refl, (refl, refl, (refl, refl, (refl, refl, tt)))),
        (
          refl,
          (
            (refl, refl, (refl, refl, (refl, refl, (refl, refl, (refl, refl, (refl, refl, tt)))))),
            (refl, tt),
          ),
        ),
      )
      (refl, (refl, refl))
