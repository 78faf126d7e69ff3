-- ===== src/Panel/PortSql.antt =====
-- `port_sql` of crates/panel/src/db.rs, which rewrites the numbered placeholders of a statement for
-- MySQL. The expression `\$\d+` is a literal of the source, so what it matches is written out.
pub mod Numbered
mod Examples
use Prim.Native.Char.{Char, char, code}
use Prim.Native.String.{[] as []ˢ, ◌∷◌ as ◌∷ˢ◌}
use oxydactylus.Base.{String, str_eq, Bool, true, false, ◌&&◌, ◌||◌, ◌==◌, if◌then◌else◌}

-- A match is begun with its question mark, the rest of it is left out, and what is in no match stays.
abbrev pub emit : Bool → Bool → Char → String → String
emit true begins c rest = rest
emit false true c rest = char b'?' tt ∷ˢ rest
emit false false c rest = c ∷ˢ rest

-- `is_decimal` is the class `\d`, the decimal digits of Unicode.
module _ (is_decimal : Char → Bool) where
  abbrev pub begins_decimal : String → Bool
  begins_decimal []ˢ = false
  begins_decimal (c ∷ˢ s) = is_decimal c

  -- `re.replace_all(sql, "?")`, inside of the digits of a match or not
  unfoldable pub replace_all : Bool → String → String
  replace_all inside []ˢ = []ˢ
  replace_all inside (c ∷ˢ s) =
      let goes_on = inside && is_decimal c in
      let begins = code c == b'$' && begins_decimal s in
      emit goes_on begins c (replace_all (goes_on || begins) s)

  unfoldable pub port_sql : String → String → String
  port_sql sql backend = if str_eq backend "MySQL" then replace_all false sql else sql
