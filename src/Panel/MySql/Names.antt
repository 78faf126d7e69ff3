-- ===== src/Panel/MySql/Names.antt =====
-- That a name which the validation of crates/panel/src/server_databases.rs accepts gets into the
-- statements as it is.
use Prim.Native.Nat.{suc, ◌+◌}
use Prim.Native.Char.{code, len_utf8}
use text.Mathlib.TextPositions.{len_utf8-pos}
use Prim.Native.String.{[], ◌∷◌, len}
use Prim.Native.String.len as Len
use oxydactylus.Base.{
  ℕ, String, ◌≡◌, refl, ap, ◌∙◌, inl, inr, sym, ==_iff, Bool, true, false, not, ◌||◌, ◌==◌, ltb,
  Bool-cases, if◌then◌else◌, arith, ◌≤◌,
}
use oxydactylus.Base.Text.{all_chars, replace_char, is_empty}
use oxydactylus.Panel.Error.{PanelError, Result, ok, err}
use oxydactylus.Panel.MySql.{
  in_username, in_database_name, validate_mysql_username, validate_mysql_database_name,
  escape_mysql_string,
}

-- A character that the names never hold is replaced nowhere.
replace_char-absent :
    (p : ℕ → Bool) (from : ℕ) (to s : String)
    → p from ≡ false
    → all_chars p s ≡ true
    → replace_char from to s ≡ s
unfolding all_chars replace_char
replace_char-absent p from to [] absent all = refl
replace_char-absent p from to (c ∷ s) absent all = elim (Bool-cases (code c == from)) [
  | inl e ↦
      let same : code c ≡ from = (==_iff (code c) from).0 e in
      let holds : p (code c) ≡ true = ground arith in
      let clash : p from ≡ true = ap p (sym same) ∙ holds in ground arith
  | inr e ↦
      rw (e, replace_char) (ap (λ t. c ∷ t) (replace_char-absent p from to s absent (ground arith)))
]

is_empty-len : (s : String) → is_empty s ≡ false → 1 ≤ len s
is_empty-len [] e = ground arith
is_empty-len (c ∷ s) e =
    let split : len (c ∷ s) ≡ len_utf8 c + len s = Len.cons c s in
    let some_bytes : len_utf8 c ≡ suc (len_utf8-pos c).0 = (len_utf8-pos c).1 in omega arith

-- The shape of the two validations.
abbrev checked : Bool → Bool → PanelError → PanelError → Result (Unit {0})
checked wrong_length wrong_char e e' =
    if wrong_length then err e else if wrong_char then err e' else ok tt

accepted :
    (p : ℕ → Bool) (limit : ℕ) (s : String) (e e' : PanelError)
    → checked (is_empty s || ltb limit (len s)) (not (all_chars p s)) e e' ≡ ok tt
    → (1 ≤ len s) × (len s ≤ limit) × (all_chars p s ≡ true)
accepted p limit s e e' h =
    let some_char : is_empty s ≡ false = ground arith in
    let short : len s ≤ limit = ground arith in
    let legal : all_chars p s ≡ true = ground arith in (is_empty-len s some_char, short, legal)

-- A database name that the validation accepts has 1 to 64 bytes and stands unchanged in the
-- statement that creates the database.
validate_mysql_database_name_ok :
    (name : String)
    → validate_mysql_database_name name ≡ ok tt
    → (1 ≤ len name) × (len name ≤ 64) × (replace_char 96 "" name ≡ name)
unfolding validate_mysql_database_name
validate_mysql_database_name_ok name h =
    let (low, high, all) = accepted in_database_name 64 name _ _ h in
    (low, high, replace_char-absent in_database_name 96 "" name refl all)

-- A user name that the validation accepts has 1 to 32 bytes and holds nothing that would be
-- escaped in a literal.
pub validate_mysql_username_ok :
    (username : String)
    → validate_mysql_username username ≡ ok tt
    → (1 ≤ len username) × (len username ≤ 32) × (escape_mysql_string username ≡ username)
unfolding validate_mysql_username escape_mysql_string
validate_mysql_username_ok username h =
    let (low, high, all) = accepted in_username 32 username _ _ h in
    (
      low,
      high,
      ap (replace_char 39 "\\'") (replace_char-absent in_username 92 "\\\\" username refl all)
          ∙ replace_char-absent in_username 39 "\\'" username refl all,
    )
