-- ===== src/Panel/Toml/Read.antt =====
-- How a program reads a document: the text, the flag, the list or the table at a key. What has
-- another type is refused; where a key may be missing, the answer says so.
use oxydactylus.Base.{
  String, str_eq, Bool, Option, none, some, List, [], ◌∷◌, ◌≡◌, refl, if◌then◌else◌,
}
use oxydactylus.Panel.Toml.{
  Value, Values, Table, string, boolean, array, table, nil, cons, empty, entry, strings,
}

abbrev pub get : String → Table → Option Value
get k empty = none
get k (entry j v t) = if str_eq j k then some v else get k t

infixl 5 ◌>>=◌
abbrev pub ◌>>=◌ : {A B : Type 0} → Option A → (A → Option B) → Option B
none >>= f = none
some a >>= f = f a

abbrev pub text_of : Option Value → Option String
text_of (some (string s)) = some s
text_of o = none

abbrev pub flag_of : Option Value → Option Bool
flag_of (some (boolean b)) = some b
flag_of o = none

abbrev pub table_of : Option Value → Option Table
table_of (some (table t)) = some t
table_of o = none

-- What may be missing.
module _ {A : Type 0} (read : Option Value → Option A) where
  abbrev pub maybe : Option Value → Option (Option A)
  maybe none = some none
  maybe (some v) = read (some v) >>= λ a. some (some a)

  abbrev pub all_of : Values → Option (List A)
  all_of nil = some []
  all_of (cons v vs) = read (some v) >>= λ a. all_of vs >>= λ rest. some (a ∷ rest)

  abbrev pub list_of : Option Value → Option (List A)
  list_of (some (array vs)) = all_of vs
  list_of o = none

-- The entries of a table of texts.
abbrev pub texts_of : Table → Option (List (String × String))
texts_of empty = some []
texts_of (entry k v t) = text_of (some v) >>= λ s. texts_of t >>= λ rest. some ((k, s) ∷ rest)

pub all_of-strings : (texts : List String) → all_of text_of (strings texts) ≡ some texts
all_of-strings [] = refl
all_of-strings (s ∷ rest) = rw (all_of-strings rest) refl
