-- ===== src/Panel/Eggs/Texts.antt =====
-- That the texts of an object are in the table that crates/panel/src/eggs.rs makes of it.
use oxydactylus.Base.{
  String, str_eq, eq_iff, false, Bool-cases, Option, none, some, List, [], ◌∷◌, ◌++◌, append_assoc,
  append-nil, inl, inr, ◌≡◌, refl, sym, ◌∙◌, ap,
}
use oxydactylus.Panel.Toml.{Value, Table, string, empty, entry, insert}
use oxydactylus.Panel.Toml.Read.{get, ◌>>=◌, text_of, texts_of}
use oxydactylus.Panel.Eggs.Export.{insert_texts}

-- No key stands twice among the entries of an object.
abbrev pub IsMissing : String → List (String × Option String) → Type 0
IsMissing k [] = Unit
IsMissing k ((j, v) ∷ rest) = (str_eq k j ≡ false) × IsMissing k rest

abbrev pub AreDistinct : List (String × Option String) → Type 0
AreDistinct [] = Unit
AreDistinct ((k, v) ∷ rest) = IsMissing k rest × AreDistinct rest

abbrev AreFresh : List (String × Option String) → Table → Type 0
AreFresh [] t = Unit
AreFresh ((k, v) ∷ rest) t = (get k t ≡ none) × AreFresh rest t

-- The entries that are texts.
abbrev pub texts_in : List (String × Option String) → List (String × String)
texts_in [] = []
texts_in ((k, none) ∷ rest) = texts_in rest
texts_in ((k, some s) ∷ rest) = (k, s) ∷ texts_in rest

get-insert_other :
    (k j : String) (v : Value) (t : Table) → str_eq k j ≡ false → get j (insert k v t) ≡ get j t
get-insert_other k j v empty differ = rw differ refl
get-insert_other k j v (entry i u t) differ = elim (Bool-cases (str_eq i k)) [
  | inl hit ↦
      let i_j : str_eq i j ≡ false = rw (sym ((eq_iff i k).0 hit)) at differ in rw (hit, i_j) refl
  | inr miss ↦ elim (Bool-cases (str_eq i j)) [
    | inl e ↦ rw (miss, e) refl
    | inr e ↦ rw (miss, e) (get-insert_other k j v t differ)
  ]
]

AreFresh-insert :
    (k : String) (v : Value) (t : Table) (rest : List (String × Option String))
    → IsMissing k rest
    → AreFresh rest t
    → AreFresh rest (insert k v t)
AreFresh-insert k v t [] missing fresh = tt
AreFresh-insert k v t ((j, o) ∷ rest) (differ, missing) (miss, fresh) =
    (get-insert_other k j v t differ ∙ miss, AreFresh-insert k v t rest missing fresh)

abbrev and_one : String → String → List (String × String) → Option (List (String × String))
and_one k s l = some (l ++ ((k, s) ∷ []))

texts_of-insert :
    (k s : String) (t : Table)
    → get k t ≡ none
    → texts_of (insert k (string s) t) ≡ (texts_of t >>= and_one k s)
texts_of-insert k s empty miss = refl
texts_of-insert k s (entry j u t) miss = elim (Bool-cases (str_eq j k)) [
  | inl hit ↦ let absurd : some u ≡ none = rw hit at miss in cc
  | inr differ ↦
      let later : get k t ≡ none = rw differ at miss in
      rw (differ, texts_of-insert k s t later) (go (text_of (some u)) (texts_of t))
]
  where
    go :
        (o : Option String) (l : Option (List (String × String)))
        → (o >>= λ a. (l >>= and_one k s) >>= λ rest. some ((j, a) ∷ rest))
          ≡ ((o >>= λ a. l >>= λ rest. some ((j, a) ∷ rest)) >>= and_one k s)
    go none l = refl
    go (some a) none = refl
    go (some a) (some rest) = refl

texts_of-insert_texts :
    (entries : List (String × Option String)) (t : Table) (l : List (String × String))
    → AreDistinct entries
    → AreFresh entries t
    → texts_of t ≡ some l
    → texts_of (insert_texts entries t) ≡ some (l ++ texts_in entries)
texts_of-insert_texts [] t l distinct fresh read = read ∙ ap some (sym (append-nil l))
texts_of-insert_texts ((k, none) ∷ rest) t l (missing, distinct) (miss, fresh) read =
    texts_of-insert_texts rest t l distinct fresh read
texts_of-insert_texts ((k, some s) ∷ rest) t l (missing, distinct) (miss, fresh) read =
    texts_of-insert_texts rest (insert k (string s) t) (l ++ ((k, s) ∷ [])) distinct
      (AreFresh-insert k (string s) t rest missing fresh)
      (texts_of-insert k s t miss ∙ rw read refl)
    ∙ ap some (append_assoc l ((k, s) ∷ []) (texts_in rest))

AreFresh-empty : (entries : List (String × Option String)) → AreFresh entries empty
AreFresh-empty [] = tt
AreFresh-empty ((k, v) ∷ rest) = (refl, AreFresh-empty rest)

pub texts_of-insert_texts_empty :
    (entries : List (String × Option String))
    → AreDistinct entries
    → texts_of (insert_texts entries empty) ≡ some (texts_in entries)
texts_of-insert_texts_empty entries distinct =
    texts_of-insert_texts entries empty [] distinct (AreFresh-empty entries) refl
