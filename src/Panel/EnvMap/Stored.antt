-- ===== src/Panel/EnvMap/Stored.antt =====
-- What an environment says that is written from one of those maps.
use mathlib.Core.Option
use oxydactylus.Base.{
  ℕ, String, true, false, ◌==◌, ◌≡◌, refl, sym, ◌∙◌, ap, str_eq, eq_iff, Bool-cases, inl, inr,
  Option, none, some, List, [], ◌∷◌, map,
}
use Prim.Native.Char.{code}
use Prim.Native.String.{[] as []ˢ, ◌∷◌ as ◌∷ˢ◌}
use oxydactylus.Base.Text.{◌+++◌, split_once, contains_char}
use oxydactylus.Base.Text.Laws.{append-prepend, prepend, split_once-prepend_first}
use oxydactylus.Panel.EggVars.{get, or_else}
use oxydactylus.Panel.EnvMap.{EnvMap, insert, insert_entry, insert_all, env_map, format_entry}
use oxydactylus.Panel.EnvMap.Laws.{get-insert_other}

-- No name stands twice.
abbrev pub AreOnce : EnvMap → Type 0
AreOnce [] = Unit
AreOnce ((k, v) ∷ m) = (get k m ≡ none) × AreOnce m

-- No name with an equals sign has a value.
abbrev pub AreNames : EnvMap → Type 0
AreNames m = (k : String) → contains_char b'=' k ≡ true → get k m ≡ none

-- The entries of a map in any order: each name once, with the value that it has in the map.
abbrev pub IsOrder : (EnvMap → EnvMap) → Type 0
IsOrder iter =
    (m : EnvMap) → AreOnce m → AreOnce (iter m) × ((k : String) → get k (iter m) ≡ get k m)

get-insert_same : (k v : String) (m : EnvMap) → get k (insert k v m) ≡ some v
get-insert_same k v [] = let e = (eq_iff k k).1 refl in rw e refl
get-insert_same k v ((j, u) ∷ m) = elim (Bool-cases (str_eq j k)) [
  | inl hit ↦ rw (hit, hit) refl
  | inr miss ↦ rw (miss, miss) (get-insert_same k v m)
]

pub insert-AreOnce : (k v : String) (m : EnvMap) → AreOnce m → AreOnce (insert k v m)
insert-AreOnce k v [] h = (refl, tt)
insert-AreOnce k v ((j, u) ∷ m) (alone, h) = elim (Bool-cases (str_eq j k)) [
  | inl hit ↦ rw hit (alone, h)
  | inr miss ↦
      let other : str_eq k j ≡ false = elim (Bool-cases (str_eq k j)) [
        | inl e ↦ let back : str_eq j k ≡ true = (eq_iff j k).1 (sym ((eq_iff k j).0 e)) in cc
        | inr e ↦ e
      ] in
      rw miss (get-insert_other j k v m other ∙ alone, insert-AreOnce k v m h)
]

pub insert-AreNames :
    (k v : String) (m : EnvMap)
    → contains_char b'=' k ≡ false
    → AreNames m
    → AreNames (insert k v m)
insert-AreNames k v m free h j bad = elim (Bool-cases (str_eq k j)) [
  | inl e ↦ let clash = ap (contains_char b'=') ((eq_iff k j).0 e) in cc
  | inr other ↦ get-insert_other j k v m other ∙ h j bad
]

-- The first part of a split.
abbrev first_part : String → Option (String × String) → String
first_part k none = k
first_part k (some (k', v)) = k'

split_once_free :
    (sep : ℕ) (s k v : String) → split_once sep s ≡ some (k, v) → contains_char sep k ≡ false
unfolding split_once contains_char
split_once_free sep []ˢ k v h = cc
split_once_free sep (c ∷ˢ s) k v h = elim (Bool-cases (code c == sep)) [
  | inl e ↦
      let split : some ([]ˢ, s) ≡ some (k, v) = rw e at h in rw (sym (ap (first_part k) split)) refl
  | inr e ↦ go (split_once sep s) (split_once_free sep s) e (rw e at h)
]
  where
    go :
        (o : Option (String × String))
        → ((k v : String) → o ≡ some (k, v) → contains_char sep k ≡ false)
        → (code c == sep) ≡ false
        → Option.map {B = String × String} (λ (p : String × String). (c ∷ˢ p.0, p.1)) o
          ≡ some (k, v)
        → contains_char sep k ≡ false
    go none later e split = cc
    go (some (k', v')) later e split = rw (sym (ap (first_part k) split), e) (later k' v' refl)

abbrev pub Fine : EnvMap → Type 0
Fine m = AreOnce m × AreNames m

insert_entry-Fine :
    (e : String) (o : Option (String × String)) (m : EnvMap)
    → split_once b'=' e ≡ o
    → Fine m
    → Fine (insert_entry o m)
insert_entry-Fine e none m is h = h
insert_entry-Fine e (some (k, v)) m is (once, names) =
    (insert-AreOnce k v m once, insert-AreNames k v m (split_once_free b'=' e k v is) names)

insert_all-Fine : (es : List String) (m : EnvMap) → Fine m → Fine (insert_all es m)
insert_all-Fine [] m h = h
insert_all-Fine (e ∷ es) m h =
    insert_all-Fine es (insert_entry (split_once b'=' e) m)
      (insert_entry-Fine e (split_once b'=' e) m refl h)

pub env_map-Fine : (env : List String) → Fine (env_map env)
unfolding env_map
env_map-Fine env = insert_all-Fine env [] (tt, λ k bad. refl)

split_once-format_entry :
    (k v : String)
    → contains_char b'=' k ≡ false
    → split_once b'=' (format_entry (k, v)) ≡ some (k, v)
split_once-format_entry k v free =
    ap (split_once b'=') (append-prepend k ("=" +++ v) ∙ ap (prepend k) (append-prepend "=" v))
    ∙ split_once-prepend_first b'=' k v "=" free refl

get-insert_all :
    (name : String) (l m : EnvMap)
    → AreOnce l
    → AreNames l
    → get name (insert_all (map format_entry l) m) ≡ or_else (get name l) (get name m)
get-insert_all name [] m once names = refl
get-insert_all name ((k, v) ∷ l) m (alone, once) names =
    let here : get k ((k, v) ∷ l) ≡ some v = rw ((eq_iff k k).1 refl) refl in
    let free : contains_char b'=' k ≡ false = elim (Bool-cases (contains_char b'=' k)) [
      | inl bad ↦ let none_here = names k bad in cc
      | inr e ↦ e
    ] in
    let names' : AreNames l = λ j bad. elim (Bool-cases (str_eq k j)) [
      | inl e ↦ let nothing = names j bad in let clash : some v ≡ none = rw e at nothing in cc
      | inr e ↦ let nothing = names j bad in rw e at nothing
    ] in
    (ap (λ o. get name (insert_all (map format_entry l) (insert_entry o m)))
        (split_once-format_entry k v free)
      ∙ get-insert_all name l (insert k v m) once names'
      ∙ elim (Bool-cases (str_eq k name)) [
        | inl e ↦
            let same : k ≡ name = (eq_iff k name).0 e in
            rw (e, sym same, alone, get-insert_same k v m) refl
        | inr e ↦ rw (e, get-insert_other name k v m e) refl
      ])

or_else-none : (o : Option String) → or_else o none ≡ o
or_else-none none = refl
or_else-none (some v) = refl

-- An environment that is written from a map, in any order, says at each name what the map says.
pub get-env_map :
    (iter : EnvMap → EnvMap) (name : String) (m : EnvMap)
    → IsOrder iter
    → AreOnce m
    → AreNames m
    → get name (env_map (map format_entry (iter m))) ≡ get name m
unfolding env_map
get-env_map iter name m order once names =
    let (once', same) = order m once in
    get-insert_all name (iter m) [] once' (λ k bad. same k ∙ names k bad)
    ∙ or_else-none (get name (iter m))
    ∙ same name
