-- ===== src/Panel/EnvMap/Laws.antt =====
-- What is looked up in those maps.
use oxydactylus.Base.{String, false, ◌≡◌, refl, sym, [], ◌∷◌, str_eq, eq_iff, Bool-cases, inl, inr}
use oxydactylus.Panel.EggVars.{get}
use oxydactylus.Panel.EnvMap.{EnvMap, insert}

-- Another name has the value that it had.
pub get-insert_other :
    (j k v : String) (m : EnvMap) → str_eq k j ≡ false → get j (insert k v m) ≡ get j m
get-insert_other j k v [] other = rw other refl
get-insert_other j k v ((i, u) ∷ m) other = elim (Bool-cases (str_eq i k)) [
  | inl hit ↦
      let i_j : str_eq i j ≡ false = rw (sym ((eq_iff i k).0 hit)) at other in rw (hit, i_j) refl
  | inr miss ↦ elim (Bool-cases (str_eq i j)) [
    | inl e ↦ rw (miss, e) refl
    | inr e ↦ rw (miss, e) (get-insert_other j k v m other)
  ]
]
