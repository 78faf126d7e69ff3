-- ===== src/Panel/Permissions/Laws.antt =====
-- What the table of crates/panel/src/permissions.rs guarantees to its users.

use text.Mathlib.Text.{starts_with}
use Prim.Native.String
use oxydactylus.Base.{
  String, ◌≡◌, refl, sym, ◌∙◌, ◌↔◌, inl, inr, Bool, true, ◌||◌, List, [], ◌∷◌, Memᴰ, ◌++◌, arith,
  any, all, count, str_eq, eq_iff, ◌==◌, ==_iff, Bool-cases,
}
use oxydactylus.Panel.Permissions.{all_permissions, public_constants, contains, is_valid_permission}

pub contains→Memᴰ : (ps : List String) (p : String) → contains ps p ≡ true → Memᴰ p ps
contains→Memᴰ [] p h = cc
contains→Memᴰ (q ∷ ps) p h = elim (Bool-cases (str_eq q p)) [
  | inl same ↦ Memᴰ.head (sym ((eq_iff q p).0 same))
  | inr other ↦ Memᴰ.tail (contains→Memᴰ ps p (ground arith))
]

pub Memᴰ→contains : (ps : List String) (p : String) → Memᴰ p ps → contains ps p ≡ true
Memᴰ→contains [] p h = elim h [ ]
Memᴰ→contains (q ∷ ps) p (Memᴰ.head e) = ground (arith, eq_iff q p, e)
Memᴰ→contains (q ∷ ps) p (Memᴰ.tail m) = ground (arith, Memᴰ→contains ps p m)

all-Memᴰ {ℓ} :
    {A : Type ℓ} (q : A → Bool) (xs : List A) (x : A) → all q xs ≡ true → Memᴰ x xs → q x ≡ true
all-Memᴰ q [] x h m = elim m [ ]
all-Memᴰ q (y ∷ xs) x h (Memᴰ.head e) = rw e (ground arith)
all-Memᴰ q (y ∷ xs) x h (Memᴰ.tail m) = all-Memᴰ q xs x (ground arith) m

-- The permissions of all groups, in order.
abbrev pub listed : List (String × List String) → List String
listed [] = []
listed ((g, ps) ∷ gs) = ps ++ listed gs

contains-append :
    (ps qs : List String) (p : String) → contains (ps ++ qs) p ≡ (contains ps p || contains qs p)
contains-append [] qs p = refl
contains-append (q ∷ ps) qs p = ground (arith, contains-append ps qs p)

any-contains :
    (gs : List (String × List String)) (p : String)
    → any (λ g. contains g.1 p) gs ≡ contains (listed gs) p
any-contains [] p = refl
any-contains ((g, ps) ∷ gs) p = ground (arith, any-contains gs p, contains-append ps (listed gs) p)

-- A text is a valid permission exactly when it is one of the public constants of the module.
pub is_valid_permission_iff :
    (p : String) → (is_valid_permission p ≡ true) ↔ Memᴰ p public_constants
unfolding is_valid_permission
is_valid_permission_iff p =
    let same : any (λ g. contains g.1 p) all_permissions ≡ contains public_constants p =
      any-contains all_permissions p in
    (
      λ h. contains→Memᴰ public_constants p (sym same ∙ h),
      λ m. same ∙ Memᴰ→contains public_constants p m,
    )

each_once : all (λ p. count (λ q. str_eq q p) (listed all_permissions) == 1) public_constants ≡ true
unfolding count
each_once = refl

-- Every valid permission stands in the table of groups exactly once.
pub count_of_valid :
    (p : String)
    → is_valid_permission p ≡ true
    → count (λ q. str_eq q p) (listed all_permissions) ≡ 1
count_of_valid p h = (==_iff _ 1).0 (
    all-Memᴰ (λ p. count (λ q. str_eq q p) (listed all_permissions) == 1) public_constants p
      each_once ((is_valid_permission_iff p).0 h))

-- A permission of the group `g` is spelled `g.` and an action.
abbrev pub in_group : String → String → Bool
in_group g p = starts_with p (String.◌++◌ g ".")

abbrev grouped : List (String × List String) → Bool
grouped = all (λ g. all (in_group g.0) g.1)

grouped_sound :
    (gs : List (String × List String)) (p : String)
    → grouped gs ≡ true
    → any (λ g. contains g.1 p) gs ≡ true
    → (g : String) × (ps : List String) × Memᴰ (g, ps) gs × Memᴰ p ps × (in_group g p ≡ true)
grouped_sound [] p h v = cc
grouped_sound ((g, ps) ∷ gs) p h v = elim (Bool-cases (contains ps p)) [
  | inl here ↦
      let m = contains→Memᴰ ps p here in
      (g, ps, Memᴰ.head refl, m, all-Memᴰ (in_group g) ps p (ground arith) m)
  | inr later ↦
      let (g', ps', m, mp, e) = grouped_sound gs p (ground arith) (ground arith) in
      (g', ps', Memᴰ.tail m, mp, e)
]

-- Every valid permission belongs to a group of the table, and its text begins with the name of
-- that group and a dot.
pub valid-in_group :
    (p : String)
    → is_valid_permission p ≡ true
    → (g : String) × (ps : List String) × Memᴰ (g, ps) all_permissions
      × Memᴰ p ps
      × (in_group g p ≡ true)
unfolding is_valid_permission
valid-in_group p h = grouped_sound all_permissions p refl h
