-- ===== src/Base/Tables.antt =====
-- Laws of the statements on tables: what a lookup finds, and what updates and deletions keep.
use Prim.Native.Nat.{◌+◌, ◌≤◌, ◌<◌}
use mathlib.Core.List.{Memᴰ}
use mathlib.Core.Path.{◌≡◌, refl, sym, ap, ◌∙◌}
use mathlib.Core.Logic.{◌⊎◌, inl, inr}
use mathlib.Core.Bool.{Bool, true, false}
use mathlib.Core.Option
use mathlib.Core.Option.{none, some}
use mathlib.Core.List.{List, [], ◌∷◌, ◌++◌}
use native.Mathlib.Omega.{arith}
use oxydactylus.Base.Tests.{Bool-cases, if◌then◌else◌}
use oxydactylus.Base.Lists.{any, count, delete, find, select, update, All}

module _ {ℓ} {A : Type ℓ} (p : A → Bool) where
  pub find-Memᴰ : (xs : List A) (x : A) → find p xs ≡ some x → Memᴰ x xs × (p x ≡ true)
  unfolding find
  find-Memᴰ [] x h = cc
  find-Memᴰ (y ∷ xs) x h = elim (Bool-cases (p y)) [
    | inl hit ↦ let e : y ≡ x = ground arith in (Memᴰ.head (sym e), ap p (sym e) ∙ hit)
    | inr miss ↦ let (m, hit) = find-Memᴰ xs x (ground arith) in (Memᴰ.tail m, hit)
  ]

  -- A row that satisfies the clause is found if no other does.
  pub find_of_Memᴰ :
      (xs : List A) (x : A)
      → ((y : A) → Memᴰ y xs → p y ≡ true → y ≡ x)
      → Memᴰ x xs
      → p x ≡ true
      → find p xs ≡ some x
  unfolding find
  find_of_Memᴰ [] x only m h = elim m [ ]
  find_of_Memᴰ (y ∷ xs) x only (Memᴰ.head e) h = rw (ap p (sym e) ∙ h) (ap some (sym e))
  find_of_Memᴰ (y ∷ xs) x only (Memᴰ.tail m) h = elim (Bool-cases (p y)) [
    | inl hit ↦ rw hit (ap some (only y (Memᴰ.head refl) hit))
    | inr miss ↦ rw miss (find_of_Memᴰ xs x (λ z mz. only z (Memᴰ.tail mz)) m h)
  ]

  pub find-eq-none : (xs : List A) → find p xs ≡ none → All (λ x. p x ≡ false) xs
  unfolding find
  find-eq-none [] h = tt
  find-eq-none (y ∷ xs) h = elim (Bool-cases (p y)) [
    | inl hit ↦ cc
    | inr miss ↦ (miss, find-eq-none xs (ground arith))
  ]

  pub select-Memᴰ : (xs : List A) (x : A) → Memᴰ x (select p xs) → Memᴰ x xs × (p x ≡ true)
  unfolding select
  select-Memᴰ [] x m = elim m [ ]
  select-Memᴰ (y ∷ xs) x m = elim (Bool-cases (p y)) [
    | inl hit ↦ kept hit (select-Memᴰ xs x) (rw hit at m)
    | inr miss ↦ let (m', h) = select-Memᴰ xs x (rw miss at m) in (Memᴰ.tail m', h)
  ]
    where
      kept :
          p y ≡ true
          → (Memᴰ x (select p xs) → Memᴰ x xs × (p x ≡ true))
          → Memᴰ x (y ∷ select p xs)
          → Memᴰ x (y ∷ xs) × (p x ≡ true)
      kept hit ih (Memᴰ.head e) = (Memᴰ.head e, ap p e ∙ hit)
      kept hit ih (Memᴰ.tail m') = (Memᴰ.tail (ih m').0, (ih m').1)

  -- The rows that an update leaves are the old ones, changed where the clause holds.
  pub update-Memᴰ :
      (f : A → A) (xs : List A) (x : A)
      → Memᴰ x (update p f xs)
      → (y : A) × Memᴰ y xs × (x ≡ (if p y then f y else y))
  unfolding update
  update-Memᴰ f [] x m = elim m [ ]
  update-Memᴰ f (y ∷ xs) x (Memᴰ.head e) = (y, Memᴰ.head refl, e)
  update-Memᴰ f (y ∷ xs) x (Memᴰ.tail m) =
      let (z, mz, e) = update-Memᴰ f xs x m in (z, Memᴰ.tail mz, e)

-- A lookup by a clause that an update does not touch finds the updated row.
pub find-update {ℓ} :
    {A : Type ℓ} (q p : A → Bool) (f : A → A) (xs : List A)
    → ((x : A) → q (f x) ≡ q x)
    → find q (update p f xs) ≡ Option.map (λ x. if p x then f x else x) (find q xs)
unfolding find update
find-update q p f [] same = refl
find-update q p f (x ∷ xs) same = elim (Bool-cases (p x)) [
  | inl hit ↦ elim (Bool-cases (q x)) [
    | inl e ↦ rw (hit, same x, e) (rw hit)
    | inr e ↦ rw (hit, same x, e) (find-update q p f xs same)
  ]
  | inr miss ↦ elim (Bool-cases (q x)) [
    | inl e ↦ rw (miss, e) (rw miss)
    | inr e ↦ rw (miss, e) (find-update q p f xs same)
  ]
]

-- An update adds at most as many rows to a count as it touches.
pub count-update-le {ℓ} :
    {A : Type ℓ} (q p : A → Bool) (f : A → A) (xs : List A)
    → count q (update p f xs) ≤ count q xs + count p xs
unfolding count update
count-update-le q p f [] = omega arith
count-update-le q p f (x ∷ xs) = ground (arith, count-update-le q p f xs)

-- It adds every row that it touches, where they are the rows counted afterwards and not before.
pub count-update_fresh {ℓ} :
    {A : Type ℓ} (q p : A → Bool) (f : A → A) (xs : List A)
    → ((x : A) → Memᴰ x xs → p x ≡ true → (q x ≡ false) × (q (f x) ≡ true))
    → count q (update p f xs) ≡ count q xs + count p xs
unfolding count update
count-update_fresh q p f [] fresh = omega arith
count-update_fresh q p f (x ∷ xs) fresh =
    ground
      (arith, fresh x (Memᴰ.head refl), count-update_fresh q p f xs (λ y m. fresh y (Memᴰ.tail m)))

pub count_of_Memᴰ {ℓ} :
    {A : Type ℓ} (p : A → Bool) (xs : List A) (x : A) → Memᴰ x xs → p x ≡ true → 0 < count p xs
unfolding count
count_of_Memᴰ p [] x m h = elim m [ ]
count_of_Memᴰ p (y ∷ xs) x (Memᴰ.head e) h = rw (ap p (sym e) ∙ h) (omega arith)
count_of_Memᴰ p (y ∷ xs) x (Memᴰ.tail m) h = ground (arith, count_of_Memᴰ p xs x m h)

-- A deletion keeps the rows that its clause does not hold for.
pub delete-Memᴰ {ℓ} :
    {A : Type ℓ} (p : A → Bool) (xs : List A) (x : A)
    → p x ≡ false
    → Memᴰ x xs
    → Memᴰ x (delete p xs)
unfolding delete select
delete-Memᴰ p [] x miss m = elim m [ ]
delete-Memᴰ p (y ∷ xs) x miss (Memᴰ.head e) = rw (ap p (sym e) ∙ miss) (Memᴰ.head e)
delete-Memᴰ p (y ∷ xs) x miss (Memᴰ.tail m) = elim (Bool-cases (p y)) [
  | inl e ↦ rw e (delete-Memᴰ p xs x miss m)
  | inr e ↦ rw e (Memᴰ.tail (delete-Memᴰ p xs x miss m))
]

-- A row after a table without one that satisfies the clause is the one that is found.
pub find-append_fresh {ℓ} :
    {A : Type ℓ} (p : A → Bool) (xs : List A) (x : A)
    → any p xs ≡ false
    → p x ≡ true
    → find p (xs ++ (x ∷ [])) ≡ some x
unfolding find
find-append_fresh p [] x none_is h = rw h refl
find-append_fresh p (y ∷ xs) x none_is h = elim (Bool-cases (p y)) [
  | inl e ↦ ground arith
  | inr e ↦ rw e (find-append_fresh p xs x (ground arith) h)
]

pub any-eq-false {ℓ} :
    {A : Type ℓ} (p : A → Bool) (xs : List A) (x : A) → any p xs ≡ false → Memᴰ x xs → p x ≡ false
any-eq-false p [] x h m = elim m [ ]
any-eq-false p (y ∷ xs) x h (Memᴰ.head e) = rw e (ground arith)
any-eq-false p (y ∷ xs) x h (Memᴰ.tail m) = any-eq-false p xs x (ground arith) m

-- A table with one more row: a row of it is an old one or the new one.
pub last_or {ℓ} :
    {A : Type ℓ} (xs : List A) (x y : A) → Memᴰ y (xs ++ (x ∷ [])) → Memᴰ y xs ⊎ (y ≡ x)
last_or [] x y (Memᴰ.head e) = inr e
last_or [] x y (Memᴰ.tail m) = elim m [ ]
last_or (z ∷ xs) x y (Memᴰ.head e) = inl (Memᴰ.head e)
last_or (z ∷ xs) x y (Memᴰ.tail m) = elim (last_or xs x y m) [
  | inl there ↦ inl (Memᴰ.tail there)
  | inr e ↦ inr e
]

module _ {ℓ} {A : Type ℓ} (p : A → Bool) where
  -- A row that satisfies a clause is still there when more rows are.
  pub any-append : (xs ys : List A) → any p xs ≡ true → any p (xs ++ ys) ≡ true
  any-append [] ys h = cc
  any-append (x ∷ xs) ys h = elim (Bool-cases (p x)) [
    | inl e ↦ rw e refl
    | inr e ↦ rw e (any-append xs ys (rw e at h))
  ]

  -- It is still there after a deletion of rows that do not satisfy it.
  pub any-delete :
      (q : A → Bool) (xs : List A)
      → ((x : A) → p x ≡ true → q x ≡ false)
      → any p xs ≡ true
      → any p (delete q xs) ≡ true
  unfolding delete select
  any-delete q [] other h = h
  any-delete q (x ∷ xs) other h = elim (Bool-cases (p x)) [
    | inl e ↦ rw (other x e, e) refl
    | inr e ↦
        let rest = any-delete q xs other (rw e at h) in
        elim (Bool-cases (q x)) [ inl f ↦ rw f rest | inr f ↦ rw f (rw e rest) ]
  ]

  pub any-Memᴰ : (xs : List A) → any p xs ≡ true → (x : A) × Memᴰ x xs × (p x ≡ true)
  any-Memᴰ [] h = cc
  any-Memᴰ (x ∷ xs) h = elim (Bool-cases (p x)) [
    | inl e ↦ (x, Memᴰ.head refl, e)
    | inr e ↦ let (y, m, hit) = any-Memᴰ xs (rw e at h) in (y, Memᴰ.tail m, hit)
  ]

  -- The rows that satisfy a clause are those behind a table with none, if all there do.
  pub select-append_fresh :
      (xs ys : List A) → any p xs ≡ false → All (λ y. p y ≡ true) ys → select p (xs ++ ys) ≡ ys
  unfolding select
  select-append_fresh [] [] h all = refl
  select-append_fresh [] (y ∷ ys) h all =
      rw all.0 (ap (λ zs. y ∷ zs) (select-append_fresh [] ys h all.1))
  select-append_fresh (x ∷ xs) ys h all = elim (Bool-cases (p x)) [
    | inl e ↦ ground arith
    | inr e ↦ rw e (select-append_fresh xs ys (rw e at h) all)
  ]
