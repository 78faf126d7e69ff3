-- ===== src/Base/Lists.antt =====
-- Lists as the tables and sequences of the program: tests over them, lookups and updates.
use Prim.Native.Nat.{ℕ, zero, suc, ◌+◌}
use mathlib.Core.Path.{◌≡◌, refl, ap, ◌∙◌}
use mathlib.Core.Logic.{◌⊎◌, inl, inr}
use mathlib.Core.List.{Memᴰ}
use mathlib.Core.Bool.{Bool, true, false, not, ◌&&◌, ◌||◌}
use mathlib.Core.Option.{Option, none, some}
use mathlib.Core.List.{List, [], ◌∷◌, ◌++◌, map}
use native.Mathlib.Omega.{arith}
use oxydactylus.Base.Tests.{if◌then◌else◌, Bool-cases}

module _ {ℓ} {A : Type ℓ} where
  abbrev pub length : List A → ℕ
  length [] = 0
  length (x ∷ xs) = suc (length xs)

  -- `iter().any(…)`
  abbrev pub any : (A → Bool) → List A → Bool
  any p [] = false
  any p (x ∷ xs) = p x || any p xs

  abbrev pub all : (A → Bool) → List A → Bool
  all p [] = true
  all p (x ∷ xs) = p x && all p xs

  -- The first row that satisfies a `WHERE` clause.
  unfoldable pub find : (A → Bool) → List A → Option A
  find p [] = none
  find p (x ∷ xs) = if p x then some x else find p xs

  -- The rows that satisfy a `WHERE` clause, in the order of the table.
  unfoldable pub select : (A → Bool) → List A → List A
  select p [] = []
  select p (x ∷ xs) = let rest = select p xs in if p x then x ∷ rest else rest

  -- `UPDATE … SET f WHERE p`
  unfoldable pub update : (A → Bool) → (A → A) → List A → List A
  update p f [] = []
  update p f (x ∷ xs) = (if p x then f x else x) ∷ update p f xs

  -- `DELETE … WHERE p`
  unfoldable pub delete : (A → Bool) → List A → List A
  delete p = select (λ x. not (p x))

  -- `SELECT COUNT(*) … WHERE p`, and the number of rows that a statement affects
  unfoldable pub count : (A → Bool) → List A → ℕ
  count p [] = 0
  count p (x ∷ xs) = if p x then suc (count p xs) else count p xs

  pub length-append : (xs ys : List A) → length (xs ++ ys) ≡ length xs + length ys
  length-append [] ys = omega arith
  length-append (x ∷ xs) ys = omega (arith, length-append xs ys)

module _ {ℓ κ} {A : Type ℓ} (P : A → Type κ) where
  -- Every element satisfies `P`.
  abbrev pub All : List A → Type κ
  All [] = Unit
  All (x ∷ xs) = P x × All xs

  pub All-append : (xs ys : List A) → All xs → All ys → All (xs ++ ys)
  All-append [] ys hx hy = hy
  All-append (x ∷ xs) ys hx hy = (hx.0, All-append xs ys hx.1 hy)

-- `ORDER BY` a column that holds numbers or times, and `ORDER BY … DESC`. Rows with the same value
-- keep their order.
module _ {ℓ} {A : Type ℓ} (first : A → A → Bool) where
  insert_ordered : A → List A → List A
  insert_ordered x [] = x ∷ []
  insert_ordered x (y ∷ ys) =
      let rest = insert_ordered x ys in if first y x then y ∷ rest else x ∷ y ∷ ys

  unfoldable pub order_by : List A → List A
  unfolding insert_ordered
  order_by [] = []
  order_by (x ∷ xs) = insert_ordered x (order_by xs)

  Memᴰ-insert_ordered :
      (y : A) (ys : List A) (x : A) → Memᴰ x (insert_ordered y ys) → (x ≡ y) ⊎ Memᴰ x ys
  unfolding insert_ordered
  Memᴰ-insert_ordered y [] x (Memᴰ.head e) = inl e
  Memᴰ-insert_ordered y [] x (Memᴰ.tail m) = inr m
  Memᴰ-insert_ordered y (z ∷ zs) x m = go (first z y) (Memᴰ-insert_ordered y zs x) m
    where
      go :
          (b : Bool)
          → (Memᴰ x (insert_ordered y zs) → (x ≡ y) ⊎ Memᴰ x zs)
          → Memᴰ x (if b then z ∷ insert_ordered y zs else y ∷ z ∷ zs)
          → (x ≡ y) ⊎ Memᴰ x (z ∷ zs)
      go true ih (Memᴰ.head e) = inr (Memᴰ.head e)
      go true ih (Memᴰ.tail m') = elim (ih m') [ inl e ↦ inl e | inr m'' ↦ inr (Memᴰ.tail m'') ]
      go false ih (Memᴰ.head e) = inl e
      go false ih (Memᴰ.tail m') = inr m'

  -- No row is in the ordered list that was not in the table.
  pub order_by-Memᴰ : (xs : List A) (x : A) → Memᴰ x (order_by xs) → Memᴰ x xs
  unfolding order_by
  order_by-Memᴰ [] x m = m
  order_by-Memᴰ (y ∷ ys) x m = elim (Memᴰ-insert_ordered y (order_by ys) x m) [
    | inl e ↦ Memᴰ.head e
    | inr m' ↦ Memᴰ.tail (order_by-Memᴰ ys x m')
  ]

-- Ordering by what a function makes of the rows, before it or after.
module _ {ℓ} {A B : Type ℓ} (f : A → B) (first : B → B → Bool) where
  map-insert_ordered :
      (x : A) (xs : List A)
      → map f (insert_ordered (λ a b. first (f a) (f b)) x xs)
        ≡ insert_ordered first (f x) (map f xs)
  unfolding insert_ordered
  map-insert_ordered x [] = refl
  map-insert_ordered x (y ∷ ys) = go (first (f y) (f x)) (map-insert_ordered x ys)
    where
      go :
          (b : Bool)
          → map f (insert_ordered (λ a b. first (f a) (f b)) x ys)
            ≡ insert_ordered first (f x) (map f ys)
          → map f (if b then y ∷ insert_ordered (λ a b. first (f a) (f b)) x ys else x ∷ y ∷ ys)
            ≡ (if b then f y ∷ insert_ordered first (f x) (map f ys) else f x ∷ f y ∷ map f ys)
      go true ih = rw ih refl
      go false ih = refl

  pub map-order_by :
      (xs : List A) → map f (order_by (λ a b. first (f a) (f b)) xs) ≡ order_by first (map f xs)
  unfolding order_by
  map-order_by [] = refl
  map-order_by (x ∷ xs) =
      map-insert_ordered x (order_by (λ a b. first (f a) (f b)) xs)
      ∙ ap (insert_ordered first (f x)) (map-order_by xs)

-- Where no row satisfies the clause.
module _ {ℓ} {A : Type ℓ} (p : A → Bool) where
  pub find-append_free : (xs ys : List A) → any p xs ≡ false → find p (xs ++ ys) ≡ find p ys
  unfolding find
  find-append_free [] ys free = refl
  find-append_free (x ∷ xs) ys free = elim (Bool-cases (p x)) [
    | inl e ↦ let clash : true ≡ false = rw e at free in cc
    | inr e ↦ let later : any p xs ≡ false = rw e at free in rw e (find-append_free xs ys later)
  ]

  pub select_free : (xs : List A) → any p xs ≡ false → select p xs ≡ []
  unfolding select
  select_free [] free = refl
  select_free (x ∷ xs) free = elim (Bool-cases (p x)) [
    | inl e ↦ let clash : true ≡ false = rw e at free in cc
    | inr e ↦ let later : any p xs ≡ false = rw e at free in rw e (select_free xs later)
  ]

-- `LIMIT`, `OFFSET` and the reverse order.
module _ {ℓ} {A : Type ℓ} where
  unfoldable pub take : ℕ → List A → List A
  take zero xs = []
  take (suc n) [] = []
  take (suc n) (x ∷ xs) = x ∷ take n xs

  unfoldable pub drop : ℕ → List A → List A
  drop zero xs = xs
  drop (suc n) [] = []
  drop (suc n) (x ∷ xs) = drop n xs

  unfoldable pub reverse : List A → List A
  reverse [] = []
  reverse (x ∷ xs) = reverse xs ++ (x ∷ [])

  -- What comes before a number of elements, and the next ones.
  pub take-add : (m n : ℕ) (xs : List A) → take (m + n) xs ≡ take m xs ++ take n (drop m xs)
  unfolding take drop
  take-add zero n xs = let none_more : zero + n ≡ n = omega arith in rw none_more refl
  take-add (suc m) zero [] = let one : suc m + zero ≡ suc (m + zero) = omega arith in rw one refl
  take-add (suc m) (suc n) [] =
      let one : suc m + suc n ≡ suc (m + suc n) = omega arith in rw one refl
  take-add (suc m) n (x ∷ xs) =
      let one : suc m + n ≡ suc (m + n) = omega arith in
      rw one (ap (λ ys. x ∷ ys) (take-add m n xs))
