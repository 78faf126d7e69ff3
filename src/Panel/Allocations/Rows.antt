-- ===== src/Panel/Allocations/Rows.antt =====
-- What the statement that inserts an allocation makes of the table.
use oxydactylus.Base.{
  ◌+◌, ◌≤◌, String, Bool, true, false, ◌==◌, ==_iff, ◌≡◌, refl, sym, ap, inl, inr, Bool-cases, List,
  [], ◌∷◌, ◌++◌, any, count, Memᴰ, str_eq, eq_iff, arith, All, All-append,
}
use oxydactylus.Base.Int.{ℤ, pos, negsuc}
use oxydactylus.Panel.Store.{Uuid, Allocation, Db}
use oxydactylus.Panel.Allocations.{eq_ℤ, is_at, insert_allocation}
use oxydactylus.Panel.Ports.Bounds.{IsPort}

module _ {A : Type 0} (p : A → Bool) where
  any-eq-false : (xs : List A) → any p xs ≡ false → count p xs ≡ 0
  unfolding count
  any-eq-false [] h = refl
  any-eq-false (x ∷ xs) h = ground (arith, any-eq-false xs)

  any-Memᴰ : (xs : List A) → any p xs ≡ true → (x : A) × Memᴰ x xs × (p x ≡ true)
  any-Memᴰ [] h = cc
  any-Memᴰ (x ∷ xs) h = elim (Bool-cases (p x)) [
    | inl e ↦ (x, Memᴰ.head refl, e)
    | inr e ↦ let (y, m, e') = any-Memᴰ xs (ground arith) in (y, Memᴰ.tail m, e')
  ]

  count-append : (xs ys : List A) → count p (xs ++ ys) ≡ count p xs + count p ys
  unfolding count
  count-append [] ys = omega arith
  count-append (x ∷ xs) ys = ground (arith, count-append xs ys)

append-Memᴰ : {A : Type 0} (xs ys : List A) (x : A) → Memᴰ x xs → Memᴰ x (xs ++ ys)
append-Memᴰ [] ys x m = elim m [ ]
append-Memᴰ (y ∷ xs) ys x (Memᴰ.head e) = Memᴰ.head e
append-Memᴰ (y ∷ xs) ys x (Memᴰ.tail m) = Memᴰ.tail (append-Memᴰ xs ys x m)

last-Memᴰ : {A : Type 0} (xs : List A) (x : A) → Memᴰ x (xs ++ (x ∷ []))
last-Memᴰ [] x = Memᴰ.head refl
last-Memᴰ (y ∷ xs) x = Memᴰ.tail (last-Memᴰ xs x)

eq_ℤ_iff : (a b : ℤ) → eq_ℤ a b ≡ true → a ≡ b
eq_ℤ_iff (pos a) (pos b) h = ap pos ((==_iff a b).0 h)
eq_ℤ_iff (pos a) (negsuc b) h = cc
eq_ℤ_iff (negsuc a) (pos b) h = cc
eq_ℤ_iff (negsuc a) (negsuc b) h = ap negsuc ((==_iff a b).0 h)

eq_ℤ-own : (a : ℤ) → eq_ℤ a a ≡ true
eq_ℤ-own (pos a) = (==_iff a a).1 refl
eq_ℤ-own (negsuc a) = (==_iff a a).1 refl

-- An allocation stands at its own place, and at no other.
is_at-own : (a : Allocation) → is_at a.node_id a.ip a.port a ≡ true
is_at-own a =
    rw ((==_iff a.node_id a.node_id).1 refl, (eq_iff a.ip a.ip).1 refl, eq_ℤ-own a.port) refl

pub is_at-key :
    (n : Uuid) (ip : String) (p : ℤ) (a : Allocation)
    → is_at n ip p a ≡ true
    → (n ≡ a.node_id) × (ip ≡ a.ip) × (p ≡ a.port)
is_at-key n ip p a h =
    let first : a.node_id == n ≡ true = ground arith in
    let second : str_eq a.ip ip ≡ true = ground arith in
    let third : eq_ℤ a.port p ≡ true = ground arith in
    (
      sym ((==_iff a.node_id n).0 first),
      sym ((eq_iff a.ip ip).0 second),
      sym (eq_ℤ_iff a.port p third),
    )

-- No two allocations of a node have the same address and port, and each port is a port.
pub record IsDistinct (d : Db) : Type 0 where
  pub once :
      (node_id : Uuid) (ip : String) (port : ℤ) → count (is_at node_id ip port) d.allocations ≤ 1
  pub ports : All (λ a. IsPort a.port) d.allocations

module _ (a : Allocation) (d : Db) where
  pub insert_allocation-IsDistinct :
      IsPort a.port → IsDistinct d → IsDistinct (insert_allocation a d)
  unfolding insert_allocation count
  insert_allocation-IsDistinct port h =
      elim (Bool-cases (any (is_at a.node_id a.ip a.port) d.allocations)) [
        | inl e ↦ record { once = rw e h.once; ports = rw e h.ports }
        | inr e ↦ record {
          once =
              rw e λ n ip p.
                rw (count-append (is_at n ip p) d.allocations (a ∷ [])) (at_most n ip p e);
          ports = rw e (All-append (λ b. IsPort b.port) d.allocations (a ∷ []) h.ports (port, tt));
        }
      ]
    where
      at_most :
          (n : Uuid) (ip : String) (p : ℤ)
          → any (is_at a.node_id a.ip a.port) d.allocations ≡ false
          → count (is_at n ip p) d.allocations + count (is_at n ip p) (a ∷ []) ≤ 1
      at_most n ip p e = elim (Bool-cases (is_at n ip p a)) [
        | inl here ↦
            let absent : count (is_at a.node_id a.ip a.port) d.allocations ≡ 0 =
              any-eq-false (is_at a.node_id a.ip a.port) d.allocations e in
            let (same_node, same_ip, same_port) = is_at-key n ip p a here in
            rw (same_node, same_ip, same_port, absent, is_at-own a) (omega arith)
        | inr miss ↦ let one = h.once n ip p in rw miss (omega arith)
      ]

  -- After it, an allocation stands at the place, and every row that was there still does.
  pub insert_allocation-kept :
      (b : Allocation) → Memᴰ b d.allocations → Memᴰ b (insert_allocation a d).allocations
  unfolding insert_allocation
  insert_allocation-kept b m = elim (Bool-cases (any (is_at a.node_id a.ip a.port) d.allocations)) [
    | inl e ↦ rw e m
    | inr e ↦ rw e (append-Memᴰ d.allocations (a ∷ []) b m)
  ]

  pub insert_allocation-there :
      (b : Allocation) × Memᴰ b (insert_allocation a d).allocations
      × (is_at a.node_id a.ip a.port b ≡ true)
  unfolding insert_allocation
  insert_allocation-there = elim (Bool-cases (any (is_at a.node_id a.ip a.port) d.allocations)) [
    | inl e ↦ rw e (any-Memᴰ (is_at a.node_id a.ip a.port) d.allocations e)
    | inr e ↦ rw e (a, last-Memᴰ d.allocations a, is_at-own a)
  ]
