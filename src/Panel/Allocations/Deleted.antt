-- ===== src/Panel/Allocations/Deleted.antt =====
-- That `delete_allocation` of crates/panel/src/allocations.rs takes no allocation from a server.
use mathlib.Core.Path.{subst}
use oxydactylus.Base.{
  ℕ, true, false, ◌≡◌, ◌≢◌, refl, sym, ap, ◌∙◌, inl, inr, Bool, Bool-cases, Option, none, some,
  List, [], ◌∷◌, ◌==◌, find, select, delete, arith,
}
use oxydactylus.Panel.Store.{Uuid, Allocation, Db, World, pure}
use oxydactylus.Panel.Store.Frame.{kept_query, kept_execute}
use oxydactylus.Panel.Network.{allocation_by_id}
use oxydactylus.Panel.Network.Invariants.{IsOwned}
use oxydactylus.Panel.Allocations.{
  row_of, delete_row, delete_unassigned, delete_found, delete_allocation,
}

-- A lookup does not see the deletion of rows that it would not find.
find-delete {ℓ} :
    {A : Type ℓ} (q p : A → Bool) (xs : List A)
    → ((x : A) → q x ≡ true → p x ≡ false)
    → find q (delete p xs) ≡ find q xs
unfolding find delete select
find-delete q p [] apart = refl
find-delete q p (x ∷ xs) apart = elim (Bool-cases (p x)) [
  | inl e ↦ elim (Bool-cases (q x)) [
    | inl e' ↦ let clash = apart x e' in cc
    | inr e' ↦ rw (e, e') (find-delete q p xs apart)
  ]
  | inr e ↦ elim (Bool-cases (q x)) [
    | inl e' ↦ rw (e, e') refl
    | inr e' ↦ rw (e, e') (find-delete q p xs apart)
  ]
]

found-delete_row :
    (id j : Uuid) (d : Db) → j ≢ id → allocation_by_id j (delete_row id d) ≡ allocation_by_id j d
unfolding allocation_by_id delete_row
found-delete_row id j d apart =
    find-delete (λ a. a.id == j) (λ a. a.id == id) d.allocations λ a e. ground arith

delete_row-IsOwned :
    (id : Uuid) (d : Db) (a : Allocation)
    → allocation_by_id id d ≡ some a
    → a.server_id ≡ none
    → IsOwned d
    → IsOwned (delete_row id d)
unfolding delete_row
delete_row-IsOwned id d a found free h = record {
  one = h.one;
  owned = λ s j m e.
      let (b, b_found, b_of) = h.owned s j m e in
      let apart : j ≢ id = λ same.
        let b_here : allocation_by_id id d ≡ some b =
          subst (λ k. allocation_by_id k d ≡ some b) same b_found in
        let same_row : some a ≡ some b = sym found ∙ b_here in ground arith in
      (b, found-delete_row id j d apart ∙ b_found, b_of);
}

-- If every server's primary allocation exists and is assigned to it, that holds after a request to
-- delete an allocation, whichever one it names and whichever of its statements fail.
delete_allocation-IsOwned :
    (id : Uuid) (w : World) → IsOwned w.db → IsOwned (delete_allocation id w).1.db
unfolding delete_allocation delete_found row_of allocation_by_id
delete_allocation-IsOwned id w h =
    kept_query IsOwned (row_of id) (delete_found id) w h λ o w' same value. go o w' same (sym value)
  where
    move : (w' : World) → w'.db ≡ w.db → IsOwned w'.db
    move w' same = subst IsOwned (sym same) h

    by_server :
        (a : Allocation) (s : Option Uuid) (w' : World)
        → w'.db ≡ w.db
        → allocation_by_id id w.db ≡ some a
        → a.server_id ≡ s
        → IsOwned (delete_unassigned id s w').1.db
    by_server a (some server_id) w' same found e = move w' same
    by_server a none w' same found e =
        kept_execute IsOwned (delete_row id) (λ _. pure {A = ℕ} 204) w' (move w' same)
          λ u w'' same'.
            subst IsOwned (sym same') (
              delete_row-IsOwned id w'.db a (ap (allocation_by_id id) same ∙ found) e
                (move w' same))

    go :
        (o : Option Allocation) (w' : World)
        → w'.db ≡ w.db
        → row_of id w.db ≡ o
        → IsOwned (delete_found id o w').1.db
    go none w' same value = move w' same
    go (some a) w' same value = by_server a a.server_id w' same (same_lookup ∙ value) refl
      where
        same_lookup : allocation_by_id id w.db ≡ row_of id w.db
        same_lookup = refl
