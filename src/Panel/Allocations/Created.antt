-- ===== src/Panel/Allocations/Created.antt =====
-- What `create_allocations` of crates/panel/src/allocations.rs has done.
use mathlib.Core.Path.{subst}
use oxydactylus.Base.{
  ℕ, suc, true, ◌≡◌, refl, sym, ◌∙◌, inl, inr, Bool-cases, List, [], ◌∷◌, Memᴰ, All,
}
use oxydactylus.Base.Int.{ℤ}
use oxydactylus.Base.Text.{is_empty, trim}
use oxydactylus.Panel.Error.{Result, ok, err}
use oxydactylus.Panel.Store.{Uuid, Time, Allocation, Db, World, continue}
use oxydactylus.Panel.Store.Frame.{kept_execute, ok_execute}
use oxydactylus.Panel.Ports.{resolve_ports}
use oxydactylus.Panel.Ports.Bounds.{IsPort, resolve_ports-IsPort}
use oxydactylus.Panel.Allocations.{
  CreateAllocationsRequest, is_at, insert_allocation, fresh_allocation, insert_ports,
  create_resolved, create_allocations,
}
use oxydactylus.Panel.Allocations.Rows.{
  IsDistinct, insert_allocation-IsDistinct, insert_allocation-kept, insert_allocation-there,
}

-- An allocation of the node stands at each of the ports that the request resolves to, and all that
-- stood before still do.
pub record Created (node_id : Uuid) (body : CreateAllocationsRequest) (d d' : Db) : Type 0 where
  pub ports : List ℤ
  pub resolved : resolve_ports body.ports ≡ ok ports
  pub there :
      All (λ p. (a : Allocation) × Memᴰ a d'.allocations × (is_at node_id body.ip p a ≡ true)) ports
  pub kept : (a : Allocation) → Memᴰ a d.allocations → Memᴰ a d'.allocations

module _ (new_id : ℕ → Uuid) (now : Time) (node_id : Uuid) (body : CreateAllocationsRequest) where
  insert_ports-IsDistinct :
      (k : ℕ) (ps : List ℤ) (w : World)
      → All IsPort ps
      → IsDistinct w.db
      → IsDistinct (insert_ports new_id now k node_id body ps w).1.db
  unfolding insert_ports
  insert_ports-IsDistinct k [] w ports h = h
  insert_ports-IsDistinct k (p ∷ ps) w (port, ports) h =
      kept_execute IsDistinct (insert_allocation (fresh_allocation new_id now k node_id body p)) _ w
        h
        λ u w' same.
          insert_ports-IsDistinct (suc k) ps w' ports
            (subst IsDistinct (sym same) (insert_allocation-IsDistinct _ w.db port h))

  create_resolved-IsDistinct :
      (ps : List ℤ) (w : World)
      → All IsPort ps
      → IsDistinct w.db
      → IsDistinct (create_resolved new_id now node_id body ps w).1.db
  unfolding create_resolved
  create_resolved-IsDistinct [] w ports h = h
  create_resolved-IsDistinct (p ∷ ps) w ports h = insert_ports-IsDistinct 0 (p ∷ ps) w ports h

  -- If no two allocations of a node have the same address and port and each port is from 1 to
  -- 65535, that holds after a request for allocations, whatever it names and whichever of its
  -- statements fail.
  pub create_allocations-IsDistinct :
      (w : World) → IsDistinct w.db → IsDistinct (create_allocations new_id now node_id body w).1.db
  unfolding create_allocations
  create_allocations-IsDistinct w h = elim (Bool-cases (is_empty (trim body.ip))) [
    | inl e ↦ rw (e, create_allocations) h
    | inr e ↦ rw (e, create_allocations) (go (resolve_ports body.ports) refl)
  ]
    where
      go :
          (r : Result (List ℤ))
          → resolve_ports body.ports ≡ r
          → IsDistinct (continue r (create_resolved new_id now node_id body) w).1.db
      go (ok ps) e = create_resolved-IsDistinct ps w (resolve_ports-IsPort body.ports ps e) h
      go (err x) e = h

  -- What the loop has done: `Created`, but for where the ports come from.
  abbrev Inserted : List ℤ → Db → World → Type 0
  Inserted ps d w =
      All (λ p. (a : Allocation) × Memᴰ a w.db.allocations × (is_at node_id body.ip p a ≡ true)) ps
      × ((a : Allocation) → Memᴰ a d.allocations → Memᴰ a w.db.allocations)

  insert_ports_ok :
      (k : ℕ) (ps : List ℤ) (d : Db) (w : World) (status : ℕ)
      → w.db ≡ d
      → (insert_ports new_id now k node_id body ps w).0 ≡ ok status
      → Inserted ps d (insert_ports new_id now k node_id body ps w).1
  unfolding insert_ports
  insert_ports_ok k [] d w status same =
      λ h. (tt, λ a m. subst (λ e. Memᴰ a e.allocations) (sym same) m)
  insert_ports_ok k (p ∷ ps) d w status same =
      let row : Allocation = fresh_allocation new_id now k node_id body p in
      ok_execute (Inserted (p ∷ ps) d) (insert_allocation row) _ w status λ u w' same' h'.
        let (later, kept) =
          insert_ports_ok (suc k) ps (insert_allocation row d) w' status
            (same' ∙ ap_insert row same) h' in
        let (a, m, here) = insert_allocation-there row d in
        (((a, kept a m, here), later), λ b mb. kept b (insert_allocation-kept row d b mb))
    where
      ap_insert :
          (row : Allocation) → w.db ≡ d → insert_allocation row w.db ≡ insert_allocation row d
      ap_insert row e = cc

  -- A request for allocations that succeeds has resolved its ports; an allocation then stands at
  -- each of them, at the address and on the node of the request, and no row was changed or lost.
  pub create_allocations_ok :
      (w : World)
      → (create_allocations new_id now node_id body w).0 ≡ ok 201
      → Created node_id body w.db (create_allocations new_id now node_id body w).1.db
  unfolding create_allocations create_resolved
  create_allocations_ok w = elim (Bool-cases (is_empty (trim body.ip))) [
    | inl e ↦ rw (e, create_allocations) λ h. cc
    | inr e ↦ rw (e, create_allocations) (go (resolve_ports body.ports) refl)
  ]
    where
      go :
          (r : Result (List ℤ))
          → resolve_ports body.ports ≡ r
          → (continue r (create_resolved new_id now node_id body) w).0 ≡ ok 201
          → Created node_id body w.db (continue r (create_resolved new_id now node_id body) w).1.db
      go (ok []) e h = cc
      go (ok (p ∷ ps)) e h =
          let (there, kept) = insert_ports_ok 0 (p ∷ ps) w.db w 201 refl h in
          record { ports = p ∷ ps; resolved = e; there = there; kept = kept }
      go (err x) e h = cc
