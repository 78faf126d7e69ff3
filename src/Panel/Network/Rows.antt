-- ===== src/Panel/Network/Rows.antt =====
-- The rows that the statements of the network handlers leave.
use mathlib.Core.Option
use oxydactylus.Base.{
  ◌≡◌, ◌≢◌, arith, ==_iff, find-Memᴰ, refl, ◌&&◌, none, some, ◌==◌, find-update, if◌then◌else◌,
}
use oxydactylus.Panel.Store.{Uuid, Allocation, Db}
use oxydactylus.Panel.Network.{belongs, allocation_by_id, assign, unassign}

module _ (j id server_id : Uuid) (d : Db) where
  pub allocation_by_id-assign :
      allocation_by_id j (assign server_id id d)
      ≡ Option.map
          (λ a. if a.id == id then record a { server_id = some server_id } else a)
          (allocation_by_id j d)
  unfolding allocation_by_id assign
  allocation_by_id-assign =
      find-update (λ a. a.id == j) (λ a. a.id == id) (λ a. record a { server_id = some server_id })
        d.allocations (λ a. refl)

  pub allocation_by_id-unassign :
      allocation_by_id j (unassign id server_id d)
      ≡ Option.map
          (λ a. if a.id == id && belongs server_id a then record a { server_id = none } else a)
          (allocation_by_id j d)
  unfolding allocation_by_id unassign
  allocation_by_id-unassign =
      find-update (λ a. a.id == j) (λ a. a.id == id && belongs server_id a)
        (λ a. record a { server_id = none }) d.allocations (λ a. refl)

pub id_of_allocation :
    (j : Uuid) (d : Db) (a : Allocation) → allocation_by_id j d ≡ some a → a.id ≡ j
unfolding allocation_by_id
id_of_allocation j d a h = (==_iff a.id j).0 (find-Memᴰ (λ b. b.id == j) d.allocations a h).1

-- An allocation of a server is not the one that an assignment of a free one changes.
pub found-assign :
    (server_id id j owner : Uuid) (d : Db) (a b : Allocation)
    → allocation_by_id id d ≡ some a
    → a.server_id ≡ none
    → allocation_by_id j d ≡ some b
    → b.server_id ≡ some owner
    → allocation_by_id j (assign server_id id d) ≡ some b
found-assign server_id id j owner d a b found free b_found b_of =
    rw (allocation_by_id-assign, b_found)
      (ground (arith, id_of_allocation j d b b_found, found, b_found, free, b_of))

-- Nor is it changed by an update that takes another allocation from its owner, or any from another.
pub found-unassign :
    (id server_id j owner : Uuid) (d : Db) (b : Allocation)
    → allocation_by_id j d ≡ some b
    → b.server_id ≡ some owner
    → (j ≡ id → owner ≢ server_id)
    → allocation_by_id j (unassign id server_id d) ≡ some b
found-unassign id server_id j owner d b b_found b_of apart =
    rw (allocation_by_id-unassign, b_found) (ground (arith, id_of_allocation j d b b_found, b_of))
