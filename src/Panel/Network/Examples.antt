-- ===== src/Panel/Network/Examples.antt =====
-- Requests for allocations on small databases.
use oxydactylus.Base.{
  ◌≡◌, ◌≤◌, refl, sym, ap, ◌∙◌, some, List, [], ◌∷◌, ◌==◌, Memᴰ, find, count, arith,
}
use oxydactylus.Panel.Error.{ok}
use oxydactylus.Panel.Store.{
  Uuid, Server, Allocation, Db, calm, empty_db, query, fetch_one, execute, statement,
}
use oxydactylus.Panel.Sample.{sample_db, server_of, free_allocation, owner_user, root_user}
use oxydactylus.Panel.Access.{
  server_by_id, fetch_server, subuser_permissions, judge, check_server_access,
}
use oxydactylus.Panel.Network.{
  count_of, allocation_by_id, assign_found, assign_counted, assign_allocation,
}
use oxydactylus.Panel.Network.Invariants.{IsOwned}
use oxydactylus.Panel.Network.Handlers.{
  perform_all, perform_all-IsOwned, assigning, removing, promoting, Operation,
}
use oxydactylus.Panel.Network.Limit.{Assigned, assign_allocation_ok}

abbrev owner : Server
owner = record (server_of 10 7 "stopped") { allocation_id = some 50 }

abbrev primary : Allocation
primary = record free_allocation { server_id = some 10 }

-- Server 10 has allocation 50 as its primary one, and allocation 51 is free.
abbrev owned_db : Db
owned_db = record empty_db {
  servers = owner ∷ [];
  allocations = primary ∷ record free_allocation { id = 51 } ∷ [];
}

owned_db-IsOwned : IsOwned owned_db
unfolding allocation_by_id find
owned_db-IsOwned = record { one = one; owned = owned }
  where
    one : (s t : Server) → Memᴰ s (owner ∷ []) → Memᴰ t (owner ∷ []) → s.id ≡ t.id → s ≡ t
    one s t (Memᴰ.head e) (Memᴰ.head e') _ = e ∙ sym e'
    one s t (Memᴰ.head e) (Memᴰ.tail m) _ = elim m [ ]
    one s t (Memᴰ.tail m) _ _ = elim m [ ]

    owned :
        (s : Server) (id : Uuid)
        → Memᴰ s (owner ∷ [])
        → s.allocation_id ≡ some id
        → (a : Allocation) × (allocation_by_id id owned_db ≡ some a) × (a.server_id ≡ some s.id)
    owned s id (Memᴰ.head e) h =
        let here : some 50 ≡ some id = sym (ap (λ t. t.allocation_id) e) ∙ h in
        let same : 50 ≡ id = ground arith in
        (primary, ap (λ k. allocation_by_id k owned_db) (sym same), ap (λ t. some t.id) (sym e))
    owned s id (Memᴰ.tail m) h = elim m [ ]

abbrev requests : List Operation
requests = assigning root_user 10 51 ∷ promoting root_user 10 51 ∷ removing root_user 10 50 ∷ []

perform_all-IsOwned_example : IsOwned (perform_all requests (calm owned_db)).db
perform_all-IsOwned_example = perform_all-IsOwned requests (calm owned_db) owned_db-IsOwned

assign_test : (assign_allocation owner_user 10 50 (calm sample_db)).0 ≡ ok 200
unfolding find server_by_id fetch_server subuser_permissions judge check_server_access query
    fetch_one execute statement count count_of allocation_by_id assign_found assign_counted
    assign_allocation
assign_test = refl

single_row : count (λ a. a.id == 50) sample_db.allocations ≤ 1
unfolding count
single_row = omega arith

assign_allocation_ok_example :
    Assigned 10 50 sample_db (assign_allocation owner_user 10 50 (calm sample_db)).1.db
assign_allocation_ok_example =
    assign_allocation_ok owner_user 10 50 (calm sample_db) single_row assign_test
