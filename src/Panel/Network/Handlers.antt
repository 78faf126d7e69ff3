-- ===== src/Panel/Network/Handlers.antt =====
-- The network handlers of crates/panel/src/servers.rs keep the primary allocations assigned.
use mathlib.Core.Path.{subst}
use oxydactylus.Base.{
  ℕ, ◌≡◌, refl, sym, ◌∙◌, inl, inr, not, Option, none, some, List, [], ◌∷◌, Memᴰ, arith, ◌==◌,
  is_some_of, find-Memᴰ, Bool-cases,
}
use oxydactylus.Base.Int.{pos, leb_ℤ}
use oxydactylus.Panel.Error.{not_found, text}
use oxydactylus.Panel.Permissions.{network_update, network_delete}
use oxydactylus.Panel.Store.{Uuid, Server, Allocation, Db, World, Panel, or_raise, pure, ◌>>=◌}
use oxydactylus.Panel.Store.Frame.{kept_query, kept_execute, kept_statement}
use oxydactylus.Panel.Access.{AuthUser, server_by_id}
use oxydactylus.Panel.Access.Guarded.{kept_checked}
use oxydactylus.Panel.Network.{
  count_of, allocation_by_id, assign, unassign, set_primary, is_some, assign_found, assign_counted,
  assign_allocation, removed, remove_checked, remove_allocation, make_primary_found,
  make_allocation_primary, unassign_counting,
}
use oxydactylus.Panel.Network.Invariants.{
  IsOwned, assign-IsOwned, unassign-IsOwned, set_primary-IsOwned,
}

-- The state is carried to an equal one.
moved : {d d' : Db} → d' ≡ d → IsOwned d → IsOwned d'
moved e h = subst IsOwned (sym e) h

assign_found-IsOwned :
    (server : Server) (id : Uuid) (a : Allocation) (w : World)
    → allocation_by_id id w.db ≡ some a
    → IsOwned w.db
    → IsOwned (assign_found server id a w).1.db
unfolding assign_found
assign_found-IsOwned server id a w found h = elim (Bool-cases (not (a.node_id == server.node_id))) [
  | inl e ↦ rw (e, assign_found) h
  | inr e ↦ elim (Bool-cases (is_some a.server_id)) [
    | inl e' ↦ rw (e, e', assign_found) h
    | inr e' ↦
        rw (e, e', assign_found)
          (kept_execute IsOwned (assign server.id id) (λ _. pure {A = ℕ} 200) w h
            λ u w' same. moved same (assign-IsOwned server.id id w.db a found (ground arith) h))
  ]
]

assign_counted-IsOwned :
    (server : Server) (id : Uuid) (n : ℕ) (w : World)
    → IsOwned w.db
    → IsOwned (assign_counted server id n w).1.db
unfolding assign_counted
assign_counted-IsOwned server id n w h = elim (Bool-cases (leb_ℤ server.allocation_limit (pos n))) [
  | inl e ↦ rw (e, assign_counted) h
  | inr e ↦
      rw (e, assign_counted)
        (kept_query IsOwned (allocation_by_id id) _ w h λ o w' same value. go o w' same (sym value))
]
  where
    go :
        (o : Option Allocation) (w' : World)
        → w'.db ≡ w.db
        → allocation_by_id id w.db ≡ o
        → IsOwned
            ((or_raise (not_found (text "allocation not found")) o >>= assign_found server id)
              w').1.db
    go none w' same value = moved same h
    go (some a) w' same value = assign_found-IsOwned server id a w' (rw same value) (moved same h)

db-removed : (n : ℕ) (w : World) → (removed n w).1.db ≡ w.db
unfolding removed
db-removed n w = ground arith

unassign_counting_lem :
    (id server_id : Uuid) (d : Db) → (unassign_counting id server_id d).1 ≡ unassign id server_id d
unfolding unassign_counting
unassign_counting_lem id server_id d = refl

remove_checked-IsOwned :
    (server : Server) (id : Uuid) (w : World)
    → Memᴰ server w.db.servers
    → IsOwned w.db
    → IsOwned (remove_checked server id w).1.db
unfolding remove_checked
remove_checked-IsOwned server id w here h = elim (Bool-cases (is_some_of server.allocation_id id)) [
  | inl e ↦ rw (e, remove_checked) h
  | inr e ↦
      rw (e, remove_checked)
        (kept_statement IsOwned (unassign_counting id server.id) removed w h λ n w' same _.
          moved (db-removed n w' ∙ same ∙ unassign_counting_lem id server.id w.db)
            (unassign-IsOwned server id w.db here e h))
]

make_primary_found-IsOwned :
    (server : Server) (id : Uuid) (o : Option Allocation) (w : World)
    → allocation_by_id id w.db ≡ o
    → IsOwned w.db
    → IsOwned (make_primary_found server id o w).1.db
unfolding make_primary_found
make_primary_found-IsOwned server id none w value h = h
make_primary_found-IsOwned server id (some a) w value h =
    elim (Bool-cases (is_some_of a.server_id server.id)) [
      | inl e ↦
          rw (e, make_primary_found)
            (kept_execute IsOwned (set_primary id server.id) (λ _. pure {A = ℕ} 200) w h
              λ u w' same.
                moved same (set_primary-IsOwned id server.id w.db a value (ground arith) h))
      | inr e ↦ rw (e, make_primary_found) h
    ]

-- A request to one of the handlers, with the user who makes it.
pub data Operation : Type 0 where
  assigning removing promoting : AuthUser → Uuid → Uuid → Operation

unfoldable pub perform : Operation → Panel ℕ
perform (assigning user id allocation_id) = assign_allocation user id allocation_id
perform (removing user id allocation_id) = remove_allocation user id allocation_id
perform (promoting user id allocation_id) = make_allocation_primary user id allocation_id

member : (id : Uuid) (d : Db) (s : Server) → server_by_id id d ≡ some s → Memᴰ s d.servers
unfolding server_by_id
member id d s h = (find-Memᴰ (λ t. t.id == id) d.servers s h).0

perform-IsOwned : (op : Operation) (w : World) → IsOwned w.db → IsOwned (perform op w).1.db
unfolding perform assign_allocation remove_allocation make_allocation_primary
perform-IsOwned (assigning user id aid) w h =
    kept_checked IsOwned user id (some network_update) _ w h λ s u w' same found.
      kept_query IsOwned (count_of s.id) (assign_counted s aid) w' (moved same h)
        λ n w'' same' _. assign_counted-IsOwned s aid n w'' (moved (same' ∙ same) h)
perform-IsOwned (removing user id aid) w h =
    kept_checked IsOwned user id (some network_delete) _ w h λ s u w' same found.
      remove_checked-IsOwned s aid w' (rw same (member id w.db s found)) (moved same h)
perform-IsOwned (promoting user id aid) w h =
    kept_checked IsOwned user id (some network_update) _ w h λ s u w' same found.
      kept_query IsOwned (allocation_by_id aid) (make_primary_found s aid) w' (moved same h)
        λ o w'' same' value.
          make_primary_found-IsOwned s aid o w'' (rw same' (sym value)) (moved (same' ∙ same) h)

unfoldable pub perform_all : List Operation → World → World
perform_all [] w = w
perform_all (op ∷ ops) w = perform_all ops (perform op w).1

-- If every server's primary allocation exists and is assigned to it, that holds after any requests
-- to assign, remove and promote allocations, whoever makes them and whichever statements fail.
pub perform_all-IsOwned :
    (ops : List Operation) (w : World) → IsOwned w.db → IsOwned (perform_all ops w).db
unfolding perform_all
perform_all-IsOwned [] w h = h
perform_all-IsOwned (op ∷ ops) w h =
    perform_all-IsOwned ops (perform op w).1 (perform-IsOwned op w h)
