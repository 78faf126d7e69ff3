-- ===== src/Panel/Network/Limit.antt =====
-- What an assignment that succeeds has done: `assign_allocation` of crates/panel/src/servers.rs.
use oxydactylus.Base.{
  ℕ, ◌+◌, ◌≤◌, ◌≡◌, refl, sym, ap, ◌∙◌, inl, inr, Bool-cases, not, Option, none, some, arith, ◌==◌,
  ==_iff, count, count-update-le, is_some_of, if◌then◌else◌,
}
use oxydactylus.Base.Int.{pos, leb_ℤ, ◌≤ℤ◌}
use oxydactylus.Panel.Error.{ok, not_found, text}
use oxydactylus.Panel.Permissions.{network_update}
use oxydactylus.Panel.Store.{Uuid, Server, Allocation, Db, World, or_raise, query, ◌>>=◌}
use oxydactylus.Panel.Store.Frame.{
  ok_bind, fetch_one-Quiet, fetch_one_sound, query-Quiet, query_sound, execute_then_pure,
}
use oxydactylus.Panel.Access.{AuthUser, server_by_id, fetch_server, check_server_access}
use oxydactylus.Panel.Access.Laws.{check_server_access-Quiet}
use oxydactylus.Panel.Network.{
  belongs, count_of, allocation_by_id, assign, is_some, assign_found, assign_counted,
  assign_allocation,
}
use oxydactylus.Panel.Network.Rows.{allocation_by_id-assign, id_of_allocation}

-- A free allocation of the server's node was given to it, and the server has no more allocations
-- than its limit allows.
pub record Assigned (id allocation_id : Uuid) (d d' : Db) : Type 0 where
  pub server : Server
  pub allocation : Allocation
  pub found : server_by_id id d ≡ some server
  pub before : allocation_by_id allocation_id d ≡ some allocation
  pub free : allocation.server_id ≡ none
  pub same_node : allocation.node_id ≡ server.node_id
  pub after :
      allocation_by_id allocation_id d' ≡ some (record allocation { server_id = some server.id })
  pub within : pos (count_of server.id d') ≤ℤ server.allocation_limit

count-assign-le :
    (server_id id : Uuid) (d : Db)
    → count_of server_id (assign server_id id d)
      ≤ count_of server_id d + count (λ a. a.id == id) d.allocations
unfolding count_of assign
count-assign-le server_id id d =
    count-update-le (belongs server_id) (λ a. a.id == id)
      (λ a. record a { server_id = some server_id }) d.allocations

module _ (id aid : Uuid) (s : Server) (d : Db) (found : server_by_id id d ≡ some s)
    (single : count (λ a. a.id == aid) d.allocations ≤ 1) where
  assign-Assigned :
      (a : Allocation)
      → allocation_by_id aid d ≡ some a
      → a.server_id ≡ none
      → a.node_id ≡ s.node_id
      → leb_ℤ s.allocation_limit (pos (count_of s.id d)) ≡ oxydactylus.Base.false
      → Assigned id aid d (assign s.id aid d)
  assign-Assigned a before free same_node room = record {
    server = s;
    allocation = a;
    found = found;
    before = before;
    free = free;
    same_node = same_node;
    after = rw (allocation_by_id-assign, before) (ground (arith, id_of_allocation aid d a before));
    within = ground (arith, count-assign-le s.id aid d, single);
  }

  assign_found_ok :
      (a : Allocation) (w : World)
      → w.db ≡ d
      → allocation_by_id aid d ≡ some a
      → leb_ℤ s.allocation_limit (pos (count_of s.id d)) ≡ oxydactylus.Base.false
      → (assign_found s aid a w).0 ≡ ok 200
      → Assigned id aid d (assign_found s aid a w).1.db
  unfolding assign_found
  assign_found_ok a w same before room = elim (Bool-cases (not (a.node_id == s.node_id))) [
    | inl e ↦ rw (e, assign_found) (λ h. cc)
    | inr e ↦ elim (Bool-cases (is_some a.server_id)) [
      | inl e' ↦ rw (e, e', assign_found) (λ h. cc)
      | inr e' ↦
          rw (e, e', assign_found)
            (λ h.
              rw (execute_then_pure (assign s.id aid) 200 w h, same)
                (assign-Assigned a before (ground arith) (ground arith) room))
    ]
  ]

  assign_counted_ok :
      (w : World)
      → w.db ≡ d
      → (assign_counted s aid (count_of s.id d) w).0 ≡ ok 200
      → Assigned id aid d (assign_counted s aid (count_of s.id d) w).1.db
  unfolding assign_counted
  assign_counted_ok w same = elim (Bool-cases (leb_ℤ s.allocation_limit (pos (count_of s.id d)))) [
    | inl e ↦ rw (e, assign_counted) (λ h. cc)
    | inr e ↦
        rw (e, assign_counted)
          (ok_bind (λ v. Assigned id aid d v.db) (query (allocation_by_id aid)) _ w 200
            (query-Quiet (allocation_by_id aid) w).db
            λ o w' same' eq.
              go e o w' (same' ∙ same)
                (sym (query_sound (allocation_by_id aid) w o eq ∙ ap (allocation_by_id aid) same)))
  ]
    where
      go :
          leb_ℤ s.allocation_limit (pos (count_of s.id d)) ≡ oxydactylus.Base.false
          → (o : Option Allocation) (w' : World) → w'.db ≡ d
          → allocation_by_id aid d ≡ o
          → ((or_raise (not_found (text "allocation not found")) o >>= assign_found s aid) w').0
            ≡ ok 200
          → Assigned id aid d
              ((or_raise (not_found (text "allocation not found")) o >>= assign_found s aid)
                w').1.db
      go e none w' same' value h = cc
      go e (some a) w' same' value h = assign_found_ok a w' same' value e h

-- An assignment that succeeds has given a free allocation of the server's node to the server, and
-- the server then has at most as many allocations as its limit, if no two allocations share the
-- identifier.
pub assign_allocation_ok :
    (user : AuthUser) (id aid : Uuid) (w : World)
    → count (λ a. a.id == aid) w.db.allocations ≤ 1
    → (assign_allocation user id aid w).0 ≡ ok 200
    → Assigned id aid w.db (assign_allocation user id aid w).1.db
unfolding assign_allocation fetch_server
assign_allocation_ok user id aid w single =
    ok_bind (λ v. Assigned id aid w.db v.db) (fetch_server id) _ w 200
      (fetch_one-Quiet (server_by_id id) w).db
      λ s w1 same1 e1.
        ok_bind (λ v. Assigned id aid w.db v.db) (check_server_access user s (some network_update))
          _ w1 200 (check_server_access-Quiet user s (some network_update) w1).db
          λ _ w2 same2 _.
            ok_bind (λ v. Assigned id aid w.db v.db) (query (count_of s.id)) (assign_counted s aid)
              w2 200 (query-Quiet (count_of s.id) w2).db
              λ n w3 same3 e3.
                let same : w3.db ≡ w.db = same3 ∙ same2 ∙ same1 in
                let value : n ≡ count_of s.id w.db =
                  query_sound (count_of s.id) w2 n e3 ∙ ap (count_of s.id) (same2 ∙ same1) in
                rw value (
                  assign_counted_ok id aid s w.db (fetch_one_sound (server_by_id id) w s e1) single
                    w3 same)
