-- ===== src/Panel/Network/Invariants.antt =====
-- That the primary allocation of a server stays assigned to it, whatever the network handlers of
-- crates/panel/src/servers.rs are asked and whichever of their statements fail.
use oxydactylus.Base.{
  ◌≡◌, ◌≢◌, sym, ap, ◌∙◌, inl, inr, false, none, some, Memᴰ, arith, ◌==◌, is_some_of, update-Memᴰ,
  Bool-cases, if◌then◌else◌,
}
use oxydactylus.Panel.Store.{Uuid, Server, Allocation, Db}
use oxydactylus.Panel.Network.{allocation_by_id, assign, unassign, set_primary}
use oxydactylus.Panel.Network.Rows.{found-assign, found-unassign}

-- PRIMARY KEY of `servers`, and that a primary allocation exists and belongs to the server.
pub record IsOwned (d : Db) : Type 0 where
  pub one : (s t : Server) → Memᴰ s d.servers → Memᴰ t d.servers → s.id ≡ t.id → s ≡ t
  pub owned :
      (s : Server) (id : Uuid)
      → Memᴰ s d.servers
      → s.allocation_id ≡ some id
      → (a : Allocation) × (allocation_by_id id d ≡ some a) × (a.server_id ≡ some s.id)

-- An allocation that no server has may be assigned.
pub assign-IsOwned :
    (server_id id : Uuid) (d : Db) (a : Allocation)
    → allocation_by_id id d ≡ some a
    → a.server_id ≡ none
    → IsOwned d
    → IsOwned (assign server_id id d)
unfolding assign
assign-IsOwned server_id id d a found free h = record {
  one = h.one;
  owned = λ s j m e.
      let (b, b_found, b_of) = h.owned s j m e in
      (b, found-assign server_id id j s.id d a b found free b_found b_of, b_of);
}

-- So may one be taken away from a server of which it is not the primary one.
pub unassign-IsOwned :
    (server : Server) (id : Uuid) (d : Db)
    → Memᴰ server d.servers
    → is_some_of server.allocation_id id ≡ false
    → IsOwned d
    → IsOwned (unassign id server.id d)
unfolding unassign
unassign-IsOwned server id d here other h = record {
  one = h.one;
  owned = λ s j m e.
      let (b, b_found, b_of) = h.owned s j m e in
      let apart : j ≡ id → s.id ≢ server.id = λ same p.
        let eq : s ≡ server = h.one s server m here p in
        let e' : server.allocation_id ≡ some id =
          sym (ap (λ t. t.allocation_id) eq) ∙ e ∙ ap some same in
        ground arith in
      (b, found-unassign id server.id j s.id d b b_found b_of apart, b_of);
}

-- The row that a server's row becomes in `set_primary`.
abbrev promoted : Uuid → Uuid → Server → Server
promoted id server_id s = if s.id == server_id then record s { allocation_id = some id } else s

id-promoted : (id server_id : Uuid) (s : Server) → (promoted id server_id s).id ≡ s.id
id-promoted id server_id s = ground arith

-- And an allocation of a server may become its primary one.
pub set_primary-IsOwned :
    (id server_id : Uuid) (d : Db) (a : Allocation)
    → allocation_by_id id d ≡ some a
    → a.server_id ≡ some server_id
    → IsOwned d
    → IsOwned (set_primary id server_id d)
unfolding set_primary allocation_by_id
set_primary-IsOwned id server_id d a found a_of h = record {
  one = λ s t ms mt e.
      let (s', ms', es) =
        update-Memᴰ (λ s. s.id == server_id) (λ s. record s { allocation_id = some id }) d.servers s
          ms in
      let (t', mt', et) =
        update-Memᴰ (λ s. s.id == server_id) (λ s. record s { allocation_id = some id }) d.servers t
          mt in
      let same : s' ≡ t' = h.one s' t' ms' mt' (ground (arith, es, et, e)) in
      es ∙ ap (promoted id server_id) same ∙ sym et;
  owned = λ s j m e.
      let (s', ms', es) =
        update-Memᴰ (λ s. s.id == server_id) (λ s. record s { allocation_id = some id }) d.servers s
          m in
      elim (Bool-cases (s'.id == server_id)) [
        | inl hit ↦ (a, ground (arith, es, e, hit, found), ground (arith, es, hit, a_of))
        | inr miss ↦
            let eq : s ≡ s' = es ∙ ground (arith, miss) in
            let (b, b_found, b_of) = h.owned s' j ms' (sym (ap (λ t. t.allocation_id) eq) ∙ e) in
            (b, b_found, b_of ∙ ap (λ t. some t.id) (sym eq))
      ];
}
