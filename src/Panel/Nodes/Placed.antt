-- ===== src/Panel/Nodes/Placed.antt =====
-- That every server's node stays in the tables: the deletion of crates/panel/src/nodes.rs.
use mathlib.Core.Path.{subst}
use oxydactylus.Base.{
  ℕ, false, ◌≡◌, refl, sym, ◌∙◌, arith, ◌==◌, Memᴰ, any, any-eq-false, delete-Memᴰ, Bool-cases, inl,
  inr,
}
use oxydactylus.Panel.Store.{Uuid, Server, NodeRow, Db, World, lift}
use oxydactylus.Panel.Store.Frame.{kept_bind, kept_statement}
use oxydactylus.Panel.Nodes.{delete_node_rows, removed_node, delete_node}

-- The node of every server is in the tables.
abbrev pub IsPlaced : Db → Type 0
IsPlaced d = (s : Server) → Memᴰ s d.servers → (n : NodeRow) × Memᴰ n d.nodes × (n.id ≡ s.node_id)

delete_node_rows-IsPlaced : (id : Uuid) (d : Db) → IsPlaced d → IsPlaced (delete_node_rows id d).1
unfolding delete_node_rows
delete_node_rows-IsPlaced id d placed = elim (Bool-cases (any (λ n. n.id == id) d.nodes)) [
  | inr absent ↦ rw absent placed
  | inl there ↦ elim (Bool-cases (any (λ s. s.node_id == id) d.servers)) [
    | inl used ↦ rw (there, used) placed
    | inr unused ↦
        rw (there, unused)
          λ s ms.
            let (n, mn, at) = placed s ms in
            let other : (s.node_id == id) ≡ false =
              any-eq-false (λ (t : Server). t.node_id == id) d.servers s unused ms in
            (n, delete-Memᴰ (λ (m : NodeRow). m.id == id) d.nodes n (rw at other) mn, at)
  ]
]

db-removed_node : (id : Uuid) (rows : ℕ) (w : World) → (removed_node id rows w).1.db ≡ w.db
unfolding removed_node
db-removed_node id rows w = ground arith

-- If every server's node is in the tables, it is so after a request to delete a node, whatever the
-- answer is.
delete_node-IsPlaced : (id : Uuid) (w : World) → IsPlaced w.db → IsPlaced (delete_node id w).1.db
unfolding delete_node
delete_node-IsPlaced id w placed =
    kept_statement IsPlaced (delete_node_rows id) _ w placed λ r w1 now_is _.
      let kept : IsPlaced w1.db =
        subst IsPlaced (sym now_is) (delete_node_rows-IsPlaced id w.db placed) in
      kept_bind IsPlaced (lift r) _ w1 refl kept
        λ rows w2 same _. subst IsPlaced (sym (db-removed_node id rows w2 ∙ same)) kept
