-- ===== src/Panel/Lifecycle/Deleted.antt =====
-- What a deletion of a server has done: `delete_server` of crates/panel/src/servers.rs.
use mathlib.Core.Path.{subst}
use oxydactylus.Base.{
  delete-Memᴰ, ℕ, not, ◌==◌, ◌≡◌, ◌≢◌, refl, sym, ap, ◌∙◌, Memᴰ, delete, select-Memᴰ, arith,
}
use oxydactylus.Panel.Error.{Result, ok, err}
use oxydactylus.Panel.Store.{
  Uuid, Server, Allocation, Db, World, Panel, NodeClient, stop, attempt, send, pure, execute, ◌>>=◌,
  ◌>>◌,
}
use oxydactylus.Panel.Store
use oxydactylus.Panel.Store.Frame.{ok_bind, fetch_one-Quiet, db-attempt-send, execute_then_pure}
use oxydactylus.Panel.Access.{server_by_id, fetch_server, get_node_client}
use oxydactylus.Panel.Access.Guarded.{db-get_node_client}
use oxydactylus.Panel.Lifecycle.{delete_server_row, take_down, delete_server}

-- The server is gone, the others stay, and so does every allocation, also one of the server.
pub record Deleted (id : Uuid) (d d' : Db) : Type 0 where
  pub gone : (s : Server) → Memᴰ s d'.servers → s.id ≢ id
  pub others : (s : Server) → Memᴰ s d.servers → s.id ≢ id → Memᴰ s d'.servers
  pub allocations : d'.allocations ≡ d.allocations

Deleted-row : (id : Uuid) (d : Db) → Deleted id d (delete_server_row id d)
unfolding delete_server_row delete
Deleted-row id d = record {
  gone = λ s m e.
      let (there, kept) = select-Memᴰ (λ x. not (x.id == id)) d.servers s m in ground arith;
  others = λ s m other. delete-Memᴰ (λ x. x.id == id) d.servers s (ground arith) m;
  allocations = refl;
}

db-take_down : (id : Uuid) (r : Result NodeClient) (w : World) → (take_down id r w).1.db ≡ w.db
unfolding take_down
db-take_down id (err x) w = refl
db-take_down id (ok client) w =
    db-attempt-send client (Store.delete id) (attempt (send client (stop id 10)) w).1
    ∙ db-attempt-send client (stop id 10) w

-- A deletion that succeeds has removed the server and no other one, and has left every allocation
-- as it was: one that was assigned to the server still is.
pub delete_server_ok :
    (id : Uuid) (w : World)
    → (delete_server id w).0 ≡ ok 204
    → Deleted id w.db (delete_server id w).1.db
unfolding delete_server fetch_server
delete_server_ok id w =
    let final : Panel ℕ = execute (delete_server_row id) >> pure 204 in
    let rest : Server → Panel ℕ =
      λ s. attempt (get_node_client s.node_id) >>= λ r. take_down s.id r >> final in
    ok_bind (λ v. Deleted id w.db v.db) (fetch_server id) rest w 204
      (fetch_one-Quiet (server_by_id id) w).db
      λ s w1 same1 _.
        ok_bind (λ v. Deleted id w.db v.db) (attempt (get_node_client s.node_id))
          (λ r. take_down s.id r >> final) w1 204 (db-get_node_client s.node_id w1)
          λ r w2 same2 _.
            ok_bind (λ v. Deleted id w.db v.db) (take_down s.id r) (λ _. final) w2 204
              (db-take_down s.id r w2)
              λ _ w3 same3 _ h.
                let same : w3.db ≡ w.db = same3 ∙ same2 ∙ same1 in
                let last : ((execute (delete_server_row id) >> pure 204) w3).1.db
                    ≡ delete_server_row id w.db =
                  execute_then_pure (delete_server_row id) 204 w3 h
                  ∙ ap (delete_server_row id) same in
                subst (Deleted id w.db) (sym last) (Deleted-row id w.db)
