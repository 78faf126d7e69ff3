-- ===== src/Panel/Power/Status.antt =====
-- The status of a server after the power handlers of crates/panel/src/servers.rs.
use mathlib.Core.Option
use oxydactylus.Base.{
  ℕ, String, ◌≡◌, ◌≢◌, refl, ◌∙◌, inl, inr, Bool-cases, str_eq, Option, none, some, arith, ◌==◌,
  ==_iff, find-update, find-Memᴰ, if◌then◌else◌,
}
use oxydactylus.Panel.Error.{Result, ok, err}
use oxydactylus.Panel.Permissions.{control_stop, control_restart, control_start}
use oxydactylus.Panel.Store.{
  Uuid, Server, Db, NodeClient, World, Panel, pure, stop, start, attempt, send, execute, ◌>>=◌,
  ◌>>◌,
}
use oxydactylus.Panel.Store.Frame.{
  ok_bind, fetch_one-Quiet, fetch_one_sound, db-send, db-attempt-send, execute_then_pure,
}
use oxydactylus.Panel.Access.{
  AuthUser, server_by_id, fetch_server, check_server_access, get_node_client,
}
use oxydactylus.Panel.Access.Laws.{check_server_access-Quiet}
use oxydactylus.Panel.Access.Guarded.{db-get_node_client}
use oxydactylus.Panel.Power.{
  set_status, settle, launch, relaunch, halt, start_checked, start_server, restart_server,
  stop_server,
}

-- The rows that a status update leaves: the one with the identifier changed, the others not.
pub server_by_id-set_status :
    (i j : Uuid) (st : String) (d : Db)
    → server_by_id j (set_status i st d)
      ≡ Option.map (λ s. if s.id == i then record s { status = st } else s) (server_by_id j d)
unfolding server_by_id set_status
server_by_id-set_status i j st d =
    find-update (λ s. s.id == j) (λ s. s.id == i) (λ s. record s { status = st }) d.servers
      (λ s. refl)

-- The row of `id` has its status set to `st`, and no other row is another than before.
pub record Becomes (id : Uuid) (st : String) (d d' : Db) : Type 0 where
  pub server : Server
  pub before : server_by_id id d ≡ some server
  pub after : server_by_id id d' ≡ some (record server { status = st })
  pub others : (j : Uuid) → j ≢ id → server_by_id j d' ≡ server_by_id j d

pub id_of_found : (id : Uuid) (d : Db) (s : Server) → server_by_id id d ≡ some s → s.id ≡ id
unfolding server_by_id
id_of_found id d s h = (==_iff s.id id).0 (find-Memᴰ (λ t. t.id == id) d.servers s h).1

unchanged :
    (i j : Uuid) (st : String) (o : Option Server)
    → ((s : Server) → o ≡ some s → s.id ≡ j)
    → j ≢ i
    → Option.map (λ (s : Server). if s.id == i then record s { status = st } else s) o ≡ o
unchanged i j st none at ne = refl
unchanged i j st (some s) at ne = ground (arith, at s refl)

pub set_status-Becomes :
    (id : Uuid) (st : String) (d : Db) (s : Server)
    → server_by_id id d ≡ some s
    → Becomes id st d (set_status s.id st d)
set_status-Becomes id st d s found =
    let same : s.id ≡ id = id_of_found id d s found in
    record {
      server = s;
      before = found;
      after = rw (server_by_id-set_status, found) (ground arith);
      others = λ j ne.
          server_by_id-set_status s.id j st d
          ∙ unchanged s.id j st (server_by_id j d) (λ t h. id_of_found j d t h)
              (λ e. ne (e ∙ same));
    }

settle_ok :
    (id : Uuid) (answer : Result (Unit {0})) (w : World)
    → (settle id answer w).0 ≡ ok 204
    → (settle id answer w).1.db ≡ set_status id "running" w.db
unfolding settle execute
settle_ok id (ok u) w h = ground arith
settle_ok id (err e) w h = ground arith

-- A handler goes on with a client after the check and the connection, which leave the tables.
connected_ok :
    (G : World → Type 0) (user : AuthUser) (s : Server) (perm : Option String)
    (f : NodeClient → Panel ℕ) (w : World)
    → ((client : NodeClient) (w' : World)
        → w'.db ≡ w.db
        → (f client w').0 ≡ ok 204
        → G (f client w').1)
    → ((check_server_access user s perm >>= λ _. get_node_client s.node_id >>= f) w).0 ≡ ok 204
    → G ((check_server_access user s perm >>= λ _. get_node_client s.node_id >>= f) w).1
connected_ok G user s perm f w rest =
    ok_bind G (check_server_access user s perm) (λ _. get_node_client s.node_id >>= f) w 204
      (check_server_access-Quiet user s perm w).db
      λ _ w1 same1 _.
        ok_bind G (get_node_client s.node_id) f w1 204 (db-get_node_client s.node_id w1)
          λ client w2 same2 _. rest client w2 (same2 ∙ same1)

module _ (id : Uuid) (s : Server) (d : Db) (found : server_by_id id d ≡ some s) where
  launch_ok :
      (client : NodeClient) (w : World)
      → w.db ≡ d
      → (launch s.id client w).0 ≡ ok 204
      → Becomes id "running" d (launch s.id client w).1.db
  unfolding launch
  launch_ok client w same =
      ok_bind (λ v. Becomes id "running" d v.db) (attempt (send client (start s.id))) (settle s.id)
        w 204 (db-attempt-send client (start s.id) w)
        λ answer w' same' _ h.
          rw (settle_ok s.id answer w' h, same', same) (set_status-Becomes id "running" d s found)

  relaunch_ok :
      (client : NodeClient) (w : World)
      → w.db ≡ d
      → (relaunch s.id client w).0 ≡ ok 204
      → Becomes id "running" d (relaunch s.id client w).1.db
  unfolding relaunch
  relaunch_ok client w same =
      ok_bind (λ v. Becomes id "running" d v.db) (attempt (send client (stop s.id 10)))
        (λ _. launch s.id client) w 204 (db-attempt-send client (stop s.id 10) w)
        λ _ w' same' _. launch_ok client w' (same' ∙ same)

  halt_ok :
      (client : NodeClient) (w : World)
      → w.db ≡ d
      → (halt s.id client w).0 ≡ ok 204
      → Becomes id "stopped" d (halt s.id client w).1.db
  unfolding halt
  halt_ok client w same =
      ok_bind (λ v. Becomes id "stopped" d v.db) (send client (stop s.id 10))
        (λ _. execute (set_status s.id "stopped") >> pure {A = ℕ} 204) w 204
        (db-send client (stop s.id 10) w)
        λ _ w' same' _ h.
          rw (execute_then_pure (set_status s.id "stopped") 204 w' h, same', same)
            (set_status-Becomes id "stopped" d s found)

-- A handler of the three, after the server's row was fetched.
fetched_ok :
    (id : Uuid) (st : String) (f : Server → Panel ℕ) (w : World)
    → ((s : Server) (w' : World)
        → w'.db ≡ w.db
        → server_by_id id w.db ≡ some s
        → (f s w').0 ≡ ok 204
        → Becomes id st w.db (f s w').1.db)
    → ((fetch_server id >>= f) w).0 ≡ ok 204
    → Becomes id st w.db ((fetch_server id >>= f) w).1.db
unfolding fetch_server
fetched_ok id st f w rest =
    ok_bind (λ v. Becomes id st w.db v.db) (fetch_server id) f w 204
      (fetch_one-Quiet (server_by_id id) w).db
      λ s w' same e. rest s w' same (fetch_one_sound (server_by_id id) w s e)

module _ (user : AuthUser) (id : Uuid) (w : World) where
  -- A start that succeeds has found the server, set its status to `running`, and changed the row
  -- of no other server.
  pub start_server_ok :
      (start_server user id w).0 ≡ ok 204 → Becomes id "running" w.db (start_server user id w).1.db
  unfolding start_server start_checked
  start_server_ok = fetched_ok id "running" (start_checked user) w λ s w' same found.
      elim (Bool-cases (str_eq s.status "suspended")) [
        | inl e ↦ rw (e, start_checked) (λ h. cc)
        | inr e ↦
            rw (e, start_checked)
              (connected_ok (λ v. Becomes id "running" w.db v.db) user s (some control_start)
                (launch s.id) w'
                λ client v same'. launch_ok id s w.db found client v (same' ∙ same))
      ]

  -- A restart that succeeds has found the server, set its status to `running`, whatever it was
  -- before, and changed the row of no other server.
  pub restart_server_ok :
      (restart_server user id w).0 ≡ ok 204
      → Becomes id "running" w.db (restart_server user id w).1.db
  unfolding restart_server
  restart_server_ok = fetched_ok id "running" _ w λ s w' same found.
      connected_ok (λ v. Becomes id "running" w.db v.db) user s (some control_restart)
        (relaunch s.id) w' λ client v same'. relaunch_ok id s w.db found client v (same' ∙ same)

  -- A stop that succeeds has found the server, set its status to `stopped`, whatever it was before,
  -- and changed the row of no other server.
  pub stop_server_ok :
      (stop_server user id w).0 ≡ ok 204 → Becomes id "stopped" w.db (stop_server user id w).1.db
  unfolding stop_server
  stop_server_ok = fetched_ok id "stopped" _ w λ s w' same found.
      connected_ok (λ v. Becomes id "stopped" w.db v.db) user s (some control_stop) (halt s.id) w'
        λ client v same'. halt_ok id s w.db found client v (same' ∙ same)
