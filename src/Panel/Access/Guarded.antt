-- ===== src/Panel/Access/Guarded.antt =====
-- The shape of a handler that fetches the server and checks the access before anything else.
use oxydactylus.Base.{ap, ◌≡◌, sym, ◌∙◌, ◌⊎◌, inr, Option, some, String, arith}
use mathlib.Core.Path.{subst}
use oxydactylus.Panel.Error.{ok}
use oxydactylus.Panel.Store.{
  Uuid, Server, Db, World, Panel, open_client, query, pure, fetch_one, ◌>>=◌,
}
use oxydactylus.Panel.Store.Frame.{
  Quiet, fetch_one-Quiet, fetch_one_sound, guarded_bind, kept_bind, ok_at, Quiet-trans,
}
use oxydactylus.Panel.Access.{
  AuthUser, server_by_id, fetch_server, check_server_access, get_node_client,
  load_server_with_access,
}
use oxydactylus.Panel.Access.Laws.{Allowed, check_server_access_sound, check_server_access-Quiet}

-- The server exists, and the user may act on it with the permission.
pub record Authorised (user : AuthUser) (id : Uuid) (perm : Option String) (d : Db) : Type 0 where
  pub server : Server
  pub found : server_by_id id d ≡ some server
  pub allowed : Allowed user server perm d

module _ {B : Type 0} (P : Type 0) where
  pub fetch_first :
      (id : Uuid) (f : Server → Panel B) (w : World)
      → ((s : Server) (w' : World)
          → server_by_id id w.db ≡ some s
          → w'.db ≡ w.db
          → Quiet w' (f s w').1 ⊎ P)
      → Quiet w ((fetch_server id >>= f) w).1 ⊎ P
  unfolding fetch_server
  fetch_first id f w rest =
      let q = fetch_one-Quiet (server_by_id id) w in
      guarded_bind P (fetch_server id) f w q
        (λ s e. rest s (fetch_server id w).1 (fetch_one_sound (server_by_id id) w s e) q.db)

  pub check_first :
      (user : AuthUser) (server : Server) (perm : Option String) (f : Unit {0} → Panel B)
      (w : World)
      → (Allowed user server perm w.db → P)
      → Quiet w ((check_server_access user server perm >>= f) w).1 ⊎ P
  check_first user server perm f w p =
      guarded_bind P (check_server_access user server perm) f w
        (check_server_access-Quiet user server perm w)
        (λ u e. inr (p (check_server_access_sound user server perm w e)))

-- Both, one after the other: unless the user is authorised, the handler changes nothing.
pub Authorised-first :
    {B : Type 0} (user : AuthUser) (id : Uuid) (perm : Option String)
    (f : Server → Unit {0} → Panel B) (w : World)
    → Quiet w ((fetch_server id >>= λ s. check_server_access user s perm >>= f s) w).1
      ⊎ Authorised user id perm w.db
Authorised-first user id perm f w =
    fetch_first (Authorised user id perm w.db) id _ w λ s w' found same.
      check_first (Authorised user id perm w.db) user s perm (f s) w' λ a. record {
        server = s;
        found = found;
        allowed = subst (λ d. Allowed user s perm d) same a;
      }

pub db-get_node_client : (node_id : Uuid) (w : World) → (get_node_client node_id w).1.db ≡ w.db
unfolding get_node_client open_client query
db-get_node_client node_id w = ground arith

-- What such a handler keeps of the tables, it keeps by what comes after the check.
pub kept_checked :
    {B : Type 0} (G : Db → Type 0) (user : AuthUser) (id : Uuid) (perm : Option String)
    (f : Server → Unit {0} → Panel B) (w : World)
    → G w.db
    → ((s : Server) (u : Unit {0}) (w' : World)
        → w'.db ≡ w.db
        → server_by_id id w.db ≡ some s
        → G (f s u w').1.db)
    → G ((fetch_server id >>= λ s. check_server_access user s perm >>= f s) w).1.db
unfolding fetch_server
kept_checked G user id perm f w g rest =
    kept_bind G (fetch_server id) (λ s. check_server_access user s perm >>= f s) w
      (fetch_one-Quiet (server_by_id id) w).db g
      λ s w1 same1 e.
        kept_bind G (check_server_access user s perm) (f s) w1
          (check_server_access-Quiet user s perm w1).db (subst G (sym same1) g)
          λ u w2 same2 _. rest s u w2 (same2 ∙ same1) (fetch_one_sound (server_by_id id) w s e)

-- Where such a handler succeeds, the user was authorised, and the rest has begun in a state that
-- differs in nothing but the faults to come.
pub ok_checked :
    {B : Type 0} (G : World → Type 0) (user : AuthUser) (id : Uuid) (perm : Option String)
    (f : Server → Unit {0} → Panel B) (w : World) (b : B)
    → ((s : Server) (u : Unit {0}) (w' : World)
        → Quiet w w'
        → server_by_id id w.db ≡ some s
        → Authorised user id perm w.db
        → (f s u w').0 ≡ ok b
        → G (f s u w').1)
    → ((fetch_server id >>= λ s. check_server_access user s perm >>= f s) w).0 ≡ ok b
    → G ((fetch_server id >>= λ s. check_server_access user s perm >>= f s) w).1
unfolding fetch_server
ok_checked G user id perm f w b rest =
    ok_at G (fetch_server id) (λ s. check_server_access user s perm >>= f s) w b
      λ s e.
        let w1 = (fetch_server id w).1 in
        let found = fetch_one_sound (server_by_id id) w s e in
        let q1 = fetch_one-Quiet (server_by_id id) w in
        ok_at G (check_server_access user s perm) (f s) w1 b λ u e2.
          rest s u (check_server_access user s perm w1).1
            (Quiet-trans q1 (check_server_access-Quiet user s perm w1)) found
            record {
              server = s;
              found = found;
              allowed =
                  subst (λ d. Allowed user s perm d) q1.db
                    (check_server_access_sound user s perm w1 e2);
            }

-- What `load_server_with_access` has found when it succeeds.
pub load_server_with_access_ok :
    (user : AuthUser) (id : Uuid) (perm : Option String) (w : World) (server : Server)
    → (load_server_with_access user id perm w).0 ≡ ok server
    → Quiet w (load_server_with_access user id perm w).1
      × (server_by_id id w.db ≡ some server)
      × Authorised user id perm w.db
unfolding load_server_with_access
load_server_with_access_ok user id perm w server =
    ok_checked
      (λ v. Quiet w v × (server_by_id id w.db ≡ some server) × Authorised user id perm w.db) user id
      perm (λ s _. pure s) w server λ s _ w' q found a h. (q, found ∙ ap some (ground arith), a)

pub load_server_with_access-Quiet :
    (user : AuthUser) (id : Uuid) (perm : Option String) (w : World)
    → Quiet w (load_server_with_access user id perm w).1
unfolding load_server_with_access fetch_server fetch_one check_server_access query
load_server_with_access-Quiet user id perm w = ground arith
