-- ===== src/Panel/Settings/Sets.antt =====
-- What each part of those handlers does to the column `status`.
use mathlib.Core.Path.{subst}
use oxydactylus.Base.{
  ℕ, String, ◌≡◌, ◌≢◌, refl, sym, ◌∙◌, ap, arith, ◌⊎◌, inl, inr, Option, none, some, List, [], ◌∷◌,
  Memᴰ, ◌==◌, ==_iff, Bool-cases, Option-cases,
}
use oxydactylus.Panel.Error.{Result, ok, err}
use oxydactylus.Panel.Store.{
  Uuid, Server, Db, World, Panel, NodeClient, start, stop, attempt, pure, raise, send, execute,
  ◌>>=◌, ◌>>◌,
}
use oxydactylus.Panel.Store.Frame.{
  kept_bind, execute_cases, attempt_cases, db-send, db-attempt-send,
}
use oxydactylus.Panel.Access.{AuthUser, server_by_id, check_server_access, get_node_client}
use oxydactylus.Panel.Access.Laws.{check_server_access-Quiet}
use oxydactylus.Panel.Access.Guarded.{db-get_node_client}
use oxydactylus.Panel.Power.{set_status, settle, launch, halt, relaunch}
use oxydactylus.Panel.Power.Status.{id_of_found, server_by_id-set_status}
use oxydactylus.Panel.Settings.Machine.{Change, Moves, status_of}

-- The tables are as before, or one server's status is set to one of a list.
pub data Sets (j : Uuid) (sts : List String) (d : Db) : Db → Type 0 where
  unset : (d' : Db) → d' ≡ d → Sets j sts d d'
  set : (d' : Db) (st : String) → Memᴰ st sts → d' ≡ set_status j st d → Sets j sts d d'

pub of_cases :
    {j : Uuid} {sts : List String} {d d' : Db} (st : String)
    → Memᴰ st sts
    → (d' ≡ d) ⊎ (d' ≡ set_status j st d)
    → Sets j sts d d'
of_cases st m (inl e) = unset _ e
of_cases st m (inr e) = set _ st m e

pub rebased :
    {j : Uuid} {sts : List String} {d d0 d' : Db} → d ≡ d0 → Sets j sts d d' → Sets j sts d0 d'
rebased {j} {sts} {d} {d0} {d'} e = subst (λ x. Sets j sts x d') e

settle-Sets :
    (j : Uuid) (answer : Result (Unit {0})) (w : World)
    → Sets j ("running" ∷ "error" ∷ []) w.db (settle j answer w).1.db
unfolding settle
settle-Sets j (ok u) w =
    of_cases "running" (Memᴰ.head refl)
      (execute_cases (set_status j "running") w (λ _. pure {A = ℕ} 204) (λ u v. refl))
settle-Sets j (err e) w =
    of_cases "error" (Memᴰ.tail (Memᴰ.head refl))
      (attempt_cases (set_status j "error") w (λ _. raise {A = ℕ} e) (λ u v. refl))

pub launch-Sets :
    (j : Uuid) (client : NodeClient) (w : World)
    → Sets j ("running" ∷ "error" ∷ []) w.db (launch j client w).1.db
unfolding launch
launch-Sets j client w =
    kept_bind (λ d. Sets j ("running" ∷ "error" ∷ []) w.db d) (attempt (send client (start j)))
      (settle j) w (db-attempt-send client (start j) w) (unset _ refl)
      λ answer w' same _. rebased same (settle-Sets j answer w')

pub relaunch-Sets :
    (j : Uuid) (client : NodeClient) (w : World)
    → Sets j ("running" ∷ "error" ∷ []) w.db (relaunch j client w).1.db
unfolding relaunch
relaunch-Sets j client w =
    kept_bind (λ d. Sets j ("running" ∷ "error" ∷ []) w.db d) (attempt (send client (stop j 10)))
      (λ _. launch j client) w (db-attempt-send client (stop j 10) w) (unset _ refl)
      λ _ w' same _. rebased same (launch-Sets j client w')

pub halt-Sets :
    (j : Uuid) (client : NodeClient) (w : World)
    → Sets j ("stopped" ∷ []) w.db (halt j client w).1.db
unfolding halt
halt-Sets j client w =
    let rest : Panel ℕ = execute (set_status j "stopped") >> pure 204 in
    kept_bind (λ d. Sets j ("stopped" ∷ []) w.db d) (send client (stop j 10)) (λ _. rest) w
      (db-send client (stop j 10) w) (unset _ refl)
      λ _ w' same _. rebased same (
        of_cases "stopped" (Memᴰ.head refl)
          (execute_cases (set_status j "stopped") w' (λ _. pure {A = ℕ} 204) (λ u v. refl)))

-- What comes after the check and the connection.
pub connected_Sets :
    (user : AuthUser) (s : Server) (perm : Option String) (sts : List String)
    (f : NodeClient → Panel ℕ) (w : World)
    → ((client : NodeClient) (v : World) → Sets s.id sts v.db (f client v).1.db)
    → Sets s.id sts w.db
        ((check_server_access user s perm >>= λ _. get_node_client s.node_id >>= f) w).1.db
connected_Sets user s perm sts f w rest =
    kept_bind (λ d. Sets s.id sts w.db d) (check_server_access user s perm)
      (λ _. get_node_client s.node_id >>= f) w (check_server_access-Quiet user s perm w).db
      (unset _ refl)
      λ _ w1 same1 _.
        kept_bind (λ d. Sets s.id sts w.db d) (get_node_client s.node_id) f w1
          (db-get_node_client s.node_id w1) (unset _ same1)
          λ client w2 same2 _. rebased (same2 ∙ same1) (rest client w2)

-- What a request on `j` has made of the status of `id`, which was `s`.
pub data Effect (id j : Uuid) (c : Change) (s : String) (d' : Db) : Type 0 where
  same : status_of id d' ≡ some s → Effect id j c s d'
  moved : (t : String) → j ≡ id → status_of id d' ≡ some t → Moves c s t → Effect id j c s d'

module _ (id j : Uuid) (c : Change) (s : String) (d : Db) (here : status_of id d ≡ some s) where
  -- A server's status is set, or the server is not there, or it is another one.
  pub set_Effect :
      (row : Server) (sts : List String) (d' : Db)
      → server_by_id j d ≡ some row
      → ((st : String) → Memᴰ st sts → row.status ≡ s → Moves c s st)
      → Sets row.id sts d d'
      → Effect id j c s d'
  unfolding status_of
  set_Effect row sts d' found may (unset _ e) = same (rw e here)
  set_Effect row sts d' found may (set _ st m e) = elim (Option-cases (server_by_id id d)) [
    | inl none_is ↦ elim (not_some (rw none_is at here)) [ ]
    | inr (r, at_id) ↦
        let r_id : r.id ≡ id = id_of_found id d r at_id in
        let row_id : row.id ≡ j = id_of_found j d row found in
        let r_status : some r.status ≡ some s = (rw at_id at here) in
        let after = server_by_id-set_status row.id id st d in
        elim (Bool-cases (r.id == row.id)) [
          | inl hit ↦
              let one : r.id ≡ row.id = (==_iff r.id row.id).0 hit in
              let j_id : j ≡ id = sym row_id ∙ sym one ∙ r_id in
              let both : some row ≡ some r = sym found ∙ ap (λ k. server_by_id k d) j_id ∙ at_id in
              moved st j_id (rw (e, after, at_id) (rw hit refl))
                (may st m (ground (arith, both, r_status)))
          | inr miss ↦ same (rw (e, after, at_id) (rw miss r_status))
        ]
  ]
    where
      not_some : ◌≢◌ {A = Option String} none (some s)
      not_some h = cc
