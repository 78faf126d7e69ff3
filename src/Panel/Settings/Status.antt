-- ===== src/Panel/Settings/Status.antt =====
-- That the handlers which change the status of a server follow the machine of Machine: the power
-- handlers of crates/panel/src/servers.rs with `suspend_server` and `unsuspend_server` of
-- crates/panel/src/settings.rs.
use mathlib.Core.Path.{subst}
use oxydactylus.Base.{
  ℕ, String, false, ◌≡◌, ◌≢◌, refl, sym, ◌∙◌, arith, inl, inr, Option, none, some, List, [], ◌∷◌,
  Memᴰ, ◌==◌, ==_iff, ◌&&◌, str_eq, eq_iff, Bool-cases, Option-cases, find, find-update,
}
use oxydactylus.Panel.Permissions.{control_start, control_stop, control_restart}
use oxydactylus.Panel.Store.{Uuid, Server, World, Panel, pure, ◌>>=◌}
use oxydactylus.Panel.Store.Frame.{kept_bind, execute_cases, fetch_one-Quiet, fetch_one_sound}
use oxydactylus.Panel.Access.{AuthUser, server_by_id, fetch_server}
use oxydactylus.Panel.Power.{
  set_status, launch, halt, relaunch, start_checked, start_server, stop_server, restart_server,
}
use oxydactylus.Panel.Power.Status.{id_of_found}
use oxydactylus.Panel.Settings.{suspend_server, lift_suspension, unsuspend_server}
use oxydactylus.Panel.Settings.Machine.{
  Change, starting, stopping, restarting, suspending, unsuspending, apply, apply_all, Moves, stays,
  starts, start_fails, stops, restarts, restart_fails, suspends, unsuspends, Runs, finished, mine,
  foreign, status_of,
}
use oxydactylus.Panel.Settings.Sets.{
  rebased, of_cases, launch-Sets, relaunch-Sets, halt-Sets, connected_Sets, Effect, same, moved,
  set_Effect,
}

-- One of a list of two texts, or of one.
of_two :
    (P : String → Type 0) (a b : String) → P a → P b → (st : String) → Memᴰ st (a ∷ b ∷ []) → P st
of_two P a b pa pb st (Memᴰ.head e) = subst P (sym e) pa
of_two P a b pa pb st (Memᴰ.tail (Memᴰ.head e)) = subst P (sym e) pb
of_two P a b pa pb st (Memᴰ.tail (Memᴰ.tail m)) = elim m [ ]

of_one : (P : String → Type 0) (a : String) → P a → (st : String) → Memᴰ st (a ∷ []) → P st
of_one P a pa st (Memᴰ.head e) = subst P (sym e) pa
of_one P a pa st (Memᴰ.tail m) = elim m [ ]

module _ (id j : Uuid) (s : String) (w : World) (here : status_of id w.db ≡ some s) where
  -- The handlers that fetch the server first.
  fetched_Effect :
      (c : Change) (f : Server → Panel ℕ)
      → ((row : Server) (v : World)
          → v.db ≡ w.db
          → server_by_id j w.db ≡ some row
          → Effect id j c s (f row v).1.db)
      → Effect id j c s ((fetch_server j >>= f) w).1.db
  unfolding fetch_server
  fetched_Effect c f rest =
      kept_bind (λ d. Effect id j c s d) (fetch_server j) f w
        (fetch_one-Quiet (server_by_id j) w).db (same here)
        λ row v e found. rest row v e (fetch_one_sound (server_by_id j) w row found)

  start_Effect : (user : AuthUser) → Effect id j (starting user) s (start_server user j w).1.db
  unfolding start_server start_checked
  start_Effect user = fetched_Effect (starting user) (start_checked user) λ row v e found.
      elim (Bool-cases (str_eq row.status "suspended")) [
        | inl held ↦ rw held (same (rw e here))
        | inr free ↦ rw free (
            set_Effect id j (starting user) s w.db here row ("running" ∷ "error" ∷ []) _ found
              (may row free)
              (rebased e (
                connected_Sets user row (some control_start) ("running" ∷ "error" ∷ [])
                  (launch row.id) v (launch-Sets row.id))))
      ]
    where
      may :
          (row : Server)
          → str_eq row.status "suspended" ≡ false
          → (st : String) → Memᴰ st ("running" ∷ "error" ∷ [])
          → row.status ≡ s
          → Moves (starting user) s st
      may row free st m e =
          let other : s ≢ "suspended" =
            λ h. let hit = (eq_iff row.status "suspended").1 (e ∙ h) in cc in
          of_two (λ t. Moves (starting user) s t) "running" "error" (starts user s other)
            (start_fails user s other) st m

  stop_Effect : (user : AuthUser) → Effect id j (stopping user) s (stop_server user j w).1.db
  unfolding stop_server
  stop_Effect user = fetched_Effect (stopping user) _ λ row v e found.
      set_Effect id j (stopping user) s w.db here row ("stopped" ∷ []) _ found
        (λ st m _. of_one (λ t. Moves (stopping user) s t) "stopped" (stops user s) st m)
        (rebased e (
          connected_Sets user row (some control_stop) ("stopped" ∷ []) (halt row.id) v
            (halt-Sets row.id)))

  restart_Effect :
      (user : AuthUser) → Effect id j (restarting user) s (restart_server user j w).1.db
  unfolding restart_server
  restart_Effect user = fetched_Effect (restarting user) _ λ row v e found.
      set_Effect id j (restarting user) s w.db here row ("running" ∷ "error" ∷ []) _ found
        (λ st m _.
          of_two (λ t. Moves (restarting user) s t) "running" "error" (restarts user s)
            (restart_fails user s) st m)
        (rebased e (
          connected_Sets user row (some control_restart) ("running" ∷ "error" ∷ [])
            (relaunch row.id) v (relaunch-Sets row.id)))

  suspend_Effect : Effect id j suspending s (suspend_server j w).1.db
  unfolding suspend_server
  suspend_Effect = fetched_Effect suspending _ λ row v e found.
      set_Effect id j suspending s w.db here row ("suspended" ∷ []) _ found
        (λ st m _. of_one (λ t. Moves suspending s t) "suspended" (suspends s) st m)
        (rw (id_of_found j w.db row found) (
          rebased e (
            of_cases "suspended" (Memᴰ.head refl)
              (execute_cases (set_status j "suspended") v (λ _. pure {A = ℕ} 204) (λ u v. refl)))))

  lifted : Effect id j unsuspending s (lift_suspension j w.db)
  unfolding lift_suspension status_of server_by_id
  lifted =
      let p = λ (x : Server). x.id == j && str_eq x.status "suspended" in
      let after =
        find-update (λ x. x.id == id) p (λ x. record x { status = "stopped" }) w.db.servers
          (λ x. refl) in
      elim (Option-cases (find (λ x. x.id == id) w.db.servers)) [
        | inl none_is ↦ elim (not_some (rw none_is at here)) [ ]
        | inr (r, at_id) ↦
            let r_id : r.id ≡ id = id_of_found id w.db r at_id in
            let r_status : some r.status ≡ some s = (rw at_id at here) in
            elim (Bool-cases (r.id == j && str_eq r.status "suspended")) [
              | inl hit ↦
                  let j_id : j ≡ id = ground (arith, r_id) in
                  let held : r.status ≡ "suspended" =
                    (eq_iff r.status "suspended").0 (ground (arith, hit)) in
                  let held' : s ≡ "suspended" = ground (arith, r_status, held) in
                  moved "stopped" j_id (rw (after, at_id) (rw hit refl))
                    (subst (λ x. Moves unsuspending x "stopped") (sym held') unsuspends)
              | inr miss ↦ same (rw (after, at_id) (rw miss r_status))
            ]
      ]
    where
      not_some : ◌≢◌ {A = Option String} none (some s)
      not_some h = cc

  unsuspend_Effect : Effect id j unsuspending s (unsuspend_server j w).1.db
  unfolding unsuspend_server
  unsuspend_Effect = fetched_Effect unsuspending _ λ row v e found.
      elim (execute_cases (lift_suspension j) v (λ _. pure {A = ℕ} 204) (λ u v. refl)) [
        | inl kept ↦ same (rw (kept, e) here)
        | inr done ↦ rw (done, e) lifted
      ]

apply-Effect :
    (id j : Uuid) (c : Change) (s : String) (w : World)
    → status_of id w.db ≡ some s
    → Effect id j c s (apply (j, c) w).1.db
unfolding apply
apply-Effect id j (starting user) s w here = start_Effect id j s w here user
apply-Effect id j (stopping user) s w here = stop_Effect id j s w here user
apply-Effect id j (restarting user) s w here = restart_Effect id j s w here user
apply-Effect id j suspending s w here = suspend_Effect id j s w here
apply-Effect id j unsuspending s w here = unsuspend_Effect id j s w here

-- Under any requests that may change the status of a server, of this one or of others, whatever
-- fails on the way, the server stays in the table and its status goes a way that the machine
-- allows on these requests.
pub apply_all-Runs :
    (id : Uuid) (cs : List (Uuid × Change)) (s : String) (w : World)
    → status_of id w.db ≡ some s
    → (t : String) × (status_of id (apply_all cs w).db ≡ some t) × Runs id cs s t
unfolding apply_all
apply_all-Runs id [] s w here = (s, here, finished s)
apply_all-Runs id ((j, c) ∷ cs) s w here =
    go (apply-Effect id j c s w here) (λ t e. apply_all-Runs id cs t (apply (j, c) w).1 e)
  where
    go :
        Effect id j c s (apply (j, c) w).1.db
        → ((t : String)
            → status_of id (apply (j, c) w).1.db ≡ some t
            → (u : String) × (status_of id (apply_all cs (apply (j, c) w).1).db ≡ some u)
              × Runs id cs t u)
        → (u : String) × (status_of id (apply_all cs (apply (j, c) w).1).db ≡ some u)
          × Runs id ((j, c) ∷ cs) s u
    go (same e) rest =
        let (u, at_end, run) = rest s e in
        elim (Bool-cases (j == id)) [
          | inl is_id ↦ (
            u,
            at_end,
            subst (λ k. Runs id ((k, c) ∷ cs) s u) (sym ((==_iff j id).0 is_id))
                (mine c cs s s u (stays c s) run),
          )
          | inr other ↦ (u, at_end, foreign j c cs s u (λ h. let y = (==_iff j id).1 h in cc) run)
        ]
    go (moved t is_id e m) rest =
        let (u, at_end, run) = rest t e in
        (u, at_end, subst (λ k. Runs id ((k, c) ∷ cs) s u) (sym is_id) (mine c cs s t u m run))
