-- ===== src/Panel/Power/Laws.antt =====
-- What the power handlers of crates/panel/src/servers.rs do before they act.
use mathlib.Core.Path.{subst}
use oxydactylus.Base.{◌≢◌, ◌⊎◌, inl, inr, some, arith, str_eq, eq_iff, Bool-cases}
use oxydactylus.Panel.Permissions.{control_start, control_stop, control_restart}
use oxydactylus.Panel.Store.{Uuid, World}
use oxydactylus.Panel.Store.Frame.{Quiet, Quiet-refl}
use oxydactylus.Panel.Access.{AuthUser}
use oxydactylus.Panel.Access.Laws.{Allowed}
use oxydactylus.Panel.Access.Guarded.{Authorised, fetch_first, check_first, Authorised-first}
use oxydactylus.Panel.Power.{start_checked, start_server, stop_server, restart_server}

module _ (user : AuthUser) (id : Uuid) where
  -- A stop changes no table and sends nothing, unless the server exists and the user is an admin,
  -- its owner, or a subuser of it who was granted `control.stop`.
  pub stop_server-guarded :
      (w : World) → Quiet w (stop_server user id w).1 ⊎ Authorised user id (some control_stop) w.db
  unfolding stop_server
  stop_server-guarded w = Authorised-first user id (some control_stop) _ w

  -- A restart changes no table and sends nothing, unless the server exists and the user is an admin,
  -- its owner, or a subuser of it who was granted `control.restart`.
  pub restart_server-guarded :
      (w : World)
      → Quiet w (restart_server user id w).1 ⊎ Authorised user id (some control_restart) w.db
  unfolding restart_server
  restart_server-guarded w = Authorised-first user id (some control_restart) _ w

  -- A start changes no table and sends nothing, unless the server exists, is not suspended, and the
  -- user is an admin, its owner, or a subuser of it who was granted `control.start`.
  pub start_server-guarded :
      (w : World)
      → Quiet w (start_server user id w).1
        ⊎ ((a : Authorised user id (some control_start) w.db) × (a.server.status ≢ "suspended"))
  unfolding start_server start_checked
  start_server-guarded w = fetch_first _ id (start_checked user) w λ s w' found same.
      elim (Bool-cases (str_eq s.status "suspended")) [
        | inl e ↦ rw (e, start_checked) (inl (Quiet-refl w'))
        | inr e ↦
            rw (e, start_checked)
              (check_first _ user s (some control_start) _ w' λ a. (
                record {
                  server = s;
                  found = found;
                  allowed = subst (λ d. Allowed user s (some control_start) d) same a;
                },
                λ p. ground (arith, eq_iff s.status "suspended"),
              ))
      ]
