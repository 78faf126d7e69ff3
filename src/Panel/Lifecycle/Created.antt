-- ===== src/Panel/Lifecycle/Created.antt =====
-- What a creation of a server that succeeds has done: `create_server` of
-- crates/panel/src/servers.rs.
use oxydactylus.Base.{String, Bool, ◌≡◌, Option, none, some, List, ◌++◌, Memᴰ}
use oxydactylus.Base.Int.{ℤ}
use oxydactylus.Panel.Error.{ok}
use oxydactylus.Panel.Store.{Uuid, Time, Server, Allocation, World, Panel}
use oxydactylus.Panel.Access.{AuthUser}
use oxydactylus.Panel.EggVars.{load_egg_env}
use oxydactylus.Panel.Lifecycle.Inserted.{Linked}
use oxydactylus.Panel.Lifecycle.{CreateServerRequest, new_server}

module _ (new_regex : String → Option (String → Bool)) (port_text : ℤ → String) (id : Uuid)
    (now : Time) where
  -- What the part after the statements on the allocation has done to a row: what it returns, and
  -- what stands in the tables.
  abbrev Ready : Server → Server → List Allocation → World → Type 0
  Ready s out allocations w =
      (out ≡ record s { status = "stopped" })
      × Memᴰ out w.db.servers
      × (w.db.allocations ≡ allocations)

  module _ (admin : AuthUser) (body : CreateServerRequest) where
    -- What became of the allocation that was asked for, if there was one.
    abbrev pub LinkedIf : Option Uuid → List Allocation → List Allocation → Type 0
    LinkedIf none before after = after ≡ before
    LinkedIf (some a) before after = Linked id body.node_id a before after

    -- The environment of the new row: that of the request, and behind it what the egg's variables
    -- say.
    abbrev pub EnvOf : Option Uuid → List String → World → Type 0
    EnvOf none env w = env ≡ body.env
    EnvOf (some egg_id) env w =
        (resolved : List String) × ((load_egg_env new_regex body.egg_vars egg_id w).0 ≡ ok resolved)
        × (env ≡ body.env ++ resolved)

    -- What a creation that succeeds has done between two worlds.
    abbrev pub Created : List String → Server → World → World → Type 0
    Created env out w w' =
        (out ≡ record (new_server new_regex port_text id now admin body env) {
          allocation_id = body.allocation_id;
          status = "stopped";
        })
        × Memᴰ out w'.db.servers
        × LinkedIf body.allocation_id w.db.allocations w'.db.allocations
