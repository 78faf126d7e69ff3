-- ===== src/Panel/Settings.antt =====
-- The settings of a server: crates/panel/src/settings.rs. That the caller is an administrator is
-- checked before, where it must be, by the extractor `AdminUser`.
pub mod Machine
pub mod Sets
pub mod Status
mod Examples
use oxydactylus.Base.{
  ℕ, String, Bool, ◌==◌, ◌&&◌, str_eq, Option, none, some, List, [], ◌∷◌, ◌++◌, map, update,
  if◌then◌else◌,
}
use oxydactylus.Base.Int.{ℤ, as_u32}
use oxydactylus.Base.Text.{is_empty}
use oxydactylus.Panel.Error.{validation, db, text, Result, ok, err}
use oxydactylus.Panel.Permissions.{settings_reinstall, settings_rename}
use oxydactylus.Panel.Store.{
  Uuid, Server, Allocation, Db, provision, Panel, pure, raise, lift, attempt, query, execute, send,
  ◌>>=◌, ◌>>◌,
}
use oxydactylus.Panel.Access.{AuthUser, fetch_server, check_server_access, get_node_client}
use oxydactylus.Panel.Network.{allocations_of}
use oxydactylus.Panel.Power.{set_status}
use oxydactylus.Panel.EggVars.{load_egg_env}
use oxydactylus.Panel.EnvMap.{EnvMap, env_map, add_missing, format_entry}

unfoldable pub set_name : Uuid → String → Db → Db
set_name id name d = record d {
  servers = update (λ s. s.id == id) (λ s. record s { name = name }) d.servers;
}

unfoldable pub rename_server : AuthUser → Uuid → String → Panel ℕ
rename_server user id name w =
    if is_empty name
    then raise (validation (text "name cannot be empty")) w
    else (do
      server ← fetch_server id
      check_server_access user server (some settings_rename)
      execute (set_name server.id name)
      pure 204)
        w

-- `fetch_server_ports` of this file asks sqlx for the column `port`, an integer, as texts:
-- `decode_text` is what sqlx makes of one, `mismatch` the text of its error.
module _ (decode_text : ℤ → Option String) (mismatch : String) where
  abbrev pub decode_ports : List Allocation → Result (List String)
  decode_ports [] = ok []
  decode_ports (a ∷ rest) = elim (decode_text a.port) [
    | none ↦ err (db (text mismatch))
    | some port ↦ elim (decode_ports rest) [ ok ports ↦ ok (port ∷ ports) | err e ↦ err e ]
  ]

  unfoldable pub decoded_server_ports : Uuid → Panel (List String)
  decoded_server_ports server_id = do
    rows ← query (allocations_of server_id)
    lift (decode_ports rows)

  -- The task that is spawned; nobody reads its result.
  unfoldable pub reinstall_task : Server → Panel (Unit {0})
  reinstall_task server = do
    client ← get_node_client server.node_id
    ports ← decoded_server_ports server.id
    send client (
        provision server.id server.image (as_u32 server.memory_mb) (as_u32 server.cpu_percent)
          server.env ports)

  -- The task is run before the answer here.
  unfoldable pub reinstall_server : AuthUser → Uuid → Panel ℕ
  reinstall_server user id = do
    server ← fetch_server id
    check_server_access user server (some settings_reinstall)
    attempt (reinstall_task server)
    pure 204

pub record ChangeEggRequest : Type 0 where
  pub egg_id : Uuid
  pub image : String
  pub reset_env : Bool

-- UPDATE servers SET egg_id = $1, image = $2, env = $3 WHERE id = $4
unfoldable pub set_egg : Uuid → Uuid → String → List String → Db → Db
set_egg id egg_id image env d = record d {
  servers =
      update (λ s. s.id == id) (λ s. record s { egg_id = some egg_id; image = image; env = env })
        d.servers;
}

-- `new_regex` is `Regex::new`; `iter` is the order in which a hash map gives its entries.
module _ (new_regex : String → Option (String → Bool)) (iter : EnvMap → EnvMap) where
  abbrev pub env_after : Bool → Server → Result (List String) → List String
  env_after reset_env server (ok egg_env) =
      if reset_env
      then egg_env
      else map format_entry (iter (add_missing egg_env (env_map server.env)))
  env_after reset_env server (err e) =
      if reset_env then [] else map format_entry (iter (env_map server.env))

  unfoldable pub change_egg : Uuid → ChangeEggRequest → Panel ℕ
  change_egg id body = do
    server ← fetch_server id
    egg_env ← attempt (load_egg_env new_regex [] body.egg_id)
    execute (set_egg server.id body.egg_id body.image (env_after body.reset_env server egg_env))
    pure 204

unfoldable pub suspend_server : Uuid → Panel ℕ
suspend_server id = do fetch_server id; execute (set_status id "suspended"); pure 204

-- UPDATE servers SET status = 'stopped' WHERE id = $1 AND status = 'suspended'
unfoldable pub lift_suspension : Uuid → Db → Db
lift_suspension id d = record d {
  servers =
      update (λ s. s.id == id && str_eq s.status "suspended") (λ s. record s { status = "stopped" })
        d.servers;
}

unfoldable pub unsuspend_server : Uuid → Panel ℕ
unsuspend_server id = do fetch_server id; execute (lift_suspension id); pure 204
