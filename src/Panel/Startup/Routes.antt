-- ===== src/Panel/Startup/Routes.antt =====
-- The routes of crates/panel/src/startup.rs. That the caller of the last one is an administrator is
-- checked before by the extractor `AdminUser`.
use oxydactylus.Base.{ℕ, String, Bool, Option, none, some, List, [], map, if◌then◌else◌}
use oxydactylus.Base.Text.{is_empty}
use oxydactylus.Panel.Error.{validation, text}
use oxydactylus.Panel.Store.{Uuid, Server, Panel, pure, raise, lift, query, execute, ◌>>=◌, ◌>>◌}
use oxydactylus.Panel.Access.{AuthUser, load_server_with_access}
use oxydactylus.Panel.EggVars.{get, variables_of}
use oxydactylus.Panel.EnvMap.{EnvMap, env_map, format_entry}
use oxydactylus.Panel.Startup.{
  StartupVariable, startup_of, find_value, set_env, set_image, update_variables,
}

unfoldable pub startup_with_egg : AuthUser → Server → Option Uuid → Panel (List StartupVariable)
startup_with_egg user server none = pure []
startup_with_egg user server (some egg_id) = do
  egg_vars ← query (variables_of egg_id)
  pure (startup_of user (λ name. get name (env_map server.env)) egg_vars)

unfoldable pub get_startup : AuthUser → Uuid → Panel (List StartupVariable)
get_startup user server_id = do
  server ← load_server_with_access user server_id none
  startup_with_egg user server server.egg_id

-- `new_regex` is `Regex::new`; `iter` is the order in which a hash map gives its entries.
module _ (new_regex : String → Option (String → Bool)) (iter : EnvMap → EnvMap) (user : AuthUser)
    (variables : EnvMap) where
  -- The part of `update_startup` that knows the server and its egg.
  unfoldable pub update_with_egg : Uuid → Server → Option Uuid → Panel (List StartupVariable)
  update_with_egg server_id server none = raise (validation (text "Server has no egg assigned"))
  update_with_egg server_id server (some egg_id) = do
    egg_vars ← query (variables_of egg_id)
    current_env ← lift (update_variables new_regex user variables egg_vars (env_map server.env))
    execute (set_env server_id (map format_entry (iter current_env)))
    pure (startup_of user (find_value (map format_entry (iter current_env))) egg_vars)

  unfoldable pub update_startup : Uuid → Panel (List StartupVariable)
  update_startup server_id = do
    server ← load_server_with_access user server_id none
    update_with_egg server_id server server.egg_id

unfoldable pub update_docker_image : Uuid → String → Panel ℕ
update_docker_image server_id image w =
    if is_empty image
    then raise (validation (text "image cannot be empty")) w
    else (execute (set_image server_id image) >> pure 204) w
