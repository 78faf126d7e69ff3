-- ===== src/Panel/Startup.antt =====
-- The variables of a server: crates/panel/src/startup.rs.
pub mod Routes
pub mod Editable
mod Examples
use oxydactylus.Base.{
  ℕ, String, Bool, ◌==◌, ◌&&◌, not, str_eq, Option, none, some, List, [], ◌∷◌, map, update,
  if◌then◌else◌,
}
use oxydactylus.Base.Text.{split_once, is_empty}
use oxydactylus.Panel.Error.{PanelError, validation, of_text, text, Result, ok, err, ◌>>=◌}
use oxydactylus.Panel.Store.{
  Uuid, Server, EggVariable, Db, Panel, pure, raise, lift, query, execute,
}
use oxydactylus.Panel.Access.{AuthUser, load_server_with_access}
use oxydactylus.Panel.EggVars.{get, or_else, or_default, variables_of, check_value}
use oxydactylus.Panel.EnvMap.{EnvMap, insert, env_map, format_entry}

pub record StartupVariable : Type 0 where
  pub env_variable : String
  pub name : String
  pub description : Option String
  pub value : String
  pub default_val : Option String
  pub user_editable : Bool
  pub user_viewable : Bool
  pub field_type : String
  pub rules : Option String

abbrev pub startup_variable : EggVariable → Option String → StartupVariable
startup_variable v value = record {
  env_variable = v.env_variable;
  name = v.name;
  description = v.description;
  value = or_default (or_else value v.default_val);
  default_val = v.default_val;
  user_editable = v.user_editable;
  user_viewable = v.user_viewable;
  field_type = v.field_type;
  rules = v.rules;
}

-- The loop that makes the response; `current` is where a value is looked up.
unfoldable pub startup_of :
    AuthUser → (String → Option String) → List EggVariable → List StartupVariable
startup_of user current [] = []
startup_of user current (v ∷ vs) =
    let rest = startup_of user current vs in
    if not user.is_admin && not v.user_viewable
    then rest
    else startup_variable v (current v.env_variable) ∷ rest

abbrev pub value_if : String → Option (String × String) → Option String
value_if name none = none
value_if name (some (k, v)) = if str_eq k name then some v else none

-- `new_env.iter().find_map(…)`
abbrev pub find_value : List String → String → Option String
find_value [] name = none
find_value (e ∷ es) name = or_else (value_if name (split_once b'=' e)) (find_value es name)

-- UPDATE servers SET env = $1 WHERE id = $2
unfoldable pub set_env : Uuid → List String → Db → Db
set_env id env d = record d {
  servers = update (λ s. s.id == id) (λ s. record s { env = env }) d.servers;
}

unfoldable pub set_image : Uuid → String → Db → Db
set_image id image d = record d {
  servers = update (λ s. s.id == id) (λ s. record s { image = image }) d.servers;
}

-- `new_regex` is `Regex::new`.
module _ (new_regex : String → Option (String → Bool)) (user : AuthUser) (variables : EnvMap) where
  -- The body of the loop of `update_startup`.
  unfoldable pub update_variable : EggVariable → Option String → EnvMap → Result EnvMap
  update_variable v none env = ok env
  update_variable v (some new_val) env =
      if not v.user_editable && not user.is_admin
      then err (validation (of_text "{} is not user-editable" v.env_variable))
      else (check_value new_regex [] v.env_variable new_val v.rules >>= λ _.
          ok (insert v.env_variable new_val env))

  unfoldable pub update_variables : List EggVariable → EnvMap → Result EnvMap
  update_variables [] env = ok env
  update_variables (v ∷ vs) env =
      update_variable v (get v.env_variable variables) env >>= update_variables vs
