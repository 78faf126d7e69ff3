-- ===== src/Panel/Startup/Examples.antt =====
-- A change of the variables of a server by its owner.
use oxydactylus.Base.{
  String, Bool, true, false, ◌≡◌, refl, sym, ap, ◌∙◌, str_eq, eq_iff, Option, none, some, List, [],
  ◌∷◌, Memᴰ, find, select,
}
use oxydactylus.Base.Text.{split_once, contains_char}
use oxydactylus.Panel.Error.{ok, err, validation, of_text}
use oxydactylus.Panel.Store.{Server, EggVariable, Db, calm, query, fetch_one, execute}
use oxydactylus.Panel.Access.{
  server_by_id, fetch_server, check_server_access, load_server_with_access,
}
use oxydactylus.Panel.Access.Guarded.{Authorised}
use oxydactylus.Panel.Sample.{sample_db, server_of, owner_user}
use oxydactylus.Panel.EggVars.{variables_of}
use oxydactylus.Panel.EnvMap.{EnvMap, env_map}
use oxydactylus.Panel.EnvMap.Stored.{IsOrder}
use oxydactylus.Panel.Startup.{
  StartupVariable, startup_of, startup_variable, set_env, update_variable, update_variables,
}
use oxydactylus.Panel.Startup.Routes.{update_with_egg, update_startup}
use oxydactylus.Panel.Startup.Editable.{Kept, NotEditable, AreNamed, update_startup-Kept}

abbrev variable : String → Bool → EggVariable
variable name editable = record {
  id = 60;
  egg_id = 5;
  name = name;
  description = none;
  env_variable = name;
  default_val = some "1";
  user_viewable = true;
  user_editable = editable;
  rules = none;
  field_type = "text";
}

abbrev egg_server : Server
egg_server = record (server_of 12 7 "stopped") {
  egg_id = some 5;
  env = "EULA=true" ∷ "SEED=7" ∷ [];
}

abbrev egg_db : Db
egg_db = record sample_db {
  servers = egg_server ∷ [];
  egg_variables = variable "EULA" false ∷ variable "SEED" true ∷ [];
}

abbrev no_regex : String → Option (String → Bool)
no_regex _ = none

abbrev in_order : EnvMap → EnvMap
in_order m = m

routes : Unit {0}
unfolding update_startup update_with_egg load_server_with_access fetch_server fetch_one query
    check_server_access server_by_id find select variables_of env_map split_once update_variables
    update_variable execute set_env startup_of
routes = tt

abbrev answer : List StartupVariable
answer =
    startup_variable (variable "EULA" false) (some "true")
    ∷ startup_variable (variable "SEED" true) (some "9")
    ∷ []

update_test :
    (update_startup no_regex in_order owner_user (("SEED", "9") ∷ []) 12 (calm egg_db)).0
    ≡ ok answer
unfolding routes
update_test = refl

refused_test :
    (update_startup no_regex in_order owner_user (("EULA", "false") ∷ []) 12 (calm egg_db)).0
    ≡ err (validation (of_text "{} is not user-editable" "EULA"))
unfolding routes
refused_test = refl

found : server_by_id 12 egg_db ≡ some egg_server
unfolding routes
found = refl

fixed : NotEditable "EULA" (variables_of 5 egg_db)
unfolding routes
fixed v (Memᴰ.head e) h = rw e refl
fixed v (Memᴰ.tail (Memᴰ.head e)) h =
    let same : str_eq "SEED" "EULA" ≡ true =
      (eq_iff "SEED" "EULA").1 (ap (λ (x : EggVariable). x.env_variable) (sym e) ∙ h) in
    cc
fixed v (Memᴰ.tail (Memᴰ.tail m)) h = elim m [ ]

in_order-IsOrder : IsOrder in_order
in_order-IsOrder m once = (once, λ k. refl)

named : AreNamed (variables_of 5 egg_db)
unfolding routes contains_char
named v (Memᴰ.head e) = rw e refl
named v (Memᴰ.tail (Memᴰ.head e)) = rw e refl
named v (Memᴰ.tail (Memᴰ.tail m)) = elim m [ ]

update_startup-Kept_example :
    Authorised owner_user 12 none egg_db
    × Kept 12 egg_server "EULA" egg_db
        (update_startup no_regex in_order owner_user (("SEED", "9") ∷ []) 12 (calm egg_db)).1.db
update_startup-Kept_example =
    update_startup-Kept no_regex owner_user (("SEED", "9") ∷ []) refl in_order 12 5 egg_server
      "EULA" (calm egg_db) answer update_test found refl in_order-IsOrder fixed named
