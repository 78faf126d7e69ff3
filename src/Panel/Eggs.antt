-- ===== src/Panel/Eggs.antt =====
-- The eggs, the templates that servers are made from, with their variables, install scripts and
-- configuration files: crates/panel/src/eggs.rs.
pub mod Configs
pub mod Import
pub mod Export
pub mod Texts
pub mod Document
pub mod Sections
pub mod Exported
pub mod Absent
pub mod Imported
pub mod Completed
pub mod References
pub mod Roundtrip
mod Examples
use oxydactylus.Base.{
  ℕ, String, Bool, ◌==◌, ◌&&◌, ◌||◌, not, ltb, str_eq, is_some_of, Option, none, some, List, [],
  ◌∷◌, ◌++◌, any, find, select, update, delete, count, order_by, if◌then◌else◌,
}
use oxydactylus.Base.Text.{is_empty}
use oxydactylus.Panel.Error.{
  validation, not_found, of_id, text, Result, ok, err, constraint, from_sqlx, row_not_found,
}
use oxydactylus.Panel.Store.{
  Uuid, Time, Egg, EggVariable, InstallScript, ConfigFile, Db, Panel, pure, raise, lift, query,
  fetch_one, statement, or_raise, ◌>>=◌, ◌>>◌,
}
use oxydactylus.Panel.EggVars.{variables_of}

-- The body of a request, with the values that `serde` puts for what is missing.
pub record CreateEggRequest : Type 0 where
  pub name : String
  pub description : Option String
  pub author : Option String
  pub version : String
  pub features : List String
  pub file_denylist : List String
  pub docker_images : String
  pub start_cmd : String
  pub stop_cmd : String
  pub startup_done : Option String

pub record CreateVariableRequest : Type 0 where
  pub name : String
  pub description : Option String
  pub env_variable : String
  pub default_val : Option String
  pub user_viewable : Bool
  pub user_editable : Bool
  pub rules : Option String
  pub field_type : String

pub record UpsertInstallScriptRequest : Type 0 where
  pub container : String
  pub entrypoint : String
  pub script : String

unfoldable pub list_eggs : Panel (List Egg)
list_eggs = query (λ d. order_by (λ a b. ltb a.created_at b.created_at) d.eggs)

abbrev pub new_egg : Uuid → Time → CreateEggRequest → Egg
new_egg id now body = record {
  id = id;
  name = body.name;
  description = body.description;
  author = body.author;
  version = body.version;
  features = body.features;
  file_denylist = body.file_denylist;
  docker_images = body.docker_images;
  start_cmd = body.start_cmd;
  stop_cmd = body.stop_cmd;
  startup_done = body.startup_done;
  created_at = now;
  updated_at = now;
}

-- INSERT INTO eggs … RETURNING …
unfoldable pub insert_egg : Egg → Db → Egg × Db
insert_egg e d = (e, record d { eggs = d.eggs ++ (e ∷ []) })

unfoldable pub create_egg : Uuid → Time → CreateEggRequest → Panel Egg
create_egg id now body w =
    if is_empty body.name || is_empty body.start_cmd
    then raise (validation (text "name and start_cmd are required")) w
    else statement (insert_egg (new_egg id now body)) w

unfoldable pub get_egg : Uuid → Panel Egg
get_egg id = fetch_one (λ d. find (λ e. e.id == id) d.eggs)

-- `REFERENCES eggs(id)`
abbrev pub has_egg : Uuid → Db → Bool
has_egg id d = any (λ e. e.id == id) d.eggs

-- DELETE FROM eggs WHERE id = $1: a server with the egg stops the deletion, what belongs to the egg
-- goes with it (ON DELETE CASCADE). The result is the number of rows.
unfoldable pub delete_egg_rows : Uuid → Db → Result ℕ × Db
delete_egg_rows id d =
    if has_egg id d && any (λ s. is_some_of s.egg_id id) d.servers
    then (err (from_sqlx (d.violation "servers.egg_id")), d)
    else if has_egg id d
    then (
      ok (count (λ e. e.id == id) d.eggs),
      record d {
        eggs = delete (λ e. e.id == id) d.eggs;
        egg_variables = delete (λ v. v.egg_id == id) d.egg_variables;
        egg_install_scripts = delete (λ s. s.egg_id == id) d.egg_install_scripts;
        egg_config_files = delete (λ f. f.egg_id == id) d.egg_config_files;
      },
    )
    else (ok 0, d)

unfoldable pub removed_part : String → Uuid → ℕ → Panel ℕ
removed_part what id rows w = if rows == 0 then raise (not_found (of_id what id)) w else pure 204 w

unfoldable pub delete_egg : Uuid → Panel ℕ
delete_egg id = do
  deleted ← statement (delete_egg_rows id)
  rows ← lift deleted
  removed_part "egg {}" id rows

-- `collate` is the order that the database has on texts.
module _ (collate : String → String → Bool) where
  unfoldable pub list_variables : Uuid → Panel (List EggVariable)
  list_variables egg_id =
      query (λ d. order_by (λ a b. collate a.name b.name) (variables_of egg_id d))

abbrev pub new_variable : Uuid → Uuid → CreateVariableRequest → EggVariable
new_variable id egg_id body = record {
  id = id;
  egg_id = egg_id;
  name = body.name;
  description = body.description;
  env_variable = body.env_variable;
  default_val = body.default_val;
  user_viewable = body.user_viewable;
  user_editable = body.user_editable;
  rules = body.rules;
  field_type = body.field_type;
}

-- INSERT INTO egg_variables …, which fails where the egg is not there.
unfoldable pub insert_variable : EggVariable → Db → Result EggVariable × Db
insert_variable v d =
    if has_egg v.egg_id d
    then (ok v, record d { egg_variables = d.egg_variables ++ (v ∷ []) })
    else (err (from_sqlx (d.violation "egg_variables.egg_id")), d)

unfoldable pub create_variable : Uuid → Uuid → CreateVariableRequest → Panel EggVariable
create_variable id egg_id body = do
  inserted ← statement (insert_variable (new_variable id egg_id body))
  lift inserted

unfoldable pub delete_variable_rows : Uuid → Uuid → Db → ℕ × Db
delete_variable_rows egg_id id d = (
  count (λ v. v.id == id && v.egg_id == egg_id) d.egg_variables,
  record d { egg_variables = delete (λ v. v.id == id && v.egg_id == egg_id) d.egg_variables },
)

unfoldable pub delete_variable : Uuid → Uuid → Panel ℕ
delete_variable egg_id var_id = do
  rows ← statement (delete_variable_rows egg_id var_id)
  removed_part "variable {}" var_id rows

unfoldable pub get_install_script : Uuid → Panel InstallScript
get_install_script egg_id = fetch_one (λ d. find (λ s. s.egg_id == egg_id) d.egg_install_scripts)

abbrev pub new_script : Uuid → Uuid → UpsertInstallScriptRequest → InstallScript
new_script id egg_id body = record {
  id = id;
  egg_id = egg_id;
  container = body.container;
  entrypoint = body.entrypoint;
  script = body.script;
}

-- `DO UPDATE SET container=$3, entrypoint=$4, script=$5`
abbrev pub rewritten : InstallScript → InstallScript → InstallScript
rewritten s old = record old {
  container = s.container;
  entrypoint = s.entrypoint;
  script = s.script;
}

-- INSERT INTO egg_install_scripts … ON CONFLICT (egg_id) DO UPDATE …, which fails where the egg is
-- not there.
unfoldable pub put_script : InstallScript → Db → Result (Unit {0}) × Db
put_script s d =
    if any (λ t. t.egg_id == s.egg_id) d.egg_install_scripts
    then (
      ok tt,
      record d {
        egg_install_scripts =
            update (λ t. t.egg_id == s.egg_id) (rewritten s) d.egg_install_scripts;
      },
    )
    else if has_egg s.egg_id d
    then (ok tt, record d { egg_install_scripts = d.egg_install_scripts ++ (s ∷ []) })
    else (err (from_sqlx (d.violation "egg_install_scripts.egg_id")), d)

-- … RETURNING the row.
unfoldable pub upsert_script : InstallScript → Db → Result (Option InstallScript) × Db
upsert_script s d =
    let (done, d') = put_script s d in
    (returned done (find (λ t. t.egg_id == s.egg_id) d'.egg_install_scripts), d')
  where
    returned : Result (Unit {0}) → Option InstallScript → Result (Option InstallScript)
    returned (ok u) row = ok row
    returned (err e) row = err e

unfoldable pub upsert_install_script :
    Uuid → Uuid → UpsertInstallScriptRequest → Panel InstallScript
upsert_install_script id egg_id body = do
  upserted ← statement (upsert_script (new_script id egg_id body))
  row ← lift upserted
  or_raise (from_sqlx row_not_found) row
