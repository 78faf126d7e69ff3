-- ===== src/Panel/Eggs/Import.antt =====
-- The import of an egg in the format PTDL_v2: `import_egg` of crates/panel/src/eggs.rs.
use oxydactylus.Base.{ℕ, zero, suc, String, Option, none, some, List, [], ◌∷◌}
use oxydactylus.Panel.Store.{Uuid, Time, Egg, Panel, pure, lift, statement, ◌>>=◌, ◌>>◌}
use oxydactylus.Panel.Eggs.{
  CreateVariableRequest, UpsertInstallScriptRequest, new_variable, insert_egg, insert_variable,
  new_script, put_script,
}

pub record Ptdlv2Config : Type 0 where
  pub stop : String
  pub startup_done : Option String

-- The document, with the values that `serde` puts for what is missing. A variable and a script have
-- the fields of those of the routes. `docker_images` is `none` for `null`, and else the text;
-- `installation` is that of `scripts`.
pub record Ptdlv2 : Type 0 where
  pub name : String
  pub author : Option String
  pub description : Option String
  pub features : List String
  pub file_denylist : List String
  pub docker_images : Option String
  pub startup : String
  pub config : Ptdlv2Config
  pub variables : List CreateVariableRequest
  pub installation : Option UpsertInstallScriptRequest

abbrev pub or_empty_object : Option String → String
or_empty_object none = "{}"
or_empty_object (some images) = images

-- The row, with the default of the column `version`.
abbrev pub imported_egg : Uuid → Time → Ptdlv2 → Egg
imported_egg id now body = record {
  id = id;
  name = body.name;
  description = body.description;
  author = body.author;
  version = "1.0.0";
  features = body.features;
  file_denylist = body.file_denylist;
  docker_images = or_empty_object body.docker_images;
  start_cmd = body.startup;
  stop_cmd = body.config.stop;
  startup_done = body.config.startup_done;
  created_at = now;
  updated_at = now;
}

unfoldable pub import_script : Uuid → Uuid → Option UpsertInstallScriptRequest → Panel (Unit {0})
import_script id egg_id none = pure tt
import_script id egg_id (some install) = do
  put ← statement (put_script (new_script id egg_id install))
  lift put

-- `fresh` gives the identifiers that `Uuid::new_v4` makes in turn.
module _ (fresh : ℕ → Uuid) where
  unfoldable pub import_variables : ℕ → Uuid → List CreateVariableRequest → Panel (Unit {0})
  import_variables n egg_id [] = pure tt
  import_variables n egg_id (var ∷ vars) = do
    inserted ← statement (insert_variable (new_variable (fresh n) egg_id var))
    lift inserted
    import_variables (suc n) egg_id vars

  unfoldable pub import_egg : Uuid → Uuid → Time → Ptdlv2 → Panel Egg
  import_egg egg_id script_id now body = do
    egg ← statement (insert_egg (imported_egg egg_id now body))
    import_variables zero egg.id body.variables
    import_script script_id egg.id body.installation
    pure egg
