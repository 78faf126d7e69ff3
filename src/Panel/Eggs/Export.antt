-- ===== src/Panel/Eggs/Export.antt =====
-- The export of an egg as a document: crates/panel/src/eggs.rs. The text of the document is printed
-- by the crate toml.
use oxydactylus.Base.{String, Bool, ◌==◌, Option, none, some, List, [], ◌∷◌, ◌⊎◌, inl, inr, find}
use oxydactylus.Panel.Error.{internal, text, Result, ok, err}
use oxydactylus.Panel.Store.{
  Uuid, Egg, EggVariable, InstallScript, ConfigFile, Panel, query, lift, ◌>>=◌,
}
use oxydactylus.Panel.Toml.{
  Value, Values, Table, string, boolean, array, table, nil, cons, empty, insert, insert_some,
  insert_text, strings,
}
use oxydactylus.Panel.Eggs.{get_egg, list_variables}
use oxydactylus.Panel.Eggs.Configs.{list_config_files}

-- A value of the crate serde_json, as far as an export looks at it: the entries of an object with
-- their texts, and nothing for an entry that is no text.
pub data Json : Type 0 where
  object : List (String × Option String) → Json
  other : Json

-- [egg]
unfoldable pub egg_table : Egg → Table
egg_table egg =
    let named = insert "name" (string egg.name) empty in
    let authored = insert_text "author" egg.author named in
    let described = insert_text "description" egg.description authored in
    insert "file_denylist" (array (strings egg.file_denylist))
      (insert "features" (array (strings egg.features)) described)

-- [startup]
unfoldable pub startup_table : Egg → Table
startup_table egg =
    insert_text "detection" egg.startup_done
      (insert "stop" (string egg.stop_cmd) (insert "command" (string egg.start_cmd) empty))

-- The loop `for (k, v) in map`, which skips what is no text.
abbrev pub insert_texts : List (String × Option String) → Table → Table
insert_texts [] t = t
insert_texts ((k, v) ∷ rest) t = insert_texts rest (insert_text k v t)

abbrev pub texts_table : Json → Option Value
texts_table (object entries) = some (table (insert_texts entries empty))
texts_table other = none

-- [[variables]]
unfoldable pub variable_table : EggVariable → Table
variable_table v =
    let named =
      insert "env_variable" (string v.env_variable) (insert "name" (string v.name) empty) in
    let described =
      insert_text "rules" v.rules
        (insert_text "description" v.description (insert_text "default" v.default_val named)) in
    insert "field_type" (string v.field_type) (
      insert "user_editable" (boolean v.user_editable)
        (insert "user_viewable" (boolean v.user_viewable) described))

abbrev pub variable_tables : List EggVariable → Values
variable_tables [] = nil
variable_tables (v ∷ vars) = cons (table (variable_table v)) (variable_tables vars)

abbrev pub variables_value : List EggVariable → Option Value
variables_value [] = none
variables_value (v ∷ vars) = some (array (variable_tables (v ∷ vars)))

-- [install]
unfoldable pub install_table : InstallScript → Table
install_table i =
    insert "script" (string i.script)
      (insert "entrypoint" (string i.entrypoint) (insert "container" (string i.container) empty))

abbrev pub install_value : Option InstallScript → Option Value
install_value none = none
install_value (some i) = some (table (install_table i))

-- What the printer made: its error on the left, the text on the right.
abbrev pub printed : String ⊎ String → Result String
printed (inl e) = err (internal (text e))
printed (inr s) = ok s

-- `json_of` is `serde_json::from_str` on the texts that the database keeps.
module _ (json_of : String → Json) where
  -- [[config_files]]
  unfoldable pub config_table : ConfigFile → Table
  config_table cf =
      insert_some "patches" (texts_table (json_of cf.patches))
        (insert "parser" (string cf.parser) (insert "path" (string cf.path) empty))

  abbrev pub config_tables : List ConfigFile → Values
  config_tables [] = nil
  config_tables (cf ∷ cfs) = cons (table (config_table cf)) (config_tables cfs)

  abbrev pub configs_value : List ConfigFile → Option Value
  configs_value [] = none
  configs_value (cf ∷ cfs) = some (array (config_tables (cf ∷ cfs)))

  unfoldable pub egg_document :
      Egg → List EggVariable → Option InstallScript → List ConfigFile → Table
  egg_document egg vars install cfs =
      let required =
        insert "startup" (table (startup_table egg)) (insert "egg" (table (egg_table egg)) empty) in
      let pictured =
        insert_some "docker_images" (texts_table (json_of egg.docker_images)) required in
      let varied = insert_some "variables" (variables_value vars) pictured in
      let installed = insert_some "install" (install_value install) varied in
      insert_some "config_files" (configs_value cfs) installed

  -- `collate` is the order that the database has on texts, `to_string_pretty` the printer. The answer is the body of the response.
  module _ (collate : String → String → Bool) (to_string_pretty : Table → String ⊎ String) where
    unfoldable pub export_egg_toml : Uuid → Panel String
    export_egg_toml id = do
      egg ← get_egg id
      vars ← list_variables collate id
      install ← query (λ d. find (λ s. s.egg_id == id) d.egg_install_scripts)
      cfs ← list_config_files collate id
      lift (printed (to_string_pretty (egg_document egg vars install cfs)))
