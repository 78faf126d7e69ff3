-- ===== src/Panel/Eggs/Configs.antt =====
-- The configuration files of an egg: crates/panel/src/eggs.rs.
use oxydactylus.Base.{
  ℕ, String, Bool, ◌==◌, ◌&&◌, str_eq, List, [], ◌∷◌, ◌++◌, any, select, delete, count, order_by,
  if◌then◌else◌,
}
use oxydactylus.Panel.Error.{validation, text, Result, ok, err, from_sqlx}
use oxydactylus.Panel.Store.{Uuid, ConfigFile, Db, Panel, raise, lift, query, statement, ◌>>=◌}
use oxydactylus.Panel.Eggs.{has_egg, removed_part}

pub record CreateConfigFileRequest : Type 0 where
  pub path : String
  pub parser : String
  pub patches : String

abbrev pub valid_parsers : List String
valid_parsers = "properties" ∷ "json" ∷ "yaml" ∷ "ini" ∷ "xml" ∷ []

-- `collate` is the order that the database has on texts.
unfoldable pub list_config_files : (String → String → Bool) → Uuid → Panel (List ConfigFile)
list_config_files collate egg_id = query (λ d.
    order_by (λ a b. collate a.path b.path) (select (λ f. f.egg_id == egg_id) d.egg_config_files))

abbrev pub new_config_file : Uuid → Uuid → CreateConfigFileRequest → ConfigFile
new_config_file id egg_id body = record {
  id = id;
  egg_id = egg_id;
  path = body.path;
  parser = body.parser;
  patches = body.patches;
}

-- INSERT INTO egg_config_files …, which fails where the egg is not there.
unfoldable pub insert_config_file : ConfigFile → Db → Result ConfigFile × Db
insert_config_file f d =
    if has_egg f.egg_id d
    then (ok f, record d { egg_config_files = d.egg_config_files ++ (f ∷ []) })
    else (err (from_sqlx (d.violation "egg_config_files.egg_id")), d)

unfoldable pub create_config_file : Uuid → Uuid → CreateConfigFileRequest → Panel ConfigFile
create_config_file id egg_id body w =
    if any (str_eq body.parser) valid_parsers
    then (do
      inserted ← statement (insert_config_file (new_config_file id egg_id body))
      lift inserted)
        w
    else raise (validation (text "parser must be one of: properties, json, yaml, ini, xml")) w

unfoldable pub delete_config_file_rows : Uuid → Uuid → Db → ℕ × Db
delete_config_file_rows egg_id id d = (
  count (λ f. f.id == id && f.egg_id == egg_id) d.egg_config_files,
  record d { egg_config_files = delete (λ f. f.id == id && f.egg_id == egg_id) d.egg_config_files },
)

unfoldable pub delete_config_file : Uuid → Uuid → Panel ℕ
delete_config_file egg_id cf_id = do
  rows ← statement (delete_config_file_rows egg_id cf_id)
  removed_part "config-file {}" cf_id rows
