-- ===== src/Panel/Eggs/Exported.antt =====
-- That a reader of an exported document gets the egg back: crates/panel/src/eggs.rs.
use oxydactylus.Base.{
  String, Bool, ◌==◌, Option, none, some, List, [], ◌∷◌, map, ◌≡◌, refl, ◌∙◌, ap, ◌⊎◌, find, select,
  order_by,
}
use mathlib.Core.Option as Option
use oxydactylus.Panel.Store.{
  Uuid, Egg, EggVariable, InstallScript, ConfigFile, Db, calm, query, fetch_one,
}
use oxydactylus.Panel.EggVars.{variables_of}
use oxydactylus.Panel.Eggs.{get_egg, list_variables}
use oxydactylus.Panel.Eggs.Configs.{list_config_files}
use oxydactylus.Panel.Toml.{Value, Table, string, table, empty, insert, insert_some}
use oxydactylus.Panel.Toml.Read.{◌>>=◌, maybe, all_of, texts_of}
use oxydactylus.Panel.Eggs.Export.{
  Json, object, other, texts_table, egg_table, startup_table, variables_value, install_value,
  config_table, config_tables, configs_value, egg_document, printed, export_egg_toml,
}
use oxydactylus.Panel.Eggs.Document.{
  Config, Document, read_table, read_config, listed, read_sections, read_document,
}
use oxydactylus.Panel.Eggs.Sections.{
  head_of, startup_of, variable_of, install_of, texts_of_json, read_head-egg_table,
  read_startup-startup_table, variables_read, install_read,
}
use oxydactylus.Panel.Eggs.Texts.{AreDistinct, texts_of-insert_texts_empty}

abbrev sections : Table → Table → Option Value → Option Value → Option Value → Option Value → Table
sections e s i v n c = insert_some "config_files" c (
    insert_some "install" n (
      insert_some "variables" v (
        insert_some "docker_images" i (insert "startup" (table s) (insert "egg" (table e) empty)))))

read_document-sections :
    (e s : Table) (i v n c : Option Value)
    → read_document (sections e s i v n c) ≡ read_sections (some (table e)) (some (table s)) i v n c
unfolding read_document
read_document-sections e s none none none none = refl
read_document-sections e s none none none (some c) = refl
read_document-sections e s none none (some n) none = refl
read_document-sections e s none none (some n) (some c) = refl
read_document-sections e s none (some v) none none = refl
read_document-sections e s none (some v) none (some c) = refl
read_document-sections e s none (some v) (some n) none = refl
read_document-sections e s none (some v) (some n) (some c) = refl
read_document-sections e s (some i) none none none = refl
read_document-sections e s (some i) none none (some c) = refl
read_document-sections e s (some i) none (some n) none = refl
read_document-sections e s (some i) none (some n) (some c) = refl
read_document-sections e s (some i) (some v) none none = refl
read_document-sections e s (some i) (some v) none (some c) = refl
read_document-sections e s (some i) (some v) (some n) none = refl
read_document-sections e s (some i) (some v) (some n) (some c) = refl

module _ (json_of : String → Json) where
  -- A key stands once in an object of serde_json.
  abbrev pub HasDistinctKeys : Type 0
  HasDistinctKeys =
      (s : String) (entries : List (String × Option String))
      → json_of s ≡ object entries
      → AreDistinct entries

  abbrev pub config_of : ConfigFile → Config
  config_of cf = record {
    path = cf.path;
    parser = cf.parser;
    patches = texts_of_json (json_of cf.patches);
  }

  abbrev pub document_of :
      Egg → List EggVariable → Option InstallScript → List ConfigFile → Document
  document_of egg vars install cfs = record {
    head = head_of egg;
    startup = startup_of egg;
    docker_images = texts_of_json (json_of egg.docker_images);
    variables = map variable_of vars;
    install = Option.map install_of install;
    config_files = map config_of cfs;
  }

  module _ (distinct : HasDistinctKeys) where
    texts_read :
        (s : String)
        → maybe (read_table texts_of) (texts_table (json_of s)) ≡ some (texts_of_json (json_of s))
    texts_read s = go (json_of s) refl
      where
        go :
            (j : Json)
            → json_of s ≡ j
            → maybe (read_table texts_of) (texts_table j) ≡ some (texts_of_json j)
        go (object entries) e = rw (texts_of-insert_texts_empty entries (distinct s entries e)) refl
        go other e = refl

    read_config-config_table :
        (cf : ConfigFile) → read_config (config_table json_of cf) ≡ some (config_of cf)
    unfolding read_config config_table
    read_config-config_table cf = go (texts_table (json_of cf.patches)) (texts_read cf.patches)
      where
        with_patches : Option (Option (List (String × String))) → Option Config
        with_patches o =
            o >>= λ patches. some record { path = cf.path; parser = cf.parser; patches = patches }

        go :
            (o : Option Value)
            → maybe (read_table texts_of) o ≡ some (texts_of_json (json_of cf.patches))
            → read_config (
                insert_some "patches" o
                  (insert "parser" (string cf.parser) (insert "path" (string cf.path) empty)))
              ≡ some (config_of cf)
        go none e = ap with_patches e
        go (some v) e = ap with_patches e

    all_of-config_tables :
        (cfs : List ConfigFile)
        → all_of (read_table read_config) (config_tables json_of cfs) ≡ some (map config_of cfs)
    all_of-config_tables [] = refl
    all_of-config_tables (cf ∷ cfs) =
        rw (read_config-config_table cf, all_of-config_tables cfs) refl

    configs_read :
        (cfs : List ConfigFile)
        → listed read_config (configs_value json_of cfs) ≡ some (map config_of cfs)
    configs_read [] = refl
    configs_read (cf ∷ cfs) = all_of-config_tables (cf ∷ cfs)

    read_document-egg_document :
        (egg : Egg) (vars : List EggVariable) (install : Option InstallScript)
        (cfs : List ConfigFile)
        → read_document (egg_document json_of egg vars install cfs)
          ≡ some (document_of egg vars install cfs)
    unfolding egg_document read_sections
    read_document-egg_document egg vars install cfs =
        read_document-sections (egg_table egg) (startup_table egg)
          (texts_table (json_of egg.docker_images)) (variables_value vars) (install_value install)
          (configs_value json_of cfs)
        ∙ rw
            (
              read_head-egg_table egg,
              read_startup-startup_table egg,
              texts_read egg.docker_images,
              variables_read vars,
              install_read install,
              configs_read cfs,
            )
            refl

    -- Where no statement fails, the export of an egg that is there answers with the print of a
    -- document, or with the printer's error. A reader of the document gets that egg back but for its
    -- version and its times, with its variables and configuration files in the order of their names
    -- and paths, and its install script, if there is one; of the Docker images and of the patches
    -- of a file, the entries that are texts.
    pub export_egg_toml-read :
        (collate : String → String → Bool) (to_string_pretty : Table → String ⊎ String) (id : Uuid)
        (d : Db) (egg : Egg)
        → find (λ e. e.id == id) d.eggs ≡ some egg
        → (doc : Table) × ((export_egg_toml json_of collate to_string_pretty id (calm d)).0
            ≡ printed (to_string_pretty doc))
          × (read_document doc
              ≡ some (
                  document_of egg
                    (order_by (λ a b. collate a.name b.name) (variables_of id d))
                    (find (λ s. s.egg_id == id) d.egg_install_scripts)
                    (order_by
                      (λ a b. collate a.path b.path)
                      (select (λ f. f.egg_id == id) d.egg_config_files))))
    unfolding export_egg_toml get_egg list_variables list_config_files query fetch_one
    export_egg_toml-read collate to_string_pretty id d egg found =
        (_, rw found refl, read_document-egg_document egg _ _ _)
