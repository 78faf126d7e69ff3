-- ===== src/Panel/Eggs/Roundtrip.antt =====
-- An import and then an export of the same egg: crates/panel/src/eggs.rs.
use mathlib.Core.Option as Option
use oxydactylus.Base.{
  ℕ, zero, suc, String, Bool, false, ◌==◌, ==_refl, Option, none, some, List, [], ◌∷◌, map, find,
  select, order_by, find-append_free, select_free, map-order_by, ◌≡◌, refl, ◌∙◌, ap, ◌⊎◌,
}
use oxydactylus.Panel.Store.{Uuid, Time, Egg, InstallScript, ConfigFile, Db, calm}
use oxydactylus.Panel.EggVars.{variables_of}
use oxydactylus.Panel.Eggs.{CreateVariableRequest, UpsertInstallScriptRequest, has_egg}
use oxydactylus.Panel.Eggs.Import.{Ptdlv2, imported_egg, or_empty_object, import_egg}
use oxydactylus.Panel.Eggs.References.{AreOfEggs}
use oxydactylus.Panel.Eggs.Absent.{scripts_free, files_free}
use oxydactylus.Panel.Eggs.Imported.{rows, scripts_of, imported, import_egg_ok}
use oxydactylus.Panel.Eggs.Completed.{import_egg-calm}
use oxydactylus.Panel.Toml.{Table}
use oxydactylus.Panel.Eggs.Export.{Json, printed, export_egg_toml}
use oxydactylus.Panel.Eggs.Document.{Variable, Install, Document, read_document}
use oxydactylus.Panel.Eggs.Sections.{texts_of_json, variable_of, install_of}
use oxydactylus.Panel.Eggs.Exported.{HasDistinctKeys, document_of, export_egg_toml-read}

-- What an export is to say of the variables and the script of an imported document.
abbrev pub requested : CreateVariableRequest → Variable
requested v = record {
  name = v.name;
  env_variable = v.env_variable;
  default_val = v.default_val;
  description = v.description;
  rules = v.rules;
  user_viewable = v.user_viewable;
  user_editable = v.user_editable;
  field_type = v.field_type;
}

abbrev pub installed : UpsertInstallScriptRequest → Install
installed i = record { container = i.container; entrypoint = i.entrypoint; script = i.script }

map-rows :
    (fresh : ℕ → Uuid) (n : ℕ) (egg_id : Uuid) (vars : List CreateVariableRequest)
    → map variable_of (rows fresh n egg_id vars) ≡ map requested vars
map-rows fresh n egg_id [] = refl
map-rows fresh n egg_id (var ∷ vars) =
    ap (λ vs. requested var ∷ vs) (map-rows fresh (suc n) egg_id vars)

find-scripts_of :
    (id egg_id : Uuid) (installation : Option UpsertInstallScriptRequest)
    → Option.map install_of (find (λ s. s.egg_id == egg_id) (scripts_of id egg_id installation))
      ≡ Option.map installed installation
unfolding find
find-scripts_of id egg_id none = refl
find-scripts_of id egg_id (some i) = rw (==_refl egg_id) refl

module _ (json_of : String → Json) (collate : String → String → Bool) (body : Ptdlv2) where
  -- The document that an export is to be, of what was imported.
  abbrev pub document_for : Document
  document_for = record {
    head = record {
      name = body.name;
      author = body.author;
      description = body.description;
      features = body.features;
      file_denylist = body.file_denylist;
    };
    startup = record {
      command = body.startup;
      stop = body.config.stop;
      detection = body.config.startup_done;
    };
    docker_images = texts_of_json (json_of (or_empty_object body.docker_images));
    variables = order_by (λ a b. collate a.name b.name) (map requested body.variables);
    install = Option.map installed body.installation;
    config_files = [];
  }

  module _ (fresh : ℕ → Uuid) (egg_id script_id : Uuid) (now : Time) (d : Db) (h : AreOfEggs d)
      (absent : has_egg egg_id d ≡ false) where
    abbrev after : Db
    after = imported fresh egg_id script_id now body d

    found : find (λ e. e.id == egg_id) after.eggs ≡ some (imported_egg egg_id now body)
    unfolding find
    found =
        find-append_free (λ (e : Egg). e.id == egg_id) d.eggs (imported_egg egg_id now body ∷ [])
          absent
        ∙ rw (==_refl egg_id) refl

    variables_read :
        variables_of egg_id after ≡ rows fresh zero egg_id body.variables
        → map variable_of (order_by (λ a b. collate a.name b.name) (variables_of egg_id after))
          ≡ order_by (λ a b. collate a.name b.name) (map requested body.variables)
    variables_read read =
        map-order_by variable_of (λ a b. collate a.name b.name) (variables_of egg_id after)
        ∙ ap (λ vs. order_by (λ (a b : Variable). collate a.name b.name) (map variable_of vs)) read
        ∙ ap (order_by (λ (a b : Variable). collate a.name b.name))
            (map-rows fresh zero egg_id body.variables)

    script_read :
        Option.map install_of (find (λ s. s.egg_id == egg_id) after.egg_install_scripts)
        ≡ Option.map installed body.installation
    script_read =
        ap (Option.map install_of) (
          find-append_free (λ (s : InstallScript). s.egg_id == egg_id) d.egg_install_scripts
            (scripts_of script_id egg_id body.installation) (scripts_free egg_id d h absent))
        ∙ find-scripts_of script_id egg_id body.installation

    no_files : select (λ f. f.egg_id == egg_id) d.egg_config_files ≡ []
    no_files =
        select_free (λ (f : ConfigFile). f.egg_id == egg_id) d.egg_config_files
          (files_free egg_id d h absent)

    imported_document :
        variables_of egg_id after ≡ rows fresh zero egg_id body.variables
        → document_of json_of
            (imported_egg egg_id now body)
            (order_by (λ a b. collate a.name b.name) (variables_of egg_id after))
            (find (λ s. s.egg_id == egg_id) after.egg_install_scripts)
            (order_by
              (λ a b. collate a.path b.path)
              (select (λ f. f.egg_id == egg_id) after.egg_config_files))
          ≡ document_for
    unfolding order_by
    imported_document read = rw (variables_read read, script_read, no_files) refl

    -- Where no statement fails, an egg that was imported under a new identifier and is then exported
    -- answers with the print of a document, or with the printer's error. A reader of the document
    -- gets what was imported, with the variables in the order of their names and, of the Docker
    -- images, the entries that are texts; there are no configuration files, as the import drops them.
    pub import_egg-export_egg_toml :
        (to_string_pretty : Table → String ⊎ String)
        → HasDistinctKeys json_of
        → let w = (import_egg fresh egg_id script_id now body (calm d)).1 in
          (doc : Table) × ((export_egg_toml json_of collate to_string_pretty egg_id (calm w.db)).0
            ≡ printed (to_string_pretty doc))
          × (read_document doc ≡ some document_for)
    import_egg-export_egg_toml to_string_pretty distinct =
        let (answered, tables, read) =
          import_egg_ok fresh egg_id script_id now body (calm d) (imported_egg egg_id now body) h
            absent (import_egg-calm fresh egg_id script_id now body d) in
        let read' : variables_of egg_id after ≡ rows fresh zero egg_id body.variables =
          rw tables at read in
        let (doc, printed_is, doc_is) =
          export_egg_toml-read json_of distinct collate to_string_pretty egg_id after
            (imported_egg egg_id now body) found in
        rw tables (doc, printed_is, doc_is ∙ ap some (imported_document read'))
