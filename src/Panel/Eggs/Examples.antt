-- ===== src/Panel/Eggs/Examples.antt =====
-- Imports of a small document, and requests of which some fail.
use oxydactylus.Base.{
  ℕ, ◌+◌, String, str_eq, Bool-cases, Option, List, if◌then◌else◌, inl, inr, sym, ap, true, ◌≡◌,
  refl, none, some, [], ◌∷◌, Memᴰ, is_some_of, count, delete, select, order_by, find, ◌⊎◌,
}
use oxydactylus.Panel.Error.{ok, err, other, from_sqlx}
use oxydactylus.Panel.Store.{Uuid, Egg, Server, World, calm, statement, empty_db}
use oxydactylus.Panel.Sample.{sample_db}
use oxydactylus.Panel.EggVars.{variables_of}
use oxydactylus.Panel.Eggs.{
  CreateVariableRequest, has_egg, new_variable, insert_egg, delete_egg_rows, insert_variable,
}
use oxydactylus.Panel.Toml.{Table}
use oxydactylus.Panel.Eggs.Export.{export_egg_toml, Json, object, other as other_json, printed}
use oxydactylus.Panel.Eggs.Document.{read_document}
use oxydactylus.Panel.Eggs.Exported.{HasDistinctKeys, document_of, export_egg_toml-read}
use oxydactylus.Panel.Eggs.Import.{Ptdlv2, imported_egg, import_variables, import_egg}
use oxydactylus.Panel.Eggs.References.{AreOfEggs}
use oxydactylus.Panel.Eggs.Imported.{rows, imported, import_egg_ok}
use oxydactylus.Panel.Eggs.Completed.{import_egg-calm}
use oxydactylus.Panel.Eggs.Roundtrip.{document_for, import_egg-export_egg_toml}

abbrev variable : CreateVariableRequest
variable = record {
  name = "Version";
  description = none;
  env_variable = "VERSION";
  default_val = some "latest";
  user_viewable = true;
  user_editable = true;
  rules = some "required|max:20";
  field_type = "text";
}

abbrev document : Ptdlv2
document = record {
  name = "Vanilla";
  author = none;
  description = none;
  features = [];
  file_denylist = [];
  docker_images = none;
  startup = "java -jar server.jar";
  config = record { stop = "stop"; startup_done = some "Done" };
  variables = variable ∷ (record variable { name = "Eula"; env_variable = "EULA" }) ∷ [];
  installation = some record { container = "alpine"; entrypoint = "ash"; script = "true" };
}

abbrev fresh : ℕ → Uuid
fresh n = 100 + n

-- The second variable is not stored: the egg and the first one stay.
abbrev failing : World
failing = record (calm sample_db) { faults = none ∷ none ∷ some (other "disk I/O error") ∷ [] }

failing_test :
    (import_egg fresh 50 60 7 document failing).0 ≡ err (from_sqlx (other "disk I/O error"))
unfolding import_egg import_variables insert_egg insert_variable statement
failing_test = refl

partial_test :
    variables_of 50 (import_egg fresh 50 60 7 document failing).1.db
    ≡ rows fresh 0 50 (variable ∷ [])
unfolding import_egg import_variables insert_egg insert_variable statement variables_of select
partial_test = refl

-- The statement of a deletion counts the egg, and what belongs to it goes with it.
deleted_test : (delete_egg_rows 50 (imported fresh 50 60 7 document empty_db)) ≡ (ok 1, empty_db)
unfolding delete_egg_rows count delete select
deleted_test = refl

sample-AreOfEggs : AreOfEggs sample_db
sample-AreOfEggs = record {
  variables = λ v m. elim m [ ];
  scripts = λ s m. elim m [ ];
  files = λ f m. elim m [ ];
  servers = of_servers;
  one_script = λ s t m _ _. elim m [ ];
}
  where
    of_servers :
        (s : Server)
        → Memᴰ s sample_db.servers
        → (id : Uuid) → is_some_of s.egg_id id ≡ true
        → has_egg id sample_db ≡ true
    of_servers s (Memᴰ.head e) id is = let w = rw e at is in cc
    of_servers s (Memᴰ.tail (Memᴰ.head e)) id is = let w = rw e at is in cc
    of_servers s (Memᴰ.tail (Memᴰ.tail m)) id is = elim m [ ]

import_egg_ok_example :
    (imported_egg 50 7 document ≡ imported_egg 50 7 document)
    × ((import_egg fresh 50 60 7 document (calm sample_db)).1.db
        ≡ imported fresh 50 60 7 document sample_db)
    × (variables_of 50 (import_egg fresh 50 60 7 document (calm sample_db)).1.db
        ≡ rows fresh 0 50 document.variables)
import_egg_ok_example =
    import_egg_ok fresh 50 60 7 document (calm sample_db) (imported_egg 50 7 document)
      sample-AreOfEggs refl (import_egg-calm fresh 50 60 7 document sample_db)

abbrev images : List (String × Option String)
images = ("Java 17", some "java:17") ∷ ("Java 21", some "java:21") ∷ ("pull", none) ∷ []

abbrev toy_json : String → Json
toy_json s = if str_eq s "images" then object images else other_json

toy_json-HasDistinctKeys : HasDistinctKeys toy_json
toy_json-HasDistinctKeys s entries e = elim (Bool-cases (str_eq s "images")) [
  | inl hit ↦
      let same : images ≡ entries = ap entries_in (rw hit at e) in
      rw (sym same) ((refl, (refl, tt)), ((refl, tt), (tt, tt)))
  | inr miss ↦ let absurd : other_json ≡ object entries = rw miss at e in cc
]
  where
    entries_in : Json → List (String × Option String)
    entries_in (object l) = l
    entries_in other_json = []

abbrev vanilla : Egg
vanilla = imported_egg 50 7 (record document { docker_images = some "images" })

abbrev toy_print : Table → String ⊎ String
toy_print t = inr "document"

export_egg_toml-read_example :
    (doc : Table) × ((export_egg_toml toy_json
        (λ a b. true)
        toy_print
        50
        (calm record sample_db {
          eggs = vanilla ∷ [];
          egg_variables = new_variable 100 50 variable ∷ [];
        })).0
      ≡ printed (toy_print doc))
    × (read_document doc
        ≡ some (document_of toy_json vanilla (new_variable 100 50 variable ∷ []) none []))
unfolding variables_of select order_by find
export_egg_toml-read_example =
    export_egg_toml-read toy_json toy_json-HasDistinctKeys (λ a b. true) toy_print 50
      (record sample_db { eggs = vanilla ∷ []; egg_variables = new_variable 100 50 variable ∷ [] })
      vanilla refl

import_egg-export_egg_toml_example :
    let w = (import_egg fresh 50 60 7 document (calm sample_db)).1 in
    (doc : Table) × ((export_egg_toml toy_json (λ a b. true) toy_print 50 (calm w.db)).0
      ≡ printed (toy_print doc))
    × (read_document doc ≡ some (document_for toy_json (λ a b. true) document))
import_egg-export_egg_toml_example =
    import_egg-export_egg_toml toy_json (λ a b. true) document fresh 50 60 7 sample_db
      sample-AreOfEggs refl toy_print toy_json-HasDistinctKeys
