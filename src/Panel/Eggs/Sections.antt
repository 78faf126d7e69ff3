-- ===== src/Panel/Eggs/Sections.antt =====
-- What a reader gets of each section of an exported document: crates/panel/src/eggs.rs.
use oxydactylus.Base.{String, Option, none, some, List, [], ◌∷◌, map, ◌≡◌, refl}
use mathlib.Core.Option as Option
use oxydactylus.Panel.Store.{Egg, EggVariable, InstallScript}
use oxydactylus.Panel.Toml.Read.{maybe, all_of, all_of-strings}
use oxydactylus.Panel.Eggs.Export.{
  Json, object, other, egg_table, startup_table, variable_table, variable_tables, variables_value,
  install_table, install_value,
}
use oxydactylus.Panel.Eggs.Document.{
  Head, Startup, Variable, Install, read_head, read_startup, read_variable, read_install,
  read_table, listed,
}
use oxydactylus.Panel.Eggs.Texts.{texts_in}

abbrev pub head_of : Egg → Head
head_of egg = record {
  name = egg.name;
  author = egg.author;
  description = egg.description;
  features = egg.features;
  file_denylist = egg.file_denylist;
}

pub read_head-egg_table : (egg : Egg) → read_head (egg_table egg) ≡ some (head_of egg)
unfolding read_head egg_table
read_head-egg_table egg = go egg.author egg.description
  where
    go :
        (a d : Option String)
        → read_head (egg_table record egg { author = a; description = d })
          ≡ some (head_of record egg { author = a; description = d })
    go none none = rw (all_of-strings egg.features, all_of-strings egg.file_denylist) refl
    go none (some d) = rw (all_of-strings egg.features, all_of-strings egg.file_denylist) refl
    go (some a) none = rw (all_of-strings egg.features, all_of-strings egg.file_denylist) refl
    go (some a) (some d) = rw (all_of-strings egg.features, all_of-strings egg.file_denylist) refl

abbrev pub startup_of : Egg → Startup
startup_of egg = record {
  command = egg.start_cmd;
  stop = egg.stop_cmd;
  detection = egg.startup_done;
}

pub read_startup-startup_table :
    (egg : Egg) → read_startup (startup_table egg) ≡ some (startup_of egg)
unfolding read_startup startup_table
read_startup-startup_table egg = go egg.startup_done
  where
    go :
        (o : Option String)
        → read_startup (startup_table record egg { startup_done = o })
          ≡ some (startup_of record egg { startup_done = o })
    go none = refl
    go (some s) = refl

abbrev pub variable_of : EggVariable → Variable
variable_of v = record {
  name = v.name;
  env_variable = v.env_variable;
  default_val = v.default_val;
  description = v.description;
  rules = v.rules;
  user_viewable = v.user_viewable;
  user_editable = v.user_editable;
  field_type = v.field_type;
}

read_variable-variable_table :
    (v : EggVariable) → read_variable (variable_table v) ≡ some (variable_of v)
unfolding read_variable variable_table
read_variable-variable_table v = go v.default_val v.description v.rules
  where
    go :
        (o d r : Option String)
        → let v' = record v { default_val = o; description = d; rules = r } in
          read_variable (variable_table v') ≡ some (variable_of v')
    go none none none = refl
    go none none (some r) = refl
    go none (some d) none = refl
    go none (some d) (some r) = refl
    go (some o) none none = refl
    go (some o) none (some r) = refl
    go (some o) (some d) none = refl
    go (some o) (some d) (some r) = refl

all_of-variable_tables :
    (vars : List EggVariable)
    → all_of (read_table read_variable) (variable_tables vars) ≡ some (map variable_of vars)
all_of-variable_tables [] = refl
all_of-variable_tables (v ∷ vars) =
    rw (read_variable-variable_table v, all_of-variable_tables vars) refl

pub variables_read :
    (vars : List EggVariable)
    → listed read_variable (variables_value vars) ≡ some (map variable_of vars)
variables_read [] = refl
variables_read (v ∷ vars) = all_of-variable_tables (v ∷ vars)

abbrev pub install_of : InstallScript → Install
install_of i = record { container = i.container; entrypoint = i.entrypoint; script = i.script }

pub install_read :
    (install : Option InstallScript)
    → maybe (read_table read_install) (install_value install) ≡ some (Option.map install_of install)
unfolding read_install install_table
install_read none = refl
install_read (some i) = refl

-- The texts of an object, and nothing for what is no object.
abbrev pub texts_of_json : Json → Option (List (String × String))
texts_of_json (object entries) = some (texts_in entries)
texts_of_json other = none
