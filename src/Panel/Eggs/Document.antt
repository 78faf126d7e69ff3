-- ===== src/Panel/Eggs/Document.antt =====
-- A reader of the documents that crates/panel/src/eggs.rs exports: the sections of a document as
-- records, with what may be missing.
use oxydactylus.Base.{String, Bool, Option, none, some, List, []}
use oxydactylus.Panel.Toml.{Value, Table}
use oxydactylus.Panel.Toml.Read.{get, ◌>>=◌, text_of, flag_of, table_of, maybe, list_of, texts_of}

-- What stands in a document.
pub record Head : Type 0 where
  pub name : String
  pub author : Option String
  pub description : Option String
  pub features : List String
  pub file_denylist : List String

pub record Startup : Type 0 where
  pub command : String
  pub stop : String
  pub detection : Option String

pub record Variable : Type 0 where
  pub name : String
  pub env_variable : String
  pub default_val : Option String
  pub description : Option String
  pub rules : Option String
  pub user_viewable : Bool
  pub user_editable : Bool
  pub field_type : String

pub record Install : Type 0 where
  pub container : String
  pub entrypoint : String
  pub script : String

pub record Config : Type 0 where
  pub path : String
  pub parser : String
  pub patches : Option (List (String × String))

pub record Document : Type 0 where
  pub head : Head
  pub startup : Startup
  pub docker_images : Option (List (String × String))
  pub variables : List Variable
  pub install : Option Install
  pub config_files : List Config

unfoldable pub read_head : Table → Option Head
read_head t = do
  name ← text_of (get "name" t)
  author ← maybe text_of (get "author" t)
  description ← maybe text_of (get "description" t)
  features ← list_of text_of (get "features" t)
  file_denylist ← list_of text_of (get "file_denylist" t)
  some record {
    name = name;
    author = author;
    description = description;
    features = features;
    file_denylist = file_denylist;
  }

unfoldable pub read_startup : Table → Option Startup
read_startup t = do
  command ← text_of (get "command" t)
  stop ← text_of (get "stop" t)
  detection ← maybe text_of (get "detection" t)
  some record { command = command; stop = stop; detection = detection }

unfoldable pub read_variable : Table → Option Variable
read_variable t = do
  name ← text_of (get "name" t)
  env_variable ← text_of (get "env_variable" t)
  default_val ← maybe text_of (get "default" t)
  description ← maybe text_of (get "description" t)
  rules ← maybe text_of (get "rules" t)
  user_viewable ← flag_of (get "user_viewable" t)
  user_editable ← flag_of (get "user_editable" t)
  field_type ← text_of (get "field_type" t)
  some record {
    name = name;
    env_variable = env_variable;
    default_val = default_val;
    description = description;
    rules = rules;
    user_viewable = user_viewable;
    user_editable = user_editable;
    field_type = field_type;
  }

unfoldable pub read_install : Table → Option Install
read_install t = do
  container ← text_of (get "container" t)
  entrypoint ← text_of (get "entrypoint" t)
  script ← text_of (get "script" t)
  some record { container = container; entrypoint = entrypoint; script = script }

abbrev pub read_table : {A : Type 0} → (Table → Option A) → Option Value → Option A
read_table read o = table_of o >>= read

unfoldable pub read_config : Table → Option Config
read_config t = do
  path ← text_of (get "path" t)
  parser ← text_of (get "parser" t)
  patches ← maybe (read_table texts_of) (get "patches" t)
  some record { path = path; parser = parser; patches = patches }

-- A list of tables, which is empty where its key is missing.
abbrev pub listed : {A : Type 0} → (Table → Option A) → Option Value → Option (List A)
listed read none = some []
listed read (some v) = list_of (read_table read) (some v)

unfoldable pub read_sections :
    Option Value
    → Option Value
    → Option Value
    → Option Value
    → Option Value
    → Option Value
    → Option Document
read_sections egg startup images variables install configs = do
  head ← read_table read_head egg
  launch ← read_table read_startup startup
  docker_images ← maybe (read_table texts_of) images
  variable_list ← listed read_variable variables
  script ← maybe (read_table read_install) install
  config_list ← listed read_config configs
  some record {
    head = head;
    startup = launch;
    docker_images = docker_images;
    variables = variable_list;
    install = script;
    config_files = config_list;
  }

unfoldable pub read_document : Table → Option Document
read_document t =
    read_sections (get "egg" t) (get "startup" t) (get "docker_images" t) (get "variables" t)
      (get "install" t) (get "config_files" t)
