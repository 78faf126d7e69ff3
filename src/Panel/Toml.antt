-- ===== src/Panel/Toml.antt =====
-- The documents that crates/panel/src/eggs.rs builds for an export, as values of the crate toml,
-- which prints them; a table is the list of its entries, in which a key stands once.
pub mod Read
use oxydactylus.Base.{String, str_eq, Bool, Option, none, some, List, [], ◌∷◌, if◌then◌else◌}

mutual
  pub data Value : Type 0 where
    string : String → Value
    boolean : Bool → Value
    array : Values → Value
    table : Table → Value

  pub data Values : Type 0 where
    nil : Values
    cons : Value → Values → Values

  pub data Table : Type 0 where
    empty : Table
    entry : String → Value → Table → Table

-- `Table::insert`
abbrev pub insert : String → Value → Table → Table
insert k v empty = entry k v empty
insert k v (entry j u t) = if str_eq j k then entry j v t else entry j u (insert k v t)

-- An insertion under `if let Some(value) = …`
abbrev pub insert_some : String → Option Value → Table → Table
insert_some k none t = t
insert_some k (some v) t = insert k v t

-- `if let Some(s) = … { table.insert(key, toml::Value::String(s.clone())); }`
abbrev pub insert_text : String → Option String → Table → Table
insert_text k none t = t
insert_text k (some s) t = insert k (string s) t

-- `.iter().map(|s| toml::Value::String(s.clone())).collect()`
abbrev pub strings : List String → Values
strings [] = nil
strings (s ∷ rest) = cons (string s) (strings rest)
