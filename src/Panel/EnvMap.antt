-- ===== src/Panel/EnvMap.antt =====
-- The hash maps that crates/panel/src makes of the environment of a server, a list of texts
-- `NAME=value`: an association list in which a name stands once. The order in which the program's
-- map gives its entries is an argument of what depends on it.
pub mod Laws
pub mod Stored
use oxydactylus.Base.{String, ◌==◌, str_eq, Option, none, some, List, [], ◌∷◌, if◌then◌else◌}
use oxydactylus.Base.Text.{split_once, ◌+++◌}
use oxydactylus.Panel.EggVars.{get}

abbrev pub EnvMap : Type 0
EnvMap = List (String × String)

-- `HashMap::insert`
abbrev pub insert : String → String → EnvMap → EnvMap
insert k v [] = (k, v) ∷ []
insert k v ((j, u) ∷ m) = if str_eq j k then (j, v) ∷ m else (j, u) ∷ insert k v m

abbrev pub insert_entry : Option (String × String) → EnvMap → EnvMap
insert_entry none m = m
insert_entry (some (k, v)) m = insert k v m

abbrev pub insert_all : List String → EnvMap → EnvMap
insert_all [] m = m
insert_all (e ∷ es) m = insert_all es (insert_entry (split_once b'=' e) m)

-- `collect`, and the loop of `change_egg`
unfoldable pub env_map : List String → EnvMap
env_map env = insert_all env []

-- The loop of `change_egg` over the environment of the egg: what is there stays.
abbrev pub insert_missing : Option (String × String) → EnvMap → EnvMap
insert_missing none m = m
insert_missing (some (k, v)) m = elim (get k m) [ none ↦ insert k v m | some u ↦ m ]

unfoldable pub add_missing : List String → EnvMap → EnvMap
add_missing [] m = m
add_missing (e ∷ es) m = add_missing es (insert_missing (split_once b'=' e) m)

-- `format!("{}={}", k, v)`
abbrev pub format_entry : String × String → String
format_entry (k, v) = k +++ "=" +++ v
