-- ===== src/Panel/Eggs/References.antt =====
-- What the references of the tables of eggs demand: that variables, install scripts and configuration
-- files are of eggs that are there, as crates/panel/migrations declares it.
use oxydactylus.Base.{true, ◌≡◌, Memᴰ, is_some_of}
use oxydactylus.Panel.Store.{Uuid, Server, EggVariable, InstallScript, ConfigFile, Db}
use oxydactylus.Panel.Eggs.{has_egg}

-- What belongs to an egg, or is made from it, has one that is there; an egg has one install script
-- at most.
pub record AreOfEggs (d : Db) : Type 0 where
  pub variables : (v : EggVariable) → Memᴰ v d.egg_variables → has_egg v.egg_id d ≡ true
  pub scripts : (s : InstallScript) → Memᴰ s d.egg_install_scripts → has_egg s.egg_id d ≡ true
  pub files : (f : ConfigFile) → Memᴰ f d.egg_config_files → has_egg f.egg_id d ≡ true
  pub servers :
      (s : Server)
      → Memᴰ s d.servers
      → (id : Uuid) → is_some_of s.egg_id id ≡ true
      → has_egg id d ≡ true
  pub one_script :
      (s t : InstallScript)
      → Memᴰ s d.egg_install_scripts
      → Memᴰ t d.egg_install_scripts
      → s.egg_id ≡ t.egg_id
      → s ≡ t
