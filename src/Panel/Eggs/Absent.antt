-- ===== src/Panel/Eggs/Absent.antt =====
-- Of an egg that is not there, there are no parts: crates/panel/src/eggs.rs.
use oxydactylus.Base.{true, false, ◌==◌, ==_iff, ◌≡◌, inl, inr, Bool-cases, any, any-Memᴰ}
use oxydactylus.Panel.Store.{Uuid, EggVariable, InstallScript, ConfigFile, Db}
use oxydactylus.Panel.Eggs.{has_egg}
use oxydactylus.Panel.Eggs.References.{AreOfEggs}

module _ (egg_id : Uuid) (d : Db) (h : AreOfEggs d) (absent : has_egg egg_id d ≡ false) where
  -- Nothing refers to an egg that is not there.
  pub variables_free : any (λ v. v.egg_id == egg_id) d.egg_variables ≡ false
  variables_free = elim (Bool-cases (any (λ v. v.egg_id == egg_id) d.egg_variables)) [
    | inr e ↦ e
    | inl e ↦
        let (v, m, is) = any-Memᴰ (λ (v : EggVariable). v.egg_id == egg_id) d.egg_variables e in
        let same : v.egg_id ≡ egg_id = (==_iff v.egg_id egg_id).0 is in
        let there = h.variables v m in let clash : has_egg egg_id d ≡ true = rw same at there in cc
  ]

  pub scripts_free : any (λ v. v.egg_id == egg_id) d.egg_install_scripts ≡ false
  scripts_free = elim (Bool-cases (any (λ v. v.egg_id == egg_id) d.egg_install_scripts)) [
    | inr e ↦ e
    | inl e ↦
        let (s, m, is) =
          any-Memᴰ (λ (v : InstallScript). v.egg_id == egg_id) d.egg_install_scripts e in
        let same : s.egg_id ≡ egg_id = (==_iff s.egg_id egg_id).0 is in
        let there = h.scripts s m in let clash : has_egg egg_id d ≡ true = rw same at there in cc
  ]

  pub files_free : any (λ f. f.egg_id == egg_id) d.egg_config_files ≡ false
  files_free = elim (Bool-cases (any (λ f. f.egg_id == egg_id) d.egg_config_files)) [
    | inr e ↦ e
    | inl e ↦
        let (f, m, is) = any-Memᴰ (λ (f : ConfigFile). f.egg_id == egg_id) d.egg_config_files e in
        let same : f.egg_id ≡ egg_id = (==_iff f.egg_id egg_id).0 is in
        let there = h.files f m in let clash : has_egg egg_id d ≡ true = rw same at there in cc
  ]
