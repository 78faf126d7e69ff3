-- ===== src/Panel/Eggs/Completed.antt =====
-- That an import comes to its end: `import_egg` of crates/panel/src/eggs.rs.
use oxydactylus.Base.{
  ℕ, zero, suc, Bool, true, ◌==◌, ==_refl, ◌≡◌, refl, inl, inr, Bool-cases, Option, none, some,
  List, [], ◌∷◌, ◌++◌, any,
}
use oxydactylus.Panel.Error.{ok}
use oxydactylus.Panel.Store.{Uuid, Time, Egg, Db, statement, calm}
use oxydactylus.Panel.Eggs.{
  CreateVariableRequest, UpsertInstallScriptRequest, has_egg, new_variable, insert_egg,
  insert_variable, put_script,
}
use oxydactylus.Panel.Eggs.Import.{
  Ptdlv2, imported_egg, import_variables, import_script, import_egg,
}

any-last :
    {A : Type 0} (p : A → Bool) (xs : List A) (x : A) → p x ≡ true → any p (xs ++ (x ∷ [])) ≡ true
any-last p [] x h = rw h refl
any-last p (y ∷ ys) x h = elim (Bool-cases (p y)) [
  | inl e ↦ rw e refl
  | inr e ↦ rw e (any-last p ys x h)
]

import_script-calm :
    (id egg_id : Uuid) (installation : Option UpsertInstallScriptRequest) (d : Db)
    → has_egg egg_id d ≡ true
    → (import_script id egg_id installation (calm d)).0 ≡ ok tt
unfolding import_script put_script statement
import_script-calm id egg_id none d there = refl
import_script-calm id egg_id (some install) d there =
    elim (Bool-cases (any (λ t. t.egg_id == egg_id) d.egg_install_scripts)) [
      | inl e ↦ rw e refl
      | inr e ↦ rw (e, there) refl
    ]

module _ (fresh : ℕ → Uuid) where
  -- The loop, and what is inserted changes no egg.
  import_variables-calm :
      (n : ℕ) (egg_id : Uuid) (vars : List CreateVariableRequest) (d : Db)
      → has_egg egg_id d ≡ true
      → (d' : Db) × (import_variables fresh n egg_id vars (calm d) ≡ (ok tt, calm d'))
        × (has_egg egg_id d' ≡ true)
  unfolding import_variables insert_variable statement
  import_variables-calm n egg_id [] d there = (d, refl, there)
  import_variables-calm n egg_id (var ∷ vars) d there = rw there (
      import_variables-calm (suc n) egg_id vars
        (record d { egg_variables = d.egg_variables ++ (new_variable (fresh n) egg_id var ∷ []) })
        there)

  -- Where no statement fails, an import succeeds, however many variables the document has, and
  -- answers with the egg of the document.
  pub import_egg-calm :
      (egg_id script_id : Uuid) (now : Time) (body : Ptdlv2) (d : Db)
      → (import_egg fresh egg_id script_id now body (calm d)).0 ≡ ok (imported_egg egg_id now body)
  unfolding import_egg insert_egg statement
  import_egg-calm egg_id script_id now body d =
      let e = imported_egg egg_id now body in
      let (d', loop, there) =
        import_variables-calm zero egg_id body.variables (record d { eggs = d.eggs ++ (e ∷ []) })
          (any-last (λ (x : Egg). x.id == egg_id) d.eggs e (==_refl egg_id)) in
      rw (loop, import_script-calm script_id egg_id body.installation d' there) refl
