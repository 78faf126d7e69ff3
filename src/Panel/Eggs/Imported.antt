-- ===== src/Panel/Eggs/Imported.antt =====
-- What an import has made of the tables: `import_egg` of crates/panel/src/eggs.rs.
use oxydactylus.Base.{
  ℕ, zero, suc, true, false, ◌==◌, ==_refl, ◌≡◌, refl, sym, ap, ◌∙◌, inl, inr, Bool-cases, Option,
  none, some, List, [], ◌∷◌, ◌++◌, any, append_assoc, append-nil, select-append_fresh, All, arith,
}
use oxydactylus.Panel.Error.{ok}
use oxydactylus.Panel.Store.{
  Uuid, Time, Egg, EggVariable, InstallScript, Db, World, Panel, pure, ◌>>◌, statement,
}
use oxydactylus.Panel.Store.Frame.{ok_at, ok_lift, statement_sound}
use oxydactylus.Panel.EggVars.{variables_of}
use oxydactylus.Panel.Eggs.{
  CreateVariableRequest, UpsertInstallScriptRequest, has_egg, new_variable, insert_egg,
  insert_variable, new_script, put_script,
}
use oxydactylus.Panel.Eggs.Import.{
  Ptdlv2, imported_egg, import_variables, import_script, import_egg,
}
use oxydactylus.Panel.Eggs.References.{AreOfEggs}
use oxydactylus.Panel.Eggs.Absent.{variables_free, scripts_free}

-- The rows of the variables, with the identifiers from number `n` on.
abbrev pub rows : (ℕ → Uuid) → ℕ → Uuid → List CreateVariableRequest → List EggVariable
rows fresh n egg_id [] = []
rows fresh n egg_id (var ∷ vars) =
    new_variable (fresh n) egg_id var ∷ rows fresh (suc n) egg_id vars

abbrev pub scripts_of : Uuid → Uuid → Option UpsertInstallScriptRequest → List InstallScript
scripts_of id egg_id none = []
scripts_of id egg_id (some install) = new_script id egg_id install ∷ []

-- The tables with the egg, its variables and its script, each behind the rows that were there.
abbrev pub imported : (ℕ → Uuid) → Uuid → Uuid → Time → Ptdlv2 → Db → Db
imported fresh egg_id script_id now body d = record d {
  eggs = d.eggs ++ (imported_egg egg_id now body ∷ []);
  egg_variables = d.egg_variables ++ rows fresh zero egg_id body.variables;
  egg_install_scripts = d.egg_install_scripts ++ scripts_of script_id egg_id body.installation;
}

abbrev with_variables : List EggVariable → Db → Db
with_variables vs d = record d { egg_variables = d.egg_variables ++ vs }

abbrev with_scripts : List InstallScript → Db → Db
with_scripts ss d = record d { egg_install_scripts = d.egg_install_scripts ++ ss }

insert_variable_ok :
    (v a : EggVariable) (d : Db)
    → (insert_variable v d).0 ≡ ok a
    → (insert_variable v d).1 ≡ with_variables (v ∷ []) d
unfolding insert_variable
insert_variable_ok v a d h = elim (Bool-cases (has_egg v.egg_id d)) [
  | inl there ↦ rw there refl
  | inr absent ↦ let failed = rw absent at h in cc
]

with_variables-append :
    (d : Db) (vs ws : List EggVariable)
    → with_variables ws (with_variables vs d) ≡ with_variables (vs ++ ws) d
with_variables-append d vs ws =
    ap (λ (us : List EggVariable). record d { egg_variables = us })
      (append_assoc d.egg_variables vs ws)

import_variables_ok :
    (fresh : ℕ → Uuid) (n : ℕ) (egg_id : Uuid) (vars : List CreateVariableRequest) (w : World)
    (u : Unit {0})
    → (import_variables fresh n egg_id vars w).0 ≡ ok u
    → (import_variables fresh n egg_id vars w).1.db ≡ with_variables (rows fresh n egg_id vars) w.db
unfolding import_variables
import_variables_ok fresh n egg_id [] w u = λ h. sym (
    ap (λ (us : List EggVariable). record w.db { egg_variables = us })
      (append-nil w.db.egg_variables))
import_variables_ok fresh n egg_id (var ∷ vars) w u =
    let v = new_variable (fresh n) egg_id var in
    let G : World → Type 0 =
      λ w'. w'.db ≡ with_variables (v ∷ rows fresh (suc n) egg_id vars) w.db in
    ok_at G (statement (insert_variable v)) _ w u λ r er.
      let (value, tables) = statement_sound (insert_variable v) w r er in
      ok_lift G r _ (statement (insert_variable v) w).1 u λ a ea h.
        let later =
          import_variables_ok fresh (suc n) egg_id vars (statement (insert_variable v) w).1 u h in
        let first = tables ∙ insert_variable_ok v a w.db (sym value ∙ ea) in
        later
        ∙ ap (with_variables (rows fresh (suc n) egg_id vars)) first
        ∙ with_variables-append w.db (v ∷ []) (rows fresh (suc n) egg_id vars)

put_script_ok :
    (s : InstallScript) (d : Db) (u : Unit {0})
    → any (λ t. t.egg_id == s.egg_id) d.egg_install_scripts ≡ false
    → (put_script s d).0 ≡ ok u
    → (put_script s d).1 ≡ with_scripts (s ∷ []) d
unfolding put_script
put_script_ok s d u free h = elim (Bool-cases (has_egg s.egg_id d)) [
  | inl there ↦ rw (free, there) refl
  | inr absent ↦ let failed = rw (free, absent) at h in cc
]

import_script_ok :
    (id egg_id : Uuid) (installation : Option UpsertInstallScriptRequest) (w : World) (u : Unit {0})
    → any (λ t. t.egg_id == egg_id) w.db.egg_install_scripts ≡ false
    → (import_script id egg_id installation w).0 ≡ ok u
    → (import_script id egg_id installation w).1.db
      ≡ with_scripts (scripts_of id egg_id installation) w.db
unfolding import_script
import_script_ok id egg_id none w u free = λ h. sym (
    ap (λ (ss : List InstallScript). record w.db { egg_install_scripts = ss })
      (append-nil w.db.egg_install_scripts))
import_script_ok id egg_id (some install) w u free =
    let s = new_script id egg_id install in
    let G : World → Type 0 = λ w'. w'.db ≡ with_scripts (s ∷ []) w.db in
    ok_at G (statement (put_script s)) _ w u λ r er h.
      let (value, tables) = statement_sound (put_script s) w r er in
      tables ∙ put_script_ok s w.db u free (sym value ∙ h)

rows-All :
    (fresh : ℕ → Uuid) (n : ℕ) (egg_id : Uuid) (vars : List CreateVariableRequest)
    → All (λ v. (v.egg_id == egg_id) ≡ true) (rows fresh n egg_id vars)
rows-All fresh n egg_id [] = tt
rows-All fresh n egg_id (var ∷ vars) = (==_refl egg_id, rows-All fresh (suc n) egg_id vars)

module _ (fresh : ℕ → Uuid) (egg_id script_id : Uuid) (now : Time) (body : Ptdlv2) (w : World) where
  abbrev e : Egg
  e = imported_egg egg_id now body

  abbrev Done : Egg → World → Type 0
  Done egg w' = (egg ≡ e) × (w'.db ≡ imported fresh egg_id script_id now body w.db)

  -- What comes after the egg's row.
  abbrev finish : Egg → Panel Egg
  finish a = do
    import_variables fresh zero a.id body.variables
    import_script script_id a.id body.installation
    pure a

  completed :
      (a egg : Egg) (w1 : World)
      → any (λ t. t.egg_id == egg_id) w.db.egg_install_scripts ≡ false
      → a ≡ e
      → w1.db ≡ (insert_egg e w.db).1
      → (finish a w1).0 ≡ ok egg
      → Done egg (finish a w1).1
  unfolding insert_egg
  completed a egg w1 free same tables =
      let ids : a.id ≡ egg_id = ap (λ (x : Egg). x.id) same in
      ok_at (Done egg) (import_variables fresh zero a.id body.variables) _ w1 egg λ u eu.
        let w2 = (import_variables fresh zero a.id body.variables w1).1 in
        let second : w2.db
            ≡ with_variables (rows fresh zero a.id body.variables) (insert_egg e w.db).1 =
          import_variables_ok fresh zero a.id body.variables w1 u eu
          ∙ ap (with_variables (rows fresh zero a.id body.variables)) tables in
        let free' : any (λ t. t.egg_id == a.id) w2.db.egg_install_scripts ≡ false =
          ap (λ (d : Db). any (λ t. t.egg_id == a.id) d.egg_install_scripts) second
          ∙ ap (λ (x : Uuid). any (λ t. t.egg_id == x) w.db.egg_install_scripts) ids
          ∙ free in
        ok_at (Done egg) (import_script script_id a.id body.installation) _ w2 egg λ u' eu' h.
          let answered : a ≡ egg = ground arith in
          let third = import_script_ok script_id a.id body.installation w2 u' free' eu' in
          (
            sym answered ∙ same,
            third
                ∙ ap (with_scripts (scripts_of script_id a.id body.installation)) second
                ∙ ap
                    (λ (x : Uuid).
                      with_scripts (scripts_of script_id x body.installation)
                        (with_variables (rows fresh zero x body.variables) (insert_egg e w.db).1))
                    ids,
          )

  -- An import under a new identifier that succeeds, whichever statements might have failed, answers
  -- with the egg of the document; the egg, a row for each of its variables, in their order, and its
  -- install script, if it has one, stand behind the rows that were there, and nothing else of the
  -- tables is changed. The variables that the panel then reads for the egg are exactly those rows.
  pub import_egg_ok :
      (egg : Egg)
      → AreOfEggs w.db
      → has_egg egg_id w.db ≡ false
      → (import_egg fresh egg_id script_id now body w).0 ≡ ok egg
      → let after = (import_egg fresh egg_id script_id now body w).1.db in
        (egg ≡ imported_egg egg_id now body)
        × (after ≡ imported fresh egg_id script_id now body w.db)
        × (variables_of egg_id after ≡ rows fresh zero egg_id body.variables)
  unfolding import_egg variables_of insert_egg
  import_egg_ok egg h absent ok_is =
      let (answered, tables) =
        ok_at (Done egg) (statement (insert_egg e)) _ w egg
          (λ a ea.
            let (value, now_is) = statement_sound (insert_egg e) w a ea in
            completed a egg (statement (insert_egg e) w).1 (scripts_free egg_id w.db h absent) value
              now_is)
          ok_is in
      (
        answered,
        tables,
        ap (variables_of egg_id) tables
            ∙ select-append_fresh (λ (v : EggVariable). v.egg_id == egg_id) w.db.egg_variables
                (rows fresh zero egg_id body.variables) (variables_free egg_id w.db h absent)
                (rows-All fresh zero egg_id body.variables),
      )
