-- ===== src/Panel/EggVars/Editable.antt =====
-- That a value given for a variable which users may not edit has no effect: `load_egg_env` of
-- crates/panel/src/egg_vars.rs.
use mathlib.Core.Path.{subst}
use oxydactylus.Base.{
  String, Bool, true, ◌==◌, ==_iff, ◌≡◌, refl, ap, inl, inr, Bool-cases, Option, List, [], ◌∷◌,
  Memᴰ, select-Memᴰ,
}
use oxydactylus.Panel.Error.{Result, ok, err}
use oxydactylus.Panel.Store.{Uuid, EggVariable, World, query, lift, continue}
use oxydactylus.Panel.Store.Frame.{query_sound}
use oxydactylus.Panel.EggVars.{
  get, or_else, or_default, variables_of, value_of, resolve_env, load_egg_env,
}

module _ (new_regex : String → Option (String → Bool)) (u u' : List (String × String)) where
  -- The two requests give the same values to the variables that users may edit.
  abbrev IsSame : List EggVariable → Type 0
  IsSame vs =
      (v : EggVariable)
      → Memᴰ v vs
      → v.user_editable ≡ true
      → get v.env_variable u ≡ get v.env_variable u'

  value_of-eq :
      (v : EggVariable)
      → (v.user_editable ≡ true → get v.env_variable u ≡ get v.env_variable u')
      → value_of new_regex u v ≡ value_of new_regex u' v
  unfolding value_of
  value_of-eq v same = elim (Bool-cases v.user_editable) [
    | inl e ↦ rw (e, value_of) (ap (λ o. or_default (or_else o v.default_val)) (same e))
    | inr e ↦ rw (e, value_of) refl
  ]

  resolve_env-eq :
      (vs : List EggVariable) → IsSame vs → resolve_env new_regex u vs ≡ resolve_env new_regex u' vs
  unfolding resolve_env
  resolve_env-eq [] same = refl
  resolve_env-eq (v ∷ vs) same =
      let first : value_of new_regex u v ≡ value_of new_regex u' v =
        value_of-eq v (same v (Memᴰ.head refl)) in
      let later : resolve_env new_regex u vs ≡ resolve_env new_regex u' vs =
        resolve_env-eq vs (λ x m. same x (Memᴰ.tail m)) in
      rw (first, later)

  -- Two requests that give the same values to the variables of an egg which users may edit have the
  -- same result and the same effect, whatever they give for the others.
  load_egg_env-eq :
      (egg_id : Uuid) (w : World)
      → ((v : EggVariable)
          → Memᴰ v w.db.egg_variables
          → v.egg_id ≡ egg_id
          → v.user_editable ≡ true
          → get v.env_variable u ≡ get v.env_variable u')
      → load_egg_env new_regex u egg_id w ≡ load_egg_env new_regex u' egg_id w
  unfolding load_egg_env variables_of
  load_egg_env-eq egg_id w same = go (query (variables_of egg_id) w).0 refl
    where
      go :
          (r : Result (List EggVariable))
          → (query (variables_of egg_id) w).0 ≡ r
          → continue r (λ vs. lift (resolve_env new_regex u vs)) (query (variables_of egg_id) w).1
            ≡ continue r
                (λ vs. lift (resolve_env new_regex u' vs))
                (query (variables_of egg_id) w).1
      go (err x) e = refl
      go (ok vs) e =
          ap (λ r. (r, (query (variables_of egg_id) w).1))
            (resolve_env-eq vs λ v m.
              let (there, own) =
                select-Memᴰ (λ x. x.egg_id == egg_id) w.db.egg_variables v
                  (subst (λ l. Memᴰ v l) (query_sound (variables_of egg_id) w vs e) m) in
              same v there ((==_iff v.egg_id egg_id).0 own))
