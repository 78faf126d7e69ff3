-- ===== src/Panel/Startup/Editable.antt =====
-- What a user who is no administrator cannot change of the variables of a server: crates/panel/src/
-- startup.rs.
use mathlib.Core.Path.{subst}
use oxydactylus.Base.{
  String, Bool, false, ◌≡◌, refl, sym, ◌∙◌, ap, arith, Option, none, some, List, [], ◌∷◌, map, Memᴰ,
  str_eq, eq_iff, Bool-cases, inl, inr,
}
use oxydactylus.Base.Text.{contains_char}
use oxydactylus.Panel.Error.{Result, ok, err, ◌>>=◌}
use oxydactylus.Panel.Store.{Uuid, Server, EggVariable, Db, World, Panel, pure}
use oxydactylus.Panel.Access.Guarded.{Authorised, load_server_with_access_ok}
use oxydactylus.Panel.Store.Frame.{ok_at, ok_lift, ok_query, ok_execute}
use oxydactylus.Panel.Access.{AuthUser, server_by_id, load_server_with_access}
use oxydactylus.Panel.EggVars.{get, variables_of}
use oxydactylus.Panel.EnvMap.{EnvMap, insert, env_map, format_entry}
use oxydactylus.Panel.EnvMap.Laws.{get-insert_other}
use oxydactylus.Panel.EnvMap.Stored.{
  Fine, IsOrder, insert-AreOnce, insert-AreNames, env_map-Fine, get-env_map,
}
use oxydactylus.Panel.Startup.{
  StartupVariable, update_variable, update_variables, set_env, find_value, startup_of,
}
use oxydactylus.Panel.Startup.Routes.{update_with_egg, update_startup}

-- No variable of the list has the name and may be edited.
abbrev pub NotEditable : String → List EggVariable → Type 0
NotEditable name vs =
    (v : EggVariable) → Memᴰ v vs → v.env_variable ≡ name → v.user_editable ≡ false

-- The names of the variables have no equals sign.
abbrev pub AreNamed : List EggVariable → Type 0
AreNamed vs = (v : EggVariable) → Memᴰ v vs → contains_char b'=' v.env_variable ≡ false

-- What the part that knows the server and its egg makes of the tables `d`: another environment for
-- the server, which says at the name what its environment said.
abbrev pub Kept : Uuid → Server → String → Db → Db → Type 0
Kept server_id s name d d' =
    (env : List String) × (d' ≡ set_env server_id env d)
    × (get name (env_map env) ≡ get name (env_map s.env))

ok_value : {m m' : EnvMap} → ok m ≡ ok m' → m ≡ m'
ok_value h = ground arith

module _ (new_regex : String → Option (String → Bool)) (user : AuthUser) (variables : EnvMap)
    (is_user : user.is_admin ≡ false) where
  update_variable-kept :
      (name : String) (v : EggVariable) (o : Option String) (m m' : EnvMap)
      → (v.env_variable ≡ name → v.user_editable ≡ false)
      → update_variable new_regex user variables v o m ≡ ok m'
      → get name m' ≡ get name m
  unfolding update_variable
  update_variable-kept name v none m m' fixed h = ground arith
  update_variable-kept name v (some new_val) m m' fixed h =
      elim (Bool-cases (str_eq v.env_variable name)) [
        | inl e ↦ let no_edit = fixed ((eq_iff v.env_variable name).0 e) in ground arith
        | inr other ↦
            let there : insert v.env_variable new_val m ≡ m' = ground arith in
            rw (sym there) (get-insert_other name v.env_variable new_val m other)
      ]

  -- Where the loop gives an environment, it is the same at a name that may not be edited.
  update_variables-kept :
      (name : String) (vs : List EggVariable) (m m' : EnvMap)
      → NotEditable name vs
      → update_variables new_regex user variables vs m ≡ ok m'
      → get name m' ≡ get name m
  unfolding update_variables
  update_variables-kept name [] m m' fixed h = ground arith
  update_variables-kept name (v ∷ vs) m m' fixed h =
      go _ refl h (λ m1. update_variables-kept name vs m1 m' (λ u mu. fixed u (Memᴰ.tail mu)))
    where
      go :
          (r : Result EnvMap)
          → update_variable new_regex user variables v (get v.env_variable variables) m ≡ r
          → (r >>= update_variables new_regex user variables vs) ≡ ok m'
          → ((m1 : EnvMap)
              → update_variables new_regex user variables vs m1 ≡ ok m'
              → get name m' ≡ get name m1)
          → get name m' ≡ get name m
      go (ok m1) e h' ih =
          ih m1 h' ∙ update_variable-kept name v _ m m1 (fixed v (Memᴰ.head refl)) e
      go (err x) e h' ih = cc

  update_variable-Fine :
      (v : EggVariable) (o : Option String) (m m' : EnvMap)
      → contains_char b'=' v.env_variable ≡ false
      → Fine m
      → update_variable new_regex user variables v o m ≡ ok m'
      → Fine m'
  unfolding update_variable
  update_variable-Fine v none m m' free h e = subst Fine (ok_value e) h
  update_variable-Fine v (some new_val) m m' free (once, names) h =
      let there : insert v.env_variable new_val m ≡ m' = ground arith in
      subst Fine there (
        insert-AreOnce v.env_variable new_val m once,
        insert-AreNames v.env_variable new_val m free names,
      )

  update_variables-Fine :
      (vs : List EggVariable) (m m' : EnvMap)
      → AreNamed vs
      → Fine m
      → update_variables new_regex user variables vs m ≡ ok m'
      → Fine m'
  unfolding update_variables
  update_variables-Fine [] m m' named fine h = subst Fine (ok_value h) fine
  update_variables-Fine (v ∷ vs) m m' named fine h =
      go (update_variable new_regex user variables v (get v.env_variable variables) m)
        (λ m1.
          update_variable-Fine v (get v.env_variable variables) m m1 (named v (Memᴰ.head refl))
            fine)
        (λ m1. update_variables-Fine vs m1 m' (λ u mu. named u (Memᴰ.tail mu))) h
    where
      go :
          (r : Result EnvMap)
          → ((m1 : EnvMap) → r ≡ ok m1 → Fine m1)
          → ((m1 : EnvMap)
              → Fine m1
              → update_variables new_regex user variables vs m1 ≡ ok m'
              → Fine m')
          → (r >>= update_variables new_regex user variables vs) ≡ ok m'
          → Fine m'
      go (ok m1) now later e = later m1 (now m1 refl) e
      go (err x) now later e = cc

  update_with_egg-Kept :
      (iter : EnvMap → EnvMap) (server_id egg_id : Uuid) (s : Server) (name : String)
      (o : Option Uuid) (v : World) (answer : List StartupVariable)
      → o ≡ some egg_id
      → IsOrder iter
      → NotEditable name (variables_of egg_id v.db)
      → AreNamed (variables_of egg_id v.db)
      → (update_with_egg new_regex iter user variables server_id s o v).0 ≡ ok answer
      → Kept server_id s name v.db
          (update_with_egg new_regex iter user variables server_id s o v).1.db
  unfolding update_with_egg
  update_with_egg-Kept iter server_id egg_id s name none v answer o_is order fixed named h = cc
  update_with_egg-Kept iter server_id egg_id s name (some e') v answer o_is order fixed named h =
      let same_egg : e' ≡ egg_id = ground arith in
      let G : World → Type 0 = λ u. Kept server_id s name v.db u.db in
      ok_query G (variables_of e') _ v answer
        (λ vs v1 same1 vs_is.
          ok_lift G (update_variables new_regex user variables vs (env_map s.env)) _ v1 answer
            λ m made.
              let env = map format_entry (iter m) in
              let at_egg : (P : List EggVariable → Type 0) → P (variables_of egg_id v.db) → P vs =
                λ P. subst P (ap (λ k. variables_of k v.db) (sym same_egg) ∙ sym vs_is) in
              let (once, names) =
                update_variables-Fine vs (env_map s.env) m (at_egg AreNamed named)
                  (env_map-Fine s.env) made in
              ok_execute G (set_env server_id env) (λ _. pure (startup_of user (find_value env) vs))
                v1 answer
                λ _ v2 now_is _. (
                  env,
                  now_is ∙ ap (set_env server_id env) same1,
                  get-env_map iter name m order once names
                      ∙ update_variables-kept name vs (env_map s.env) m
                          (at_egg (NotEditable name) fixed) made,
                ))
        h

  -- A user who is no administrator and whose change of the variables succeeds may act on the
  -- server; the environment of the server is the only thing that is changed. Read again from the
  -- texts that are stored, a name that no variable of the server's egg has as one that users may
  -- edit has the value that it had, or is still without one. This is said of an egg whose variables
  -- have no equals sign in their names, whatever the order is in which the hash map gives its
  -- entries.
  pub update_startup-Kept :
      (iter : EnvMap → EnvMap) (server_id egg_id : Uuid) (server : Server) (name : String)
      (w : World) (answer : List StartupVariable)
      → (update_startup new_regex iter user variables server_id w).0 ≡ ok answer
      → server_by_id server_id w.db ≡ some server
      → server.egg_id ≡ some egg_id
      → IsOrder iter
      → NotEditable name (variables_of egg_id w.db)
      → AreNamed (variables_of egg_id w.db)
      → Authorised user server_id none w.db
        × Kept server_id server name w.db
            (update_startup new_regex iter user variables server_id w).1.db
  unfolding update_startup
  update_startup-Kept iter server_id egg_id server name w answer h here egg order fixed named =
      let load = load_server_with_access user server_id none in
      let rest : Server → Panel (List StartupVariable) =
        λ s. update_with_egg new_regex iter user variables server_id s s.egg_id in
      ok_at (λ v. Authorised user server_id none w.db × Kept server_id server name w.db v.db) load
        rest w answer
        (λ s e h1.
          let (q, found, authorised) = load_server_with_access_ok user server_id none w s e in
          let s_is : s ≡ server = ground (arith, sym found ∙ here) in
          let v = (load w).1 in
          let kept =
            update_with_egg-Kept iter server_id egg_id s name s.egg_id v answer
              (ap (λ (x : Server). x.egg_id) s_is ∙ egg) order
              (subst (λ d. NotEditable name (variables_of egg_id d)) (sym q.db) fixed)
              (subst (λ d. AreNamed (variables_of egg_id d)) (sym q.db) named) h1 in
          (
            authorised,
            subst (λ d. Kept server_id server name d (rest s v).1.db) q.db
                (subst (λ x. Kept server_id x name v.db (rest s v).1.db) s_is kept),
          ))
        h
