-- ===== src/Panel/Access/Laws.antt =====
-- When a user may act on a server, as a relation on the tables, and that the two access checks
-- of crates/panel/src decide it.
use oxydactylus.Base.{
  String, ◌≡◌, refl, sym, ◌∙◌, ◌↔◌, inl, inr, true, false, ◌&&◌, ◌||◌, Option, none, some, List, [],
  ◌∷◌, Memᴰ, arith, ◌==◌, find, find-Memᴰ, find_of_Memᴰ, Bool-cases, Option-cases,
}
use oxydactylus.Panel.Permissions.{contains}
use oxydactylus.Panel.Permissions.Laws.{contains→Memᴰ, Memᴰ→contains}
use oxydactylus.Panel.Error.{ok, err, forbidden}
use oxydactylus.Panel.Store.{Uuid, Server, ServerSubuser, Db, World, calm, query}
use oxydactylus.Panel.Store.Frame.{Quiet}
use oxydactylus.Panel.Access.{
  AuthUser, subuser_permissions, judge, judge_access, check_server_access, check_access,
  check_access_of, server_by_id,
}

-- A subuser's permissions allow an action that wants `perm`; one that wants none needs any.
pub data Grants : Option String → List String → Type 0 where
  any_one : (q : String) (ps : List String) → Grants none (q ∷ ps)
  listed : (p : String) (ps : List String) → Memᴰ p ps → Grants (some p) ps

-- The user is an admin, the server's owner, or a subuser of it who was granted the permission.
pub data Allowed (user : AuthUser) (server : Server) (perm : Option String) (d : Db) : Type 0 where
  admin : user.is_admin ≡ true → Allowed user server perm d
  owner : server.user_id ≡ user.id → Allowed user server perm d
  subuser :
      (r : ServerSubuser)
      → Memᴰ r d.server_subusers
      → r.server_id ≡ server.id
      → r.user_id ≡ user.id
      → Grants perm r.permissions
      → Allowed user server perm d

-- UNIQUE (server_id, user_id) of `server_subusers`.
abbrev pub OneSubuser : Db → Type 0
OneSubuser d =
    (r s : ServerSubuser)
    → Memᴰ r d.server_subusers
    → Memᴰ s d.server_subusers
    → r.server_id ≡ s.server_id
    → r.user_id ≡ s.user_id
    → r ≡ s

judge_sound :
    (perm : Option String) (ps : List String) → judge perm (some ps) ≡ ok tt → Grants perm ps
unfolding judge
judge_sound none [] h = cc
judge_sound (some p) [] h = cc
judge_sound none (q ∷ ps) h = any_one q ps
judge_sound (some p) (q ∷ ps) h = listed p (q ∷ ps) (contains→Memᴰ (q ∷ ps) p (ground arith))

judge_complete :
    (perm : Option String) (ps : List String) → Grants perm ps → judge perm (some ps) ≡ ok tt
unfolding judge
judge_complete none _ (any_one q ps) = refl
judge_complete (some _) [] (listed p ps m) = elim m [ ]
judge_complete (some _) (q ∷ ps) (listed p _ m) =
    let h : contains (q ∷ ps) p ≡ true = Memᴰ→contains (q ∷ ps) p m in rw h

judge-none : (perm : Option String) → judge perm none ≡ err forbidden
unfolding judge
judge-none none = refl
judge-none (some p) = refl

-- What the query on `server_subusers` returns is the column of a row of the two.
subuser_permissions-row :
    (server_id user_id : Uuid) (d : Db) (ps : List String)
    → subuser_permissions server_id user_id d ≡ some ps
    → (r : ServerSubuser) × Memᴰ r d.server_subusers
      × (r.server_id ≡ server_id)
      × (r.user_id ≡ user_id)
      × (r.permissions ≡ ps)
unfolding subuser_permissions
subuser_permissions-row server_id user_id d ps h =
    let p = λ (r : ServerSubuser). r.server_id == server_id && r.user_id == user_id in
    elim (Option-cases (find p d.server_subusers)) [
      | inl missing ↦ cc missing
      | inr (r, found) ↦
          let (m, hit) = find-Memᴰ p d.server_subusers r found in
          (r, m, ground arith, ground arith, ground arith)
    ]

module _ (user : AuthUser) (server : Server) (perm : Option String) where
  judge_row :
      (d : Db) (o : Option (List String))
      → subuser_permissions server.id user.id d ≡ o
      → judge perm o ≡ ok tt
      → Allowed user server perm d
  judge_row d none e h = let h' : err forbidden ≡ ok tt = sym (judge-none perm) ∙ h in cc
  judge_row d (some ps) e h =
      let (r, m, same_server, same_user, same_ps) =
        subuser_permissions-row server.id user.id d ps e in
      subuser r m same_server same_user (rw same_ps (judge_sound perm ps h))

  privileged :
      (user.is_admin || server.user_id == user.id) ≡ true → {d : Db} → Allowed user server perm d
  privileged h = elim (Bool-cases user.is_admin) [ inl e ↦ admin e | inr e ↦ owner (ground arith) ]

  -- A check that passes has found the user to be allowed.
  pub check_server_access_sound :
      (w : World)
      → (check_server_access user server perm w).0 ≡ ok tt
      → Allowed user server perm w.db
  unfolding check_server_access query
  check_server_access_sound w h = elim (Bool-cases (user.is_admin || server.user_id == user.id)) [
    | inl e ↦ privileged e
    | inr e ↦ judge_row w.db (subuser_permissions server.id user.id w.db) refl (ground arith)
  ]

  permissions_of_row :
      (d : Db) (r : ServerSubuser)
      → OneSubuser d
      → Memᴰ r d.server_subusers
      → r.server_id ≡ server.id
      → r.user_id ≡ user.id
      → subuser_permissions server.id user.id d ≡ some r.permissions
  unfolding subuser_permissions
  permissions_of_row d r one m same_server same_user =
      let p = λ (s : ServerSubuser). s.server_id == server.id && s.user_id == user.id in
      let only : (y : ServerSubuser) → Memᴰ y d.server_subusers → p y ≡ true → y ≡ r =
        λ y my hit. one y r my m (ground (arith, same_server)) (ground (arith, same_user)) in
      let found : find p d.server_subusers ≡ some r =
        find_of_Memᴰ p d.server_subusers r only m (ground (arith, same_server, same_user)) in
      rw (found, subuser_permissions) refl

  judge-Allowed :
      (d : Db)
      → OneSubuser d
      → (user.is_admin || server.user_id == user.id) ≡ false
      → Allowed user server perm d
      → judge perm (subuser_permissions server.id user.id d) ≡ ok tt
  judge-Allowed d one e (admin a) = ground arith
  judge-Allowed d one e (owner o) = ground arith
  judge-Allowed d one e (subuser r m same_server same_user g) =
      rw (permissions_of_row d r one m same_server same_user) (judge_complete perm r.permissions g)

  check_server_access_complete :
      (w : World)
      → w.faults ≡ []
      → OneSubuser w.db
      → Allowed user server perm w.db
      → (check_server_access user server perm w).0 ≡ ok tt
  unfolding check_server_access query
  check_server_access_complete w calm one a =
      elim (Bool-cases (user.is_admin || server.user_id == user.id)) [
        | inl e ↦ ground arith
        | inr e ↦ ground (arith, judge-Allowed w.db one e a)
      ]

  -- Where no statement fails and a user has one row for a server at most, the check passes
  -- exactly for the users who are admins, own the server, or were granted the permission on it.
  pub check_server_access_iff :
      (w : World)
      → w.faults ≡ []
      → OneSubuser w.db
      → ((check_server_access user server perm w).0 ≡ ok tt) ↔ Allowed user server perm w.db
  check_server_access_iff w calm one =
      (check_server_access_sound w, check_server_access_complete w calm one)

  -- Passed or not, the check changes no table and sends nothing.
  pub check_server_access-Quiet : (w : World) → Quiet w (check_server_access user server perm w).1
  unfolding check_server_access query
  check_server_access-Quiet w = ground arith

-- On a calm world the check of an allowed user passes and leaves the world.
pub check_server_access-calm :
    (user : AuthUser) (server : Server) (perm : Option String) (d : Db)
    → OneSubuser d
    → Allowed user server perm d
    → check_server_access user server perm (calm d) ≡ (ok tt, calm d)
unfolding check_server_access query
check_server_access-calm user server perm d one a =
    elim (Bool-cases (user.is_admin || server.user_id == user.id)) [
      | inl e ↦ ground arith
      | inr e ↦ ground (arith, judge-Allowed user server perm d one e a)
    ]

judge_access_lem :
    (perm : String) (o : Option (List String)) → judge_access perm o ≡ judge (some perm) o
unfolding judge judge_access
judge_access_lem perm none = refl
judge_access_lem perm (some []) = refl
judge_access_lem perm (some (q ∷ ps)) = refl

-- The two checks of the panel agree: for a server of the table, where no statement fails,
-- `check_access` by identifier has the result and the effect of `check_server_access` with the
-- permission given.
check_access-check_server_access :
    (user : AuthUser) (server : Server) (perm : String) (w : World)
    → w.faults ≡ []
    → server_by_id server.id w.db ≡ some server
    → check_access user server.id perm w ≡ check_server_access user server (some perm) w
unfolding check_access check_access_of check_server_access query
check_access-check_server_access user server perm w calm here =
    ground (arith, judge_access_lem perm (subuser_permissions server.id user.id w.db))
