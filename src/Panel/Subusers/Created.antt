-- ===== src/Panel/Subusers/Created.antt =====
-- What an addition of a subuser that succeeds has done: `create_subuser` of
-- crates/panel/src/subusers.rs.
use oxydactylus.Base.{String, true, ◌==◌, ◌≡◌, ◌⊎◌, some, List, [], ◌∷◌, ◌++◌, any}
use oxydactylus.Panel.Permissions.{contains}
use oxydactylus.Panel.Store.{Uuid, Server, ServerSubuser, Db, Panel}
use oxydactylus.Panel.Access.{AuthUser, subuser_permissions, server_by_id}

-- The owner of the server, or a user with a row that grants the permission on it.
abbrev pub Granted : AuthUser → Uuid → String → Db → Type 0
Granted user server_id perm d =
    (s : Server) × (server_by_id server_id d ≡ some s)
    × ((s.user_id ≡ user.id)
        ⊎ ((perms : List String) × (subuser_permissions server_id user.id d ≡ some perms)
            × (contains perms perm ≡ true)))

-- An administrator, or one of those.
abbrev pub Permitted : AuthUser → Uuid → String → Db → Type 0
Permitted user server_id perm d = (user.is_admin ≡ true) ⊎ Granted user server_id perm d

-- What an insertion that succeeds has made of the tables.
abbrev pub Added : ServerSubuser → ServerSubuser → Db → Db → Type 0
Added r out d d' =
    (out ≡ r)
    × (any (λ s. s.id == r.server_id) d.servers ≡ true)
    × (any (λ u. u.id == r.user_id) d.users ≡ true)
    × (d' ≡ record d { server_subusers = d.server_subusers ++ (r ∷ []) })
