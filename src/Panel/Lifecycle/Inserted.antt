-- ===== src/Panel/Lifecycle/Inserted.antt =====
-- What the statements of `create_server` of crates/panel/src/servers.rs make of the tables.
use oxydactylus.Base.{
  String, Bool, true, false, not, ◌==◌, ◌≡◌, refl, sym, ap, ◌∙◌, inl, inr, Bool-cases, Option, none,
  some, List, [], ◌∷◌, ◌++◌, Memᴰ, update, count, arith, any, str_eq, if◌then◌else◌,
}
use oxydactylus.Panel.Error.{PanelError, Result, ok, err}
use oxydactylus.Panel.Store.{
  Uuid, Server, Allocation, Db, World, attempt, pure, raise, execute, ◌>>◌,
}
use oxydactylus.Panel.Network.{set_primary}
use oxydactylus.Panel.Power.{set_status}
use oxydactylus.Panel.Lifecycle.{is_free, link, insert_server, has_egg_of}

-- An update changes the rows that its clause holds for.
update-Memᴰ_hit {ℓ} :
    {A : Type ℓ} (p : A → Bool) (f : A → A) (xs : List A) (x : A)
    → p x ≡ true
    → Memᴰ x xs
    → Memᴰ (f x) (update p f xs)
unfolding update
update-Memᴰ_hit p f [] x hit m = elim m [ ]
update-Memᴰ_hit p f (y ∷ xs) x hit (Memᴰ.head e) = Memᴰ.head (rw (ap p (sym e) ∙ hit) (ap f e))
update-Memᴰ_hit p f (y ∷ xs) x hit (Memᴰ.tail m) = Memᴰ.tail (update-Memᴰ_hit p f xs x hit m)

-- Where a count is not 0, there is a row that it counts.
counted {ℓ} :
    {A : Type ℓ} (p : A → Bool) (xs : List A)
    → (count p xs == 0) ≡ false
    → (x : A) × Memᴰ x xs × (p x ≡ true)
unfolding count
counted p [] h = cc
counted p (x ∷ xs) h = elim (Bool-cases (p x)) [
  | inl e ↦ (x, Memᴰ.head refl, e)
  | inr e ↦ let (y, m, e') = counted p xs (rw e at h) in (y, Memᴰ.tail m, e')
]

append-Memᴰ_last {ℓ} : {A : Type ℓ} (xs : List A) (x : A) → Memᴰ x (xs ++ (x ∷ []))
append-Memᴰ_last [] x = Memᴰ.head refl
append-Memᴰ_last (y ∷ xs) x = Memᴰ.tail (append-Memᴰ_last xs x)

-- The value of a statement and a result that succeed.
pub value_of_pure :
    (f : Db → Db) (a b : Server) (w : World) → ((execute f >> pure a) w).0 ≡ ok b → b ≡ a
unfolding execute
value_of_pure f a b w h = ground arith

pub raised :
    (f : Db → Db) (e : PanelError) (b : Server) (w : World) {P : Type 0}
    → ((attempt (execute f) >> raise e) w).0 ≡ ok b
    → P
unfolding execute
raised f e b w h = cc

pub set_primary-Memᴰ :
    (a : Uuid) (s : Server) (d : Db)
    → Memᴰ s d.servers
    → Memᴰ (record s { allocation_id = some a }) (set_primary a s.id d).servers
      × ((set_primary a s.id d).allocations ≡ d.allocations)
unfolding set_primary
set_primary-Memᴰ a s d m = (
  update-Memᴰ_hit (λ t. t.id == s.id) (λ t. record t { allocation_id = some a }) d.servers s
      (ground arith) m,
  refl,
)

pub set_status-Memᴰ :
    (text : String) (s : Server) (d : Db)
    → Memᴰ s d.servers
    → Memᴰ (record s { status = text }) (set_status s.id text d).servers
      × ((set_status s.id text d).allocations ≡ d.allocations)
unfolding set_status
set_status-Memᴰ text s d m = (
  update-Memᴰ_hit (λ t. t.id == s.id) (λ t. record t { status = text }) d.servers s (ground arith)
      m,
  refl,
)

-- What an insertion that succeeds has made of the tables.
abbrev pub Stored : Server → Server → Db → Result Server × Db → Type 0
Stored s out d (r, d') = (out ≡ s) × Memᴰ s d'.servers × (d'.allocations ≡ d.allocations)

-- A check that was passed.
passed :
    (s out : Server) (d : Db) (b : Bool) (x : PanelError) (q : Result Server × Db)
    → (if b then (err x, d) else q).0 ≡ ok out
    → (q.0 ≡ ok out → Stored s out d q)
    → Stored s out d (if b then (err x, d) else q)
passed s out d true x q h rest = cc
passed s out d false x q h rest = rest h

pub insert_server_ok :
    (s out : Server) (d : Db) → (insert_server s d).0 ≡ ok out → Stored s out d (insert_server s d)
unfolding insert_server
insert_server_ok s out d h = passed s out d (not (any (λ u. u.id == s.user_id) d.users)) _ _ h λ h1.
    passed s out d (not (any (λ n. n.id == s.node_id) d.nodes)) _ _ h1 λ h2.
      passed s out d (not (has_egg_of s.egg_id d)) _ _ h2 λ h3.
        passed s out d (any (λ t. str_eq t.name s.name) d.servers) _ _ h3
          λ h4. (ground arith, append-Memᴰ_last d.servers s, refl)

-- A free allocation of a node is linked to a server.
abbrev pub Linked : Uuid → Uuid → Uuid → List Allocation → List Allocation → Type 0
Linked server_id node_id a before after =
    (x : Allocation) × Memᴰ x before
    × (x.id ≡ a)
    × (x.node_id ≡ node_id)
    × (x.server_id ≡ none)
    × Memᴰ (record x { server_id = some server_id }) after

none_of : (o : Option Uuid) → (elim o [ none ↦ true | some _ ↦ false ]) ≡ true → o ≡ none
none_of none h = refl
none_of (some k) h = cc

is_free_iff :
    (a node_id : Uuid) (x : Allocation)
    → is_free a node_id x ≡ true
    → (x.id ≡ a) × (x.node_id ≡ node_id) × (x.server_id ≡ none)
is_free_iff a node_id x h = (ground arith, ground arith, none_of x.server_id (ground arith))

pub servers-link :
    (server_id a node_id : Uuid) (d : Db) → (link server_id a node_id d).1.servers ≡ d.servers
unfolding link
servers-link server_id a node_id d = refl

pub link-Linked :
    (server_id a node_id : Uuid) (d : Db)
    → ((link server_id a node_id d).0 == 0) ≡ false
    → Linked server_id node_id a d.allocations (link server_id a node_id d).1.allocations
unfolding link
link-Linked server_id a node_id d h =
    let (x, m, e) = counted (is_free a node_id) d.allocations h in
    let (e1, e2, e3) = is_free_iff a node_id x e in
    (
      x,
      m,
      e1,
      e2,
      e3,
      update-Memᴰ_hit (is_free a node_id) (λ y. record y { server_id = some server_id })
          d.allocations x e m,
    )
