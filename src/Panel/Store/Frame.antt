-- ===== src/Panel/Store/Frame.antt =====
-- What reading leaves alone, and the two ways in which a statement or a request ends.
use mathlib.Core.Path.{subst}
use oxydactylus.Base.{String, ◌≡◌, refl, sym, ◌∙◌, ◌⊎◌, inl, inr, Option, none, some, arith, ◌∷◌}
use oxydactylus.Panel.Error.{PanelError, Result, ok, err}
use oxydactylus.Panel.Store.{
  World, Db, NodeClient, Request, Panel, pure, attempt, or_raise, query, fetch_one, statement,
  execute, send, open_client, ◌>>=◌, ◌>>◌, continue, lift, MySqlRequest, ask_mysql,
}

-- No table changed and no request was sent.
pub record Quiet (w w' : World) : Type 0 where
  pub db : w'.db ≡ w.db
  pub replies : w'.replies ≡ w.replies
  pub calls : w'.calls ≡ w.calls
  pub mysql_calls : w'.mysql_calls ≡ w.mysql_calls

pub Quiet-refl : (w : World) → Quiet w w
Quiet-refl w = record { db = refl; replies = refl; calls = refl; mysql_calls = refl }

pub Quiet-trans : {u v w : World} → Quiet u v → Quiet v w → Quiet u w
Quiet-trans p q = record {
  db = q.db ∙ p.db;
  replies = q.replies ∙ p.replies;
  calls = q.calls ∙ p.calls;
  mysql_calls = q.mysql_calls ∙ p.mysql_calls;
}

module _ {A : Type 0} where
  pub query-Quiet : (f : Db → A) (w : World) → Quiet w (query f w).1
  unfolding query
  query-Quiet f w = ground arith

  pub query_sound : (f : Db → A) (w : World) (a : A) → (query f w).0 ≡ ok a → a ≡ f w.db
  unfolding query
  query_sound f w a h = ground arith

  pub fetch_one-Quiet : (f : Db → Option A) (w : World) → Quiet w (fetch_one f w).1
  unfolding fetch_one
  fetch_one-Quiet f w = ground arith

  pub fetch_one_sound :
      (f : Db → Option A) (w : World) (a : A) → (fetch_one f w).0 ≡ ok a → f w.db ≡ some a
  unfolding fetch_one
  fetch_one_sound f w a h = ground arith

-- A quiet first part, and a rest that is quiet or has `P` once the first part succeeded.
module _ {A B : Type 0} (P : Type 0) (m : Panel A) (f : A → Panel B) where
  pub guarded_bind :
      (w : World)
      → Quiet w (m w).1
      → ((a : A) → (m w).0 ≡ ok a → Quiet (m w).1 (f a (m w).1).1 ⊎ P)
      → Quiet w ((m >>= f) w).1 ⊎ P
  guarded_bind w q rest = go (m w).0 refl
    where
      go : (r : Result A) → (m w).0 ≡ r → Quiet w (continue r f (m w).1).1 ⊎ P
      go (ok a) e = elim (rest a e) [ inl later ↦ inl (Quiet-trans q later) | inr p ↦ inr p ]
      go (err x) e = inl q

-- A handler that succeeds has succeeded in each part. Where the first part leaves the tables as
-- they are, what holds after the rest from such a state holds after both.
module _ {A B : Type 0} (G : World → Type 0) (m : Panel A) (f : A → Panel B) where
  pub ok_bind :
      (w : World) (b : B)
      → (m w).1.db ≡ w.db
      → ((a : A) (w' : World) → w'.db ≡ w.db → (m w).0 ≡ ok a → (f a w').0 ≡ ok b → G (f a w').1)
      → ((m >>= f) w).0 ≡ ok b
      → G ((m >>= f) w).1
  ok_bind w b same rest = go (m w).0 refl
    where
      go :
          (r : Result A)
          → (m w).0 ≡ r
          → (continue r f (m w).1).0 ≡ ok b
          → G (continue r f (m w).1).1
      go (ok a) e h = rest a (m w).1 same e h
      go (err x) e h = cc

module _ (client : NodeClient) (r : Request) (w : World) where
  pub db-send : (send client r w).1.db ≡ w.db
  unfolding send
  db-send = ground arith

  pub db-attempt-send : (attempt (send client r) w).1.db ≡ w.db
  unfolding send
  db-attempt-send = ground arith

pub db-open_client : (a t : String) (w : World) → (open_client a t w).1.db ≡ w.db
unfolding open_client
db-open_client a t w = ground arith

-- What a statement that succeeded has made of the tables.
pub execute_sound :
    (f : Db → Db) (w : World) (u : Unit {0}) → (execute f w).0 ≡ ok u → (execute f w).1.db ≡ f w.db
unfolding execute
execute_sound f w u h = ground arith

pub execute_then_pure :
    {A : Type 0} (f : Db → Db) (a : A) (w : World) {b : A}
    → ((execute f >> pure a) w).0 ≡ ok b
    → ((execute f >> pure a) w).1.db ≡ f w.db
unfolding execute
execute_then_pure f a w h = ground arith

pub execute_failed :
    (f : Db → Db) (w : World) (x : PanelError) → (execute f w).0 ≡ err x → (execute f w).1.db ≡ w.db
unfolding execute
execute_failed f w x h = ground arith

-- What holds of the tables before a handler holds after it, by its parts: one that leaves the
-- tables as they are, and a statement that keeps it.
module _ (G : Db → Type 0) where
  pub kept_bind :
      {A B : Type 0} (m : Panel A) (f : A → Panel B) (w : World)
      → (m w).1.db ≡ w.db
      → G w.db
      → ((a : A) (w' : World) → w'.db ≡ w.db → (m w).0 ≡ ok a → G (f a w').1.db)
      → G ((m >>= f) w).1.db
  kept_bind {A} {B} m f w same g rest = go (m w).0 refl
    where
      go : (r : Result A) → (m w).0 ≡ r → G (continue r f (m w).1).1.db
      go (ok a) e = rest a (m w).1 same e
      go (err x) e = subst G (sym same) g

  pub kept_query :
      {A B : Type 0} (q : Db → A) (f : A → Panel B) (w : World)
      → G w.db
      → ((a : A) (w' : World) → w'.db ≡ w.db → a ≡ q w.db → G (f a w').1.db)
      → G ((query q >>= f) w).1.db
  kept_query q f w g rest =
      kept_bind (query q) f w (query-Quiet q w).db g
        λ a w' same e. rest a w' same (query_sound q w a e)

  pub kept_execute :
      {B : Type 0} (q : Db → Db) (f : Unit {0} → Panel B) (w : World)
      → G w.db
      → ((u : Unit {0}) (w' : World) → w'.db ≡ q w.db → G (f u w').1.db)
      → G ((execute q >>= f) w).1.db
  kept_execute q f w g rest = go (execute q w).0 refl
    where
      go : (r : Result (Unit {0})) → (execute q w).0 ≡ r → G (continue r f (execute q w).1).1.db
      go (ok u) e = rest u (execute q w).1 (execute_sound q w u e)
      go (err x) e = subst G (sym (execute_failed q w x e)) g

pub statement_sound :
    {A : Type 0} (q : Db → A × Db) (w : World) (a : A)
    → (statement q w).0 ≡ ok a
    → (a ≡ (q w.db).0) × ((statement q w).1.db ≡ (q w.db).1)
unfolding statement
statement_sound q w a h = ground arith

pub statement_failed :
    {A : Type 0} (q : Db → A × Db) (w : World) (x : PanelError)
    → (statement q w).0 ≡ err x
    → (statement q w).1.db ≡ w.db
unfolding statement
statement_failed q w x h = ground arith

pub kept_statement :
    {A B : Type 0} (G : Db → Type 0) (q : Db → A × Db) (f : A → Panel B) (w : World)
    → G w.db
    → ((a : A) (w' : World) → w'.db ≡ (q w.db).1 → a ≡ (q w.db).0 → G (f a w').1.db)
    → G ((statement q >>= f) w).1.db
kept_statement {A} G q f w g rest = go (statement q w).0 refl
  where
    go : (r : Result A) → (statement q w).0 ≡ r → G (continue r f (statement q w).1).1.db
    go (ok a) e =
        let (value, tables) = statement_sound q w a e in rest a (statement q w).1 tables value
    go (err x) e = subst G (sym (statement_failed q w x e)) g

-- A statement and a rest that succeed.
pub ok_execute :
    {B : Type 0} (G : World → Type 0) (q : Db → Db) (f : Unit {0} → Panel B) (w : World) (b : B)
    → ((u : Unit {0}) (w' : World) → w'.db ≡ q w.db → (f u w').0 ≡ ok b → G (f u w').1)
    → ((execute q >>= f) w).0 ≡ ok b
    → G ((execute q >>= f) w).1
ok_execute G q f w b rest = go (execute q w).0 refl
  where
    go :
        (r : Result (Unit {0}))
        → (execute q w).0 ≡ r
        → (continue r f (execute q w).1).0 ≡ ok b
        → G (continue r f (execute q w).1).1
    go (ok u) e h = rest u (execute q w).1 (execute_sound q w u e) h
    go (err x) e h = cc

-- A handler that succeeds has gone on from the result of its first part.
pub ok_then :
    {A B : Type 0} (G : World → Type 0) (m : Panel A) (f : A → Panel B) (w : World) (b : B)
    → ((a : A) (w' : World) → (m w).0 ≡ ok a → (f a w').0 ≡ ok b → G (f a w').1)
    → ((m >>= f) w).0 ≡ ok b
    → G ((m >>= f) w).1
ok_then {A} G m f w b rest = go (m w).0 refl
  where
    go : (r : Result A) → (m w).0 ≡ r → (continue r f (m w).1).0 ≡ ok b → G (continue r f (m w).1).1
    go (ok a) e h = rest a (m w).1 e h
    go (err x) e h = cc

module _ {A : Type 0} (e : PanelError) where
  pub or_raise-keeps : (o : Option A) (w : World) → (or_raise e o w).1 ≡ w
  or_raise-keeps none w = refl
  or_raise-keeps (some a) w = refl

  pub db-or_raise : (o : Option A) (w : World) → (or_raise e o w).1.db ≡ w.db
  db-or_raise none w = refl
  db-or_raise (some a) w = refl

  pub or_raise_sound : (o : Option A) (w : World) (a : A) → (or_raise e o w).0 ≡ ok a → o ≡ some a
  or_raise_sound none w a h = cc
  or_raise_sound (some b) w a h = ground arith

-- A value that must be there, and a rest that succeeds.
pub ok_or_raise :
    {A B : Type 0} (G : World → Type 0) (e : PanelError) (o : Option A) (f : A → Panel B)
    (w : World) (b : B)
    → ((a : A) → o ≡ some a → (f a w).0 ≡ ok b → G (f a w).1)
    → ((or_raise e o >>= f) w).0 ≡ ok b
    → G ((or_raise e o >>= f) w).1
ok_or_raise G e none f w b rest h = cc
ok_or_raise G e (some a) f w b rest h = rest a refl h

-- A lookup and a rest that succeed.
pub ok_query :
    {A B : Type 0} (G : World → Type 0) (q : Db → A) (f : A → Panel B) (w : World) (b : B)
    → ((a : A) (w' : World) → w'.db ≡ w.db → a ≡ q w.db → (f a w').0 ≡ ok b → G (f a w').1)
    → ((query q >>= f) w).0 ≡ ok b
    → G ((query q >>= f) w).1
ok_query G q f w b rest =
    ok_bind G (query q) f w b (query-Quiet q w).db
      λ a w' same e. rest a w' same (query_sound q w a e)

-- The same with the state that the first part has left.
pub ok_at :
    {A B : Type 0} (G : World → Type 0) (m : Panel A) (f : A → Panel B) (w : World) (b : B)
    → ((a : A) → (m w).0 ≡ ok a → (f a (m w).1).0 ≡ ok b → G (f a (m w).1).1)
    → ((m >>= f) w).0 ≡ ok b
    → G ((m >>= f) w).1
ok_at {A} G m f w b rest = go (m w).0 refl
  where
    go : (r : Result A) → (m w).0 ≡ r → (continue r f (m w).1).0 ≡ ok b → G (continue r f (m w).1).1
    go (ok a) e h = rest a e h
    go (err x) e h = cc

-- A value that does not depend on the state.
pub ok_lift :
    {A B : Type 0} (G : World → Type 0) (r : Result A) (f : A → Panel B) (w : World) (b : B)
    → ((a : A) → r ≡ ok a → (f a w).0 ≡ ok b → G (f a w).1)
    → ((lift r >>= f) w).0 ≡ ok b
    → G ((lift r >>= f) w).1
ok_lift G (ok a) f w b rest h = rest a refl h
ok_lift G (err x) f w b rest h = cc

-- What a use of a MySQL server leaves, whatever the server answers.
module _ (failed url : String) (r : MySqlRequest) (w : World) where
  pub db-ask_mysql : (ask_mysql failed url r w).1.db ≡ w.db
  unfolding ask_mysql
  db-ask_mysql = ground arith

  pub mysql_calls-ask_mysql :
      (ask_mysql failed url r w).1.mysql_calls ≡ record { url = url; request = r } ∷ w.mysql_calls
  unfolding ask_mysql
  mysql_calls-ask_mysql = ground arith

pub mysql_calls-statement :
    {A : Type 0} (q : Db → A × Db) (w : World) → (statement q w).1.mysql_calls ≡ w.mysql_calls
unfolding statement
mysql_calls-statement q w = ground arith

-- A statement whose rest leaves the tables: they are as before, or as the statement makes them.
module _ {B : Type 0} (q : Db → Db) (w : World) where
  pub execute_cases :
      (f : Unit {0} → Panel B)
      → ((u : Unit {0}) (v : World) → (f u v).1.db ≡ v.db)
      → (((execute q >>= f) w).1.db ≡ w.db) ⊎ (((execute q >>= f) w).1.db ≡ q w.db)
  execute_cases f still = go (execute q w).0 refl
    where
      go :
          (r : Result (Unit {0}))
          → (execute q w).0 ≡ r
          → ((continue r f (execute q w).1).1.db ≡ w.db)
            ⊎ ((continue r f (execute q w).1).1.db ≡ q w.db)
      go (ok u) e = inr (still u (execute q w).1 ∙ execute_sound q w u e)
      go (err x) e = inl (execute_failed q w x e)

  pub attempt_cases :
      (f : Result (Unit {0}) → Panel B)
      → ((u : Result (Unit {0})) (v : World) → (f u v).1.db ≡ v.db)
      → (((attempt (execute q) >>= f) w).1.db ≡ w.db)
        ⊎ (((attempt (execute q) >>= f) w).1.db ≡ q w.db)
  attempt_cases f still = go (execute q w).0 refl
    where
      go :
          (r : Result (Unit {0}))
          → (execute q w).0 ≡ r
          → (((attempt (execute q) >>= f) w).1.db ≡ w.db)
            ⊎ (((attempt (execute q) >>= f) w).1.db ≡ q w.db)
      go (ok u) e = inr (still (execute q w).0 (execute q w).1 ∙ execute_sound q w u e)
      go (err x) e = inl (still (execute q w).0 (execute q w).1 ∙ execute_failed q w x e)

-- A handler and an end that changes nothing.
pub then_pure-keeps :
    {A B : Type 0} (m : Panel A) (b : B) (w : World) → ((m >>= λ _. pure b) w).1 ≡ (m w).1
then_pure-keeps {A} {B} m b w = go (m w).0
  where
    go : (r : Result A) → (continue r (λ _. pure b) (m w).1).1 ≡ (m w).1
    go (ok a) = refl
    go (err x) = refl
