-- ===== src/Panel/Databases/Rotated.antt =====
-- What `rotate_database_password` of crates/panel/src/server_databases.rs has done when it
-- succeeds.
use mathlib.Core.Path.{subst}
use oxydactylus.Base.{
  String, ◌≡◌, sym, ◌∙◌, ap, arith, Option, some, List, [], ◌∷◌, length, ◌==◌, update, update-Memᴰ,
  Bool-cases, inl, inr, find-Memᴰ,
}
use oxydactylus.Base.Int.{ℤ}
use oxydactylus.Panel.Error.{Result, ok, from_sqlx, row_not_found}
use oxydactylus.Panel.Permissions.{database_update}
use oxydactylus.Panel.Store.{
  Uuid, ServerDatabase, Db, connecting, running, MySqlCall, World, Panel, attempt, or_raise,
  ask_mysql, query, statement, ◌>>=◌,
}
use oxydactylus.Panel.Store.Frame.{
  ok_at, ok_lift, ok_or_raise, or_raise_sound, statement_sound, mysql_calls-statement, query-Quiet,
  query_sound, Quiet-trans, or_raise-keeps,
}
use oxydactylus.Panel.Access.{AuthUser}
use oxydactylus.Panel.Access.Guarded.{Authorised, ok_checked}
use oxydactylus.Panel.MySql.{alter_user_sql}
use oxydactylus.Panel.Secrets.{Bytes, Crypto, stored, read_stored}
use oxydactylus.Panel.Secrets.Laws.{AreBytes, IsCrypto, read_stored-stored}
use oxydactylus.Panel.Databases.{
  database_of, set_password, connect_host, keep_password, rotate_on_host, rotate_database_password,
}
use oxydactylus.Panel.Databases.Created.{uses, Used, Used-trans, Connected, connect_host_ok}

set_password_ok :
    (kept : String) (id : Uuid) (d : Db) (b : ServerDatabase)
    → (set_password kept id d).0 ≡ some b
    → b.password ≡ kept
unfolding set_password
set_password_ok kept id d b h =
    let p = λ (x : ServerDatabase). x.id == id in
    let f = λ (x : ServerDatabase). record x { password = kept } in
    let (m, hit) = find-Memᴰ p (update p f d.server_databases) b h in
    let (y, _, e) = update-Memᴰ p f d.server_databases b m in
    elim (Bool-cases (p y)) [
      | inl yes_is ↦
          let e' : b ≡ f y = (rw yes_is at e) in ap (λ (x : ServerDatabase). x.password) e'
      | inr no_is ↦ let e' : b ≡ y = (rw no_is at e) in let e2 = ap p e' in cc
    ]

-- The two statements on the host, of which the second may fail.
rotate_use :
    (url sql : String) (w : World)
    → Used url
        (running "FLUSH PRIVILEGES" ∷ running sql ∷ [])
        w
        (attempt
          (ask_mysql "{}" url (running "FLUSH PRIVILEGES"))
          (ask_mysql "failed to rotate password: {}" url (running sql) w).1).1
unfolding ask_mysql
rotate_use url sql w = record { db = ground arith; mysql_calls = ground arith }

module _ (crypto : Crypto) (is_crypto : IsCrypto crypto) (port_text : ℤ → String)
    (app_key : Option String) (new_pass : String) (nonce : Bytes) (twelve : length nonce ≡ 12)
    (bytes : AreBytes nonce) where
  -- What a rotation makes of a state, for a database of the tables.
  pub record IsRotated (database_id server_id : Uuid) (d : Db) (calls : List MySqlCall) (w' : World)
      (b : ServerDatabase) : Type 0 where
    pub old : ServerDatabase
    pub found : database_of database_id server_id d ≡ some old
    pub url : String
    pub connected : Connected crypto port_text app_key old.host_id url d
    pub used :
        w'.mysql_calls
        ≡ uses url
            (running "FLUSH PRIVILEGES"
              ∷ running (alter_user_sql old.username old.remote new_pass)
              ∷ connecting
              ∷ [])
            calls
    pub kept : String
    pub tables : w'.db ≡ (set_password kept database_id d).1
    pub reads : read_stored crypto app_key b.password ≡ ok new_pass

  -- The row that is answered keeps the new password.
  record IsKept (database_id : Uuid) (w w' : World) (b : ServerDatabase) : Type 0 where
    kept : String
    stays : w'.mysql_calls ≡ w.mysql_calls
    tables : w'.db ≡ (set_password kept database_id w.db).1
    reads : read_stored crypto app_key b.password ≡ ok new_pass

  keep_password_ok :
      (database_id : Uuid) (w : World) (b : ServerDatabase)
      → (keep_password crypto port_text app_key new_pass nonce database_id w).0 ≡ ok b
      → IsKept database_id w
          (keep_password crypto port_text app_key new_pass nonce database_id w).1
          b
  unfolding keep_password
  keep_password_ok database_id w b =
      let G : World → Type 0 = λ v. IsKept database_id w v b in
      ok_lift G (stored crypto app_key nonce new_pass) _ w b λ kept is_kept.
        let q = set_password kept database_id in
        let raised : Option ServerDatabase → Panel ServerDatabase =
          λ updated. or_raise (from_sqlx row_not_found) updated in
        ok_at G (statement q) raised w b λ updated e last.
          let (value, tables) = statement_sound q w updated e in
          let v = (statement q w).1 in
          let row = sym value ∙ or_raise_sound (from_sqlx row_not_found) updated v b last in
          let same : (raised updated v).1 ≡ v =
            or_raise-keeps (from_sqlx row_not_found) updated v in
          record {
            kept = kept;
            stays = ap (λ (x : World). x.mysql_calls) same ∙ mysql_calls-statement q w;
            tables = ap (λ (x : World). x.db) same ∙ tables;
            reads = rw (set_password_ok kept database_id w.db b row) (
                read_stored-stored crypto is_crypto app_key nonce new_pass kept twelve bytes
                  is_kept);
          }

  rotate_on_host_ok :
      (database_id server_id : Uuid) (old : ServerDatabase) (w : World) (b : ServerDatabase)
      → database_of database_id server_id w.db ≡ some old
      → (rotate_on_host crypto port_text app_key new_pass nonce database_id old w).0 ≡ ok b
      → IsRotated database_id server_id w.db w.mysql_calls
          (rotate_on_host crypto port_text app_key new_pass nonce database_id old w).1
          b
  unfolding rotate_on_host
  rotate_on_host_ok database_id server_id old w b found =
      let G : World → Type 0 = λ v. IsRotated database_id server_id w.db w.mysql_calls v b in
      let sql = alter_user_sql old.username old.remote new_pass in
      let keep : Panel ServerDatabase =
        keep_password crypto port_text app_key new_pass nonce database_id in
      ok_at G (connect_host crypto port_text app_key old.host_id) _ w b λ url e.
        let (used_host, connected) = connect_host_ok crypto port_text app_key old.host_id w url e in
        let w1 = (connect_host crypto port_text app_key old.host_id w).1 in
        let altered : Panel (Unit {0}) =
          ask_mysql "failed to rotate password: {}" url (running sql) in
        let flushed : Panel (Result (Unit {0})) =
          attempt (ask_mysql "{}" url (running "FLUSH PRIVILEGES")) in
        ok_at G altered (λ _. flushed >>= λ _. keep) w1 b
          λ _ _.
            ok_at G flushed (λ _. keep) (altered w1).1 b
              λ _ _ last.
                let used = Used-trans used_host (rotate_use url sql w1) in
                let w2 = (flushed (altered w1).1).1 in
                let done = keep_password_ok database_id w2 b last in
                record {
                  old = old;
                  found = found;
                  url = url;
                  connected = connected;
                  used = done.stays ∙ used.mysql_calls;
                  kept = done.kept;
                  tables = done.tables ∙ ap (λ d. (set_password done.kept database_id d).1) used.db;
                  reads = done.reads;
                }

  -- A rotation that succeeds was made by a user who may update databases of the server, for a
  -- database of it. The host was asked, under the password that its row keeps, for the new password
  -- and nothing else; the row has a new stored password, the answer is a row whose stored password
  -- reads as the one that the host was given, and nothing else of the tables is changed.
  rotate_database_password_ok :
      (user : AuthUser) (server_id database_id : Uuid) (w : World) (b : ServerDatabase)
      → (rotate_database_password crypto port_text app_key new_pass nonce user server_id database_id
          w).0
        ≡ ok b
      → Authorised user server_id (some database_update) w.db
        × IsRotated database_id server_id w.db w.mysql_calls
            (rotate_database_password crypto port_text app_key new_pass nonce user server_id
              database_id w).1
            b
  unfolding rotate_database_password
  rotate_database_password_ok user server_id database_id w b =
      let Made : Db → List MySqlCall → World → Type 0 =
        λ d calls v. IsRotated database_id server_id d calls v b in
      let G : World → Type 0 =
        λ v. Authorised user server_id (some database_update) w.db × Made w.db w.mysql_calls v in
      ok_checked G user server_id (some database_update) _ w b λ s _ w1 q _ authorised.
        let find_row = database_of database_id server_id in
        ok_at G (query find_row) _ w1 b λ found e.
          ok_or_raise G _ found _ (query find_row w1).1 b λ old is h.
            let w2 = (query find_row w1).1 in
            let q2 = Quiet-trans q (query-Quiet find_row w1) in
            let row : find_row w2.db ≡ some old =
              ap find_row (query-Quiet find_row w1).db
              ∙ sym (query_sound find_row w1 found e)
              ∙ is in
            let v = (rotate_on_host crypto port_text app_key new_pass nonce database_id old w2).1 in
            let made = rotate_on_host_ok database_id server_id old w2 b row h in
            (
              authorised,
              subst (λ d. Made d w.mysql_calls v) q2.db
                  (subst (λ cs. Made w2.db cs v) q2.mysql_calls made),
            )
