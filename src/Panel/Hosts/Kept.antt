-- ===== src/Panel/Hosts/Kept.antt =====
-- A host that was created is reached with the password that was given: crates/panel/src/
-- database_hosts.rs and server_databases.rs together.
use oxydactylus.Base.{
  String, false, ◌≡◌, refl, ◌||◌, ◌==◌, ==_refl, any, find-append_fresh, length, Option,
}
use oxydactylus.Base.Int.{ℤ}
use oxydactylus.Base.Text.{is_empty}
use oxydactylus.Panel.Error.{ok}
use oxydactylus.Panel.Store.{Uuid, Time, DatabaseHost, Db, calm, query, statement, ask_mysql}
use oxydactylus.Panel.Secrets.{Bytes, Crypto, stored}
use oxydactylus.Panel.Secrets.Laws.{AreBytes, IsCrypto, read_stored-stored}
use oxydactylus.Panel.Databases.{host_by_id, mysql_url, connect_host}
use oxydactylus.Panel.Hosts.{
  CreateDatabaseHostRequest, new_host, insert_host, create_named_host, create_host,
}

-- Where no statement fails and the fields are not empty, a request whose password can be stored
-- creates a host under an identifier that is new; then a handler that needs the host connects to
-- it, where it answers, by the address that has the name and the password of the request.
pub create_host-connect_host :
    (crypto : Crypto)
    → IsCrypto crypto
    → (port_text : ℤ → String) (app_key : Option String) (id : Uuid) (now : Time) (nonce : Bytes)
      (body : CreateDatabaseHostRequest) (kept : String) (d : Db)
    → length nonce ≡ 12
    → AreBytes nonce
    → stored crypto app_key nonce body.password ≡ ok kept
    → any (λ h. h.id == id) d.database_hosts ≡ false
    → (is_empty body.name || is_empty body.host || is_empty body.username || is_empty body.password)
      ≡ false
    → let made = create_host crypto app_key id now nonce body (calm d) in
      (made.0 ≡ ok (new_host id now body kept))
      × ((connect_host crypto port_text app_key id made.1).0
          ≡ ok (mysql_url port_text (new_host id now body kept) body.password))
unfolding create_host create_named_host statement insert_host connect_host query ask_mysql
    host_by_id
create_host-connect_host crypto is_crypto port_text app_key id now nonce body kept d twelve bytes
      keeps fresh filled =
    let found =
      find-append_fresh (λ (h : DatabaseHost). h.id == id) d.database_hosts
        (new_host id now body kept) fresh (==_refl id) in
    let reads =
      read_stored-stored crypto is_crypto app_key nonce body.password kept twelve bytes keeps in
    rw (filled, keeps) (refl, rw (found, reads) refl)
