-- ===== src/Panel/Databases/Created.antt =====
-- What `create_server_database` of crates/panel/src/server_databases.rs has done when it succeeds.
use oxydactylus.Base.{
  String, Bool, false, ◌≡◌, refl, sym, ◌∙◌, ap, arith, Option, some, List, [], ◌∷◌, ◌++◌, any,
}
use oxydactylus.Base.Int.{ℤ}
use oxydactylus.Panel.Error.{ok}
use oxydactylus.Panel.Store.{
  Uuid, Time, DatabaseHost, ServerDatabase, Db, connecting, running, MySqlCall, MySqlRequest, World,
  ask_mysql, query,
}
use oxydactylus.Panel.Store.Frame.{
  ok_at, ok_lift, ok_or_raise, db-ask_mysql, mysql_calls-ask_mysql, query-Quiet, query_sound,
}
use oxydactylus.Panel.MySql.{create_database_sql, create_user_sql, grant_sql}
use oxydactylus.Panel.Secrets.{Bytes, Crypto, stored, read_stored}
use oxydactylus.Panel.Databases.{
  CreateServerDatabaseRequest, host_by_id, is_named, mysql_url, connect_host, create_on_host,
  new_database,
}

-- The uses of one MySQL server, the last one first, before those that were there.
abbrev pub uses : String → List MySqlRequest → List MySqlCall → List MySqlCall
uses url [] before = before
uses url (r ∷ rs) before = record { url = url; request = r } ∷ uses url rs before

-- The tables are as they were, and those uses were made.
pub record Used (url : String) (rs : List MySqlRequest) (w w' : World) : Type 0 where
  pub db : w'.db ≡ w.db
  pub mysql_calls : w'.mysql_calls ≡ uses url rs w.mysql_calls

-- The statements of a creation, the last one first.
abbrev pub statements : String → String → String → String → List MySqlRequest
statements db_name db_user remote db_pass =
    running "FLUSH PRIVILEGES"
    ∷ running (grant_sql db_name db_user remote)
    ∷ running (create_user_sql db_user remote db_pass)
    ∷ running (create_database_sql db_name)
    ∷ []

pub create_on_host_ok :
    (url db_name db_user remote db_pass : String) (w : World)
    → (create_on_host url db_name db_user remote db_pass w).0 ≡ ok tt
    → Used url
        (statements db_name db_user remote db_pass)
        w
        (create_on_host url db_name db_user remote db_pass w).1
unfolding create_on_host ask_mysql
create_on_host_ok url db_name db_user remote db_pass w h = record {
  db = ground arith;
  mysql_calls = ground arith;
}

pub Used-trans :
    {url : String} {rs ss : List MySqlRequest} {u v w : World}
    → Used url rs u v
    → Used url ss v w
    → Used url (ss ++ rs) u w
Used-trans {url} {rs} {ss} {u} p q = record {
  db = q.db ∙ p.db;
  mysql_calls =
      q.mysql_calls
      ∙ ap (λ cs. uses url ss cs) p.mysql_calls
      ∙ sym (uses-append url ss rs u.mysql_calls);
}
  where
    uses-append :
        (url : String) (ss rs : List MySqlRequest) (cs : List MySqlCall)
        → uses url (ss ++ rs) cs ≡ uses url ss (uses url rs cs)
    uses-append url [] rs cs = refl
    uses-append url (r ∷ ss) rs cs =
        ap (λ ds. record { url = url; request = r } ∷ ds) (uses-append url ss rs cs)

module _ (crypto : Crypto) (port_text : ℤ → String) (app_key : Option String) where
  -- The connection that a handler has made: to the host of the row, with the password that it keeps.
  pub record Connected (host_id : Uuid) (url : String) (d : Db) : Type 0 where
    pub host : DatabaseHost
    pub found : host_by_id host_id d ≡ some host
    pub host_password : String
    pub read : read_stored crypto app_key host.password ≡ ok host_password
    pub address : url ≡ mysql_url port_text host host_password

  pub connect_host_ok :
      (host_id : Uuid) (w : World) (url : String)
      → (connect_host crypto port_text app_key host_id w).0 ≡ ok url
      → Used url (connecting ∷ []) w (connect_host crypto port_text app_key host_id w).1
        × Connected host_id url w.db
  unfolding connect_host
  connect_host_ok host_id w url =
      let G : World → Type 0 = λ v. Used url (connecting ∷ []) w v × Connected host_id url w.db in
      ok_at G (query (host_by_id host_id)) _ w url λ found e.
        ok_or_raise G _ found _ _ url λ h h_is.
          ok_lift G (read_stored crypto app_key h.password) _ _ url λ pass read.
            let w1 = (query (host_by_id host_id) w).1 in
            ok_at G
              (ask_mysql "failed to connect to MySQL host: {}" (mysql_url port_text h pass)
                connecting)
              _ w1 url
              λ _ _ last.
                let q = query-Quiet (host_by_id host_id) w in
                let there : mysql_url port_text h pass ≡ url = ground arith in
                (
                  rw (sym there) record {
                    db = db-ask_mysql _ _ connecting w1 ∙ q.db;
                    mysql_calls =
                        mysql_calls-ask_mysql _ _ connecting w1
                        ∙ ap (λ cs. uses (mysql_url port_text h pass) (connecting ∷ []) cs)
                            q.mysql_calls;
                  },
                  record {
                    host = h;
                    found = sym (query_sound (host_by_id host_id) w found e) ∙ h_is;
                    host_password = pass;
                    read = read;
                    address = sym there;
                  },
                )

module _ (crypto : Crypto) (port_text : ℤ → String) (app_key : Option String)
    (matches : String → Bool) (id : Uuid) (now : Time) (fresh_name db_pass : String) (nonce : Bytes)
    (server_id : Uuid) (body : CreateServerDatabaseRequest) (username remote : String) where
  -- What a creation makes of a state: the row that the request asks for, whose name was free on
  -- the host; a connection to the host and the four statements; nothing else.
  pub record IsCreated (d : Db) (calls : List MySqlCall) (w' : World) (b : ServerDatabase)
      : Type 0 where
    pub encrypted_pass : String
    pub kept : stored crypto app_key nonce db_pass ≡ ok encrypted_pass
    pub row : b ≡ new_database id now server_id body username remote encrypted_pass
    pub url : String
    pub connected : Connected crypto port_text app_key body.host_id url d
    pub used :
        w'.mysql_calls
        ≡ uses url
            (statements body.database_name username remote db_pass ++ (connecting ∷ []))
            calls
    pub free : any (is_named body.host_id body.database_name) d.server_databases ≡ false
    pub tables : w'.db ≡ record d { server_databases = d.server_databases ++ (b ∷ []) }
