-- ===== src/Panel/Store.antt =====
-- What the handlers of crates/panel/src work on: the tables of the database (crates/panel/
-- migrations), the statements that they run, and the requests that they send to nodes.
-- A row is the struct that `FromRow` makes of it, with its identifiers and times decoded.
mod Rows
pub mod Frame
pub use Rows.*
use oxydactylus.Base.{
  ◌+◌, ℕ, String, Bool, Option, none, some, List, [], ◌∷◌, ◌==◌, find, if◌then◌else◌,
}
use oxydactylus.Base.Int.{ℤ}
use oxydactylus.Panel.Error.{
  PanelError, internal, of_text, Result, ok, err, SqlxError, row_not_found, from_sqlx, from_status,
}

-- The connection of crates/panel/src/node_client.rs: an address, and the token that
-- `BearerInterceptor` sends with each request.
pub record NodeClient : Type 0 where
  pub grpc_addr : String
  pub token : String

-- What the client asks of the node, with the server's identifier first.
pub data Request : Type 0 where
  connect : Request
  provision : Uuid → String → ℕ → ℕ → List String → List String → Request
  start : Uuid → Request
  stop : Uuid → ℕ → Request
  delete : Uuid → Request
  send_command : Uuid → String → Request
  get_stats : Uuid → Request
  stream_logs : Uuid → Bool → Request
  list_files : Uuid → String → Request
  get_file_contents : Uuid → String → Request
  write_file_contents : Uuid → String → String → Request
  create_directory : Uuid → String → Request
  delete_files : Uuid → String → Bool → Request
  rename_file : Uuid → String → String → Request

-- A statement for the MySQL server that an address (`mysql_url`) names, or the connection to it.
pub data MySqlRequest : Type 0 where
  connecting : MySqlRequest
  running : String → MySqlRequest

pub record MySqlCall : Type 0 where
  pub url : String
  pub request : MySqlRequest

pub record Call : Type 0 where
  pub to : NodeClient
  pub request : Request

-- The state of the program around a handler. What is outside the repository enters as three
-- lists that the environment chooses: `faults` says of each statement to come whether sqlx
-- fails it, `replies` of each request whether the node refuses it, with its status, `mysql_faults`
-- of each use of a MySQL server whether it fails, with its error. Where a list has ended, all goes
-- well. `calls` and `mysql_calls` hold what was sent, the last one first.
pub record World : Type 0 where
  pub db : Db
  pub faults : List (Option SqlxError)
  pub replies : List (Option String)
  pub calls : List Call
  pub mysql_faults : List (Option String)
  pub mysql_calls : List MySqlCall
  pub slept : ℕ

abbrev pub calm : Db → World
calm d = record {
  db = d;
  faults = [];
  replies = [];
  calls = [];
  mysql_faults = [];
  mysql_calls = [];
  slept = 0;
}

-- A handler: a state, and a result beside it in either case.
abbrev pub Panel : Type 0 → Type 0
Panel A = World → Result A × World

module _ {A : Type 0} where
  abbrev pub pure : A → Panel A
  pure a w = (ok a, w)

  abbrev pub raise : PanelError → Panel A
  raise e w = (err e, w)

  abbrev pub lift : Result A → Panel A
  lift r w = (r, w)

  -- The result as a value: `match` on it, or `let _ =`.
  abbrev pub attempt : Panel A → Panel (Result A)
  attempt m w = let (r, w') = m w in (ok r, w')

  -- `ok_or_else`
  abbrev pub or_raise : PanelError → Option A → Panel A
  or_raise e none = raise e
  or_raise e (some a) = pure a

module _ {A B : Type 0} where
  abbrev pub continue : Result A → (A → Panel B) → Panel B
  continue (ok a) f w = f a w
  continue (err e) f w = (err e, w)

  infixl 5 ◌>>=◌ ◌>>◌
  abbrev pub ◌>>=◌ : Panel A → (A → Panel B) → Panel B
  ◌>>=◌ m f w = let (r, w') = m w in continue r f w'

  abbrev pub ◌>>◌ : Panel A → Panel B → Panel B
  m >> n = m >>= λ _. n

-- One statement: it fails and changes nothing, or it runs.
module _ {A : Type 0} where
  run_statement : (Db → A × Db) → World → Result A × World
  run_statement f w = let (a, d) = f w.db in (ok a, record w { db = d })

  statement_at : List (Option SqlxError) → (Db → A × Db) → World → Result A × World
  statement_at [] f w = run_statement f w
  statement_at (none ∷ rest) f w = run_statement f (record w { faults = rest })
  statement_at (some e ∷ rest) f w = (err (from_sqlx e), record w { faults = rest })

  unfoldable pub statement : (Db → A × Db) → Panel A
  unfolding run_statement statement_at from_sqlx
  statement f w = statement_at w.faults f w

  -- `SELECT`
  unfoldable pub query : (Db → A) → Panel A
  unfolding statement
  query f = statement (λ d. (f d, d))

-- `fetch_one` on the rows that `fetch_optional` would see
unfoldable pub fetch_one : {A : Type 0} → (Db → Option A) → Panel A
unfolding query from_sqlx
fetch_one f = query f >>= or_raise (from_sqlx row_not_found)

-- `tokio::time::sleep`: the seconds asked for are added up.
unfoldable pub sleep : ℕ → Panel (Unit {0})
sleep seconds w = (ok tt, record w { slept = w.slept + seconds })

-- A statement whose result is not read.
unfoldable pub execute : (Db → Db) → Panel (Unit {0})
unfolding statement
execute f = statement (λ d. (tt, f d))

-- One request to a node, as each method of `NodeClient` makes it.
reply_at : List (Option String) → World → Result (Unit {0}) × World
reply_at [] w = (ok tt, w)
reply_at (none ∷ rest) w = (ok tt, record w { replies = rest })
reply_at (some e ∷ rest) w = (err (from_status e), record w { replies = rest })

unfoldable pub send : NodeClient → Request → Panel (Unit {0})
unfolding reply_at from_status
send client r w =
    reply_at w.replies (record w { calls = (record { to = client; request = r }) ∷ w.calls })

-- `NodeClient::connect`
unfoldable pub open_client : String → String → Panel NodeClient
unfolding send
open_client grpc_addr token =
    let client : NodeClient = record { grpc_addr = grpc_addr; token = token } in
    send client connect >> pure client

-- One use of a MySQL server, and the error that it may answer with.
mysql_reply_at : List (Option String) → World → Option String × World
mysql_reply_at [] w = (none, w)
mysql_reply_at (e ∷ rest) w = (e, record w { mysql_faults = rest })

mysql_answer : String → Option String → Result (Unit {0})
mysql_answer failed none = ok tt
mysql_answer failed (some e) = err (internal (of_text failed e))

-- With `map_err(|e| PanelError::Internal(format!(…, e)))`
unfoldable pub ask_mysql : String → String → MySqlRequest → Panel (Unit {0})
unfolding mysql_reply_at mysql_answer
ask_mysql failed url r w =
    let (e, w') =
      mysql_reply_at w.mysql_faults
        (record w { mysql_calls = record { url = url; request = r } ∷ w.mysql_calls }) in
    (mysql_answer failed e, w')
