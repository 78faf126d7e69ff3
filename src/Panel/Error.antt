-- ===== src/Panel/Error.antt =====
-- crates/panel/src/error.rs: what a handler may fail with, and the response that it becomes.
use oxydactylus.Base.{ℕ, String}
use oxydactylus.Base.Int.{ℤ}

-- A message is the text of a format string with the value that `format!` puts into it: an
-- identifier or a text. (`of_id "server {}" u` is `format!("server {}", u)`.)
pub data Message : Type 0 where
  text : String → Message
  of_id : String → ℕ → Message
  of_text : String → String → Message
  of_texts : String → String → String → Message
  of_number : String → String → ℤ → Message

pub data PanelError : Type 0 where
  not_found unauthorized conflict validation db node internal : Message → PanelError
  forbidden : PanelError

pub data Result {ℓ} (A : Type ℓ) : Type ℓ where
  ok : A → Result A
  err : PanelError → Result A

-- The `?` operator: an error ends the function.
infixl 5 ◌>>=◌ ◌>>◌
abbrev pub ◌>>=◌ {ℓ κ} : {A : Type ℓ} {B : Type κ} → Result A → (A → Result B) → Result B
ok value >>= rest = rest value
err problem >>= rest = err problem

abbrev pub ◌>>◌ {κ} : {B : Type κ} → Result (Unit {0}) → Result B → Result B
first >> second = first >>= λ _. second

-- The errors of a statement, as sqlx reports them.
pub data SqlxError : Type 0 where
  row_not_found : SqlxError
  constraint : String → SqlxError
  other : String → SqlxError

-- `impl From<sqlx::Error> for PanelError`
unfoldable pub from_sqlx : SqlxError → PanelError
from_sqlx row_not_found = not_found (text "record not found")
from_sqlx (constraint name) = conflict (text name)
from_sqlx (other what) = db (text what)

-- `impl From<tonic::Status> for PanelError`
unfoldable pub from_status : String → PanelError
from_status message = node (text message)

-- The status code of `into_response`.
unfoldable pub into_response : PanelError → ℕ
into_response (not_found _) = 404
into_response (unauthorized _) = 401
into_response forbidden = 403
into_response (conflict _) = 409
into_response (validation _) = 422
into_response (db _) = 500
into_response (node _) = 500
into_response (internal _) = 500
