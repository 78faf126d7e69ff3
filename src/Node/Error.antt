-- ===== src/Node/Error.antt =====
-- The errors of the daemon, crates/node/src/error.rs, with the statuses of tonic that they become,
-- and the shape of what it runs: a state, and a result beside it in either case.
use oxydactylus.Base.{ℕ, String, ◌==◌, if◌then◌else◌}
use oxydactylus.Base.Text.{◌+++◌}

pub data NodeError : Type 0 where
  docker : String → NodeError
  not_found : String → NodeError
  validation : String → NodeError

-- `to_string`
abbrev pub display : NodeError → String
display (docker msg) = "docker error: " +++ msg
display (not_found msg) = "container not found: " +++ msg
display (validation msg) = "validation error: " +++ msg

-- `bollard::errors::Error`: the answer of the Docker server with a status code, or another one; and
-- what `to_string` makes of it.
pub data BollardError : Type 0 where
  response : ℕ → String → BollardError
  other : String → BollardError

unfoldable pub from_bollard : BollardError → NodeError
from_bollard (response code text) = if code == 404 then not_found text else docker text
from_bollard (other text) = docker text

-- `std::io::Error`, by its text
abbrev pub from_io : String → NodeError
from_io text = docker text

pub data Status : Type 0 where
  internal : String → Status
  not_found : String → Status
  invalid_argument : String → Status

unfoldable pub status_of : NodeError → Status
status_of (docker msg) = internal msg
status_of (NodeError.not_found msg) = Status.not_found msg
status_of (validation msg) = invalid_argument msg

pub data Result (E A : Type 0) : Type 0 where
  ok : A → Result E A
  err : E → Result E A

abbrev pub Run : Type 0 → Type 0 → Type 0 → Type 0
Run S E A = S → Result E A × S

-- The operations of such a run. `?` is the bind of a do block.
abbrev pub pure : {S E A : Type 0} → A → Run S E A
pure a s = (ok a, s)

abbrev pub raise : {S E A : Type 0} → E → Run S E A
raise e s = (err e, s)

abbrev pub continue : {S E A B : Type 0} → Result E A → (A → Run S E B) → Run S E B
continue (ok a) f s = f a s
continue (err e) f s = (err e, s)

infixl 5 ◌>>=◌ ◌>>◌
abbrev pub ◌>>=◌ : {S E A B : Type 0} → Run S E A → (A → Run S E B) → Run S E B
◌>>=◌ m f s = let (r, s') = m s in continue r f s'

abbrev pub ◌>>◌ : {S E A B : Type 0} → Run S E A → Run S E B → Run S E B
m >> n = m >>= λ _. n

-- `map_err` on a result, and on that of a run.
abbrev pub result_map_err : {E F A : Type 0} → (E → F) → Result E A → Result F A
result_map_err f (ok a) = ok a
result_map_err f (err e) = err (f e)

abbrev pub map_err : {S E F A : Type 0} → (E → F) → Run S E A → Run S F A
map_err f m s = let (r, s') = m s in (result_map_err f r, s')
