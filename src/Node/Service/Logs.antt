-- ===== src/Node/Service/Logs.antt =====
-- The lines of a server's log on their way to the panel: `forward_logs` of crates/node/src/stream.rs
-- and `stream_logs` of crates/node/src/server.rs.
use oxydactylus.Base.{ℕ, zero, suc, String, Bool, List, [], ◌∷◌}
use oxydactylus.Node.Error.{NodeError, display, Status, internal, status_of, Result, ok, err}
use oxydactylus.Node.Docker.{LogChunk, DockerBackend}

pub record LogLine : Type 0 where
  pub content : String
  pub stream : String
  pub timestamp : ℕ

abbrev pub line_of : ℕ → LogChunk → LogLine
line_of now c = record { content = c.content; stream = c.stream; timestamp = now }

-- The messages that a receiver takes which is dropped after so many; `clock` gives the time of
-- each round.
unfoldable pub forward_logs :
    (ℕ → ℕ) → ℕ → List (Result NodeError LogChunk) → List (Result Status LogLine)
forward_logs clock zero stream = []
forward_logs clock (suc n) [] = []
forward_logs clock (suc n) (ok c ∷ rest) = ok (line_of (clock n) c) ∷ forward_logs clock n rest
forward_logs clock (suc n) (err e ∷ rest) = err (internal (display e)) ∷ []

-- The task that `stream_logs` spawns.
abbrev forwarded :
    (ℕ → ℕ) → ℕ → Result NodeError (List (Result NodeError LogChunk)) → List (Result Status LogLine)
forwarded clock taken (ok stream) = forward_logs clock taken stream
forwarded clock zero (err e) = []
forwarded clock (suc n) (err e) = err (status_of e) ∷ []

unfoldable pub stream_logs :
    {Float : Type 0} (backend : DockerBackend Float)
    → (ℕ → ℕ)
    → ℕ
    → String
    → Bool
    → backend.State
    → List (Result Status LogLine) × backend.State
stream_logs backend clock taken server_id follow s =
    let (opened, s') = backend.log_stream server_id follow s in (forwarded clock taken opened, s')
