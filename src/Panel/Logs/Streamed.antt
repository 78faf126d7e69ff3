-- ===== src/Panel/Logs/Streamed.antt =====
-- What a browser sees of the log of a container: the streams of crates/node/src/stream.rs and
-- server.rs with those of crates/panel/src/node_client.rs and servers.rs.
use oxydactylus.Base.{Option, none, some, List, [], ◌∷◌}
use oxydactylus.Base.Text.{◌+++◌}
use oxydactylus.Node.Error.{NodeError, display, Result, ok, err}
use oxydactylus.Node.Docker.{LogChunk}
use oxydactylus.Node.Service.Logs as Node
use oxydactylus.Panel.Logs.{Event, trim_line_end}

abbrev pub event_of_chunk : LogChunk → Event
event_of_chunk c = record { name = c.stream; data_text = trim_line_end c.content }

abbrev pub error_event : NodeError → Event
error_event e = record { name = "error"; data_text = "node error: " +++ display e }

abbrev pub chunks_of : List LogChunk → List (Result NodeError LogChunk)
chunks_of [] = []
chunks_of (c ∷ rest) = ok c ∷ chunks_of rest

-- How a stream ends: with what is behind the chunks, if an error is, or with nothing.
abbrev pub ending :
    Option (NodeError × List (Result NodeError LogChunk)) → List (Result NodeError LogChunk)
ending none = []
ending (some (e, rest)) = err e ∷ rest

abbrev pub end_events : Option (NodeError × List (Result NodeError LogChunk)) → List Event
end_events none = []
end_events (some (e, rest)) = error_event e ∷ []
