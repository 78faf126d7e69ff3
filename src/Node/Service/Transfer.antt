-- ===== src/Node/Service/Transfer.antt =====
-- Files that go to a server and come from it in chunks: `download_file` and `upload_file` of
-- crates/node/src/server.rs.
use oxydactylus.Base.{
  ℕ, zero, suc, ◌+◌, ◌^◌, ◌%◌, ◌==◌, String, Bool, true, false, not, List, [], ◌∷◌, length,
  if◌then◌else◌,
}
use oxydactylus.Base.Text.{◌+++◌}
use oxydactylus.Node.Error.{
  NodeError, Status, status_of, Result, ok, err, Run, pure, raise, ◌>>◌, map_err,
}
use oxydactylus.Node.Docker.{DockerBackend}
use oxydactylus.Node.Files.Operations.{Codec, download_file_chunk, upload_file_chunk}
use oxydactylus.Node.Service.{ServerReply, reply}

pub record FileChunk : Type 0 where
  pub server_id : String
  pub path : String
  pub chunk : List ℕ

-- A message of a stream: an item, or a status.
abbrev pub Message : Type 0
Message = Result Status FileChunk

abbrev pub chunk_size_of : ℕ → ℕ
chunk_size_of size = if size == 0 then 8192 else size

module _ (codec : Codec) {Float : Type 0} (backend : DockerBackend Float) where
  module _ (server_id path : String) (chunk_size : ℕ) where
    -- One round, and the loop from the next offset on.
    abbrev pub after_chunk :
        Result NodeError (List ℕ)
        → (ℕ → backend.State → List Message × backend.State)
        → ℕ
        → backend.State
        → List Message × backend.State
    after_chunk (err e) more offset s = (err (status_of e) ∷ [], s)
    after_chunk (ok []) more offset s = ([], s)
    after_chunk (ok (b ∷ bs)) more offset s =
        let (messages, s') = more ((offset + length (b ∷ bs)) % 2 ^ 64) s in
        (ok (record { server_id = server_id; path = path; chunk = b ∷ bs }) ∷ messages, s')

    -- The task that `download_file` spawns, for a receiver that takes so many messages and is dropped
    -- then: the messages that it takes.
    unfoldable pub send_chunks : ℕ → ℕ → backend.State → List Message × backend.State
    send_chunks zero offset s =
        let (r, s') = download_file_chunk codec backend server_id path offset chunk_size s in
        ([], s')
    send_chunks (suc n) offset s =
        let (r, s') = download_file_chunk codec backend server_id path offset chunk_size s in
        after_chunk r (send_chunks n) offset s'

  unfoldable pub download_file :
      String → String → ℕ → ℕ → backend.State → List Message × backend.State
  download_file server_id path size taken = send_chunks server_id path (chunk_size_of size) taken 0

  -- The loop of `upload_file`, over what the stream of the request yields.
  unfoldable pub upload_from : String → Bool → List Message → Run backend.State Status ServerReply
  upload_from server_id first [] = pure (reply ("uploaded file to " +++ server_id))
  upload_from server_id first (err status ∷ rest) = raise status
  upload_from server_id first (ok c ∷ rest) =
      let server_id' = if first then c.server_id else server_id in
      let first' = if first then false else first in
      map_err status_of (upload_file_chunk codec backend c.server_id c.path c.chunk (not first'))
      >> upload_from server_id' first' rest

  unfoldable pub upload_file : List Message → Run backend.State Status ServerReply
  upload_file stream = upload_from "" true stream
