-- ===== src/Node/Service/Upload.antt =====
-- The commands of an upload: `upload_file` of crates/node/src/server.rs with `upload_file_chunk` of
-- crates/node/src/files.rs.
use Prim.Native.Char.{Char}
use Prim.Native.String.{◌∷◌ as ◌∷ˢ◌}
use oxydactylus.Base.{ℕ, String, Bool, true, false, ◌≡◌, refl, List, [], ◌∷◌, some}
use oxydactylus.Base.Text.{◌+++◌}
use oxydactylus.Node.Error.{
  NodeError, status_of, Result, ok, err, Run, pure, ◌>>◌, continue, result_map_err,
}
use oxydactylus.Node.Docker.{DockerBackend}
use oxydactylus.Node.Files.{upload_command}
use oxydactylus.Node.Files.Operations.{Codec, upload_file_chunk}
use oxydactylus.Node.Service.{replying}
use oxydactylus.Node.Service.Transfer.{FileChunk, Message, upload_from, upload_file}
use oxydactylus.Node.Shell.{Token, word, operator, tokens}
use oxydactylus.Node.Shell.Redirects.{IsPlain, redirecting, tokens-upload_command}

-- base64: it reads back, and the text of some bytes has a character and only characters that stand
-- for themselves in a shell.
pub record IsBase64 (codec : Codec) (decode : String → List ℕ) : Type 0 where
  pub reads_back : (bs : List ℕ) → decode (codec.encode bs) ≡ bs
  pub plain_text :
      (b : ℕ) (bs : List ℕ)
      → (c : Char) × (s : String) × (codec.encode (b ∷ bs) ≡ c ∷ˢ s) × IsPlain (c ∷ˢ s)

abbrev pub decoding : String → Bool → String → List Token
decoding text append path =
    word "echo"
    ∷ word text
    ∷ operator b'|'
    ∷ word "base64"
    ∷ word "-d"
    ∷ redirecting append (word path ∷ [])

-- No chunk is empty.
abbrev pub AreFilled : List FileChunk → Type 0
AreFilled [] = Unit
AreFilled (c ∷ rest) = ((b : ℕ) × (bs : List ℕ) × (c.chunk ≡ b ∷ bs)) × AreFilled rest

abbrev pub stream_of : List FileChunk → List Message
stream_of [] = []
stream_of (c ∷ rest) = ok c ∷ stream_of rest

-- The first chunk names the server of the reply.
abbrev pub first_id : List FileChunk → String
first_id [] = ""
first_id (c ∷ rest) = c.server_id

-- A command for a chunk: a shell reads from it that a text is decoded, which is the chunk's, and put
-- behind what the chunk's path holds.
abbrev pub IsAppend : (String → List ℕ) → FileChunk → String → Type 0
IsAppend decode c command =
    (encoded : String) × (tokens command ≡ some (decoding encoded true c.path))
    × (decode encoded ≡ c.chunk)

-- For each chunk in turn one command, to the container of the chunk.
abbrev pub AreAppends : (String → List ℕ) → List FileChunk → List (String × String) → Type 0
AreAppends decode [] commands = commands ≡ []
AreAppends decode (c ∷ rest) commands =
    (command : String) × (more : List (String × String)) × (commands
      ≡ (c.server_id, command) ∷ more)
    × IsAppend decode c command
    × AreAppends decode rest more

-- The commands are given to their containers, up to the first error.
abbrev pub send_all :
    {Float : Type 0} (backend : DockerBackend Float)
    → List (String × String)
    → Run backend.State NodeError (Unit {0})
send_all backend [] = pure tt
send_all backend ((id, command) ∷ rest) = backend.send_command id command >> send_all backend rest

module _ (codec : Codec) (decode : String → List ℕ) (base64 : IsBase64 codec decode) where
  abbrev commands_of : List FileChunk → List (String × String)
  commands_of [] = []
  commands_of (c ∷ rest) =
      (c.server_id, upload_command (codec.encode c.chunk) true c.path) ∷ commands_of rest

  upload_command-IsAppend :
      (c : FileChunk) (b : ℕ) (bs : List ℕ)
      → c.chunk ≡ b ∷ bs
      → IsAppend decode c (upload_command (codec.encode c.chunk) true c.path)
  upload_command-IsAppend c b bs filled =
      let (k, t, text, plain) = base64.plain_text b bs in
      (
        codec.encode c.chunk,
        rw (filled, text) (tokens-upload_command k t true c.path plain),
        base64.reads_back c.chunk,
      )

  commands_of-AreAppends :
      (chunks : List FileChunk) → AreFilled chunks → AreAppends decode chunks (commands_of chunks)
  commands_of-AreAppends [] h = refl
  commands_of-AreAppends (c ∷ rest) ((b, bs, filled), h) = (
    upload_command (codec.encode c.chunk) true c.path,
    commands_of rest,
    refl,
    upload_command-IsAppend c b bs filled,
    commands_of-AreAppends rest h,
  )

  module _ {Float : Type 0} (backend : DockerBackend Float) where
    -- The rounds after the first.
    upload_from-sent :
        (sid : String) (chunks : List FileChunk) (s : backend.State)
        → upload_from codec backend sid false (stream_of chunks) s
          ≡ replying backend (send_all backend (commands_of chunks)) ("uploaded file to " +++ sid) s
    unfolding upload_from upload_file_chunk
    upload_from-sent sid [] s = refl
    upload_from-sent sid (c ∷ rest) s =
        go (backend.send_command c.server_id (upload_command (codec.encode c.chunk) true c.path) s)
          (upload_from-sent sid rest)
      where
        go :
            (q : Result NodeError (Unit {0}) × backend.State)
            → ((s' : backend.State)
                → upload_from codec backend sid false (stream_of rest) s'
                  ≡ replying backend
                      (send_all backend (commands_of rest))
                      ("uploaded file to " +++ sid)
                      s')
            → continue
                (result_map_err status_of q.0)
                (λ _. upload_from codec backend sid false (stream_of rest))
                q.1
              ≡ replying backend
                  (λ _. continue q.0 (λ _. send_all backend (commands_of rest)) q.1)
                  ("uploaded file to " +++ sid)
                  s
        go (ok u, s') later = later s'
        go (err e, s') later = refl

    upload_file-sent :
        (chunks : List FileChunk) (s : backend.State)
        → upload_file codec backend (stream_of chunks) s
          ≡ replying backend
              (send_all backend (commands_of chunks))
              ("uploaded file to " +++ first_id chunks)
              s
    unfolding upload_file upload_from
    upload_file-sent [] s = refl
    upload_file-sent (c ∷ rest) s = upload_from-sent c.server_id (c ∷ rest) s

    -- An upload in chunks, none of them empty, is this and nothing else: for each chunk in turn,
    -- one command is given to the container of the chunk, in which a shell reads that a text is
    -- decoded and put behind what the chunk's path holds, and the text decodes to the bytes of the
    -- chunk. The first command that fails ends the upload with its status; else the reply names
    -- the server of the first chunk. The first chunk appends like the others, so that a file that
    -- is there is never replaced.
    pub upload_file-appends :
        (chunks : List FileChunk)
        → AreFilled chunks
        → (commands : List (String × String)) × AreAppends decode chunks commands
          × ((s : backend.State)
              → upload_file codec backend (stream_of chunks) s
                ≡ replying backend
                    (send_all backend commands)
                    ("uploaded file to " +++ first_id chunks)
                    s)
    upload_file-appends chunks h =
        (commands_of chunks, commands_of-AreAppends chunks h, upload_file-sent chunks)
