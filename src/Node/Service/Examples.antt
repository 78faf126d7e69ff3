-- ===== src/Node/Service/Examples.antt =====
-- An upload of a small file in two chunks.
use oxydactylus.Base.{ℕ, ◌≡◌, refl, String, List, [], ◌∷◌}
use oxydactylus.Base.Text.{◌+++◌}
use oxydactylus.Node.Toy.{toy_codec, toy_backend, toy-IsBase64, decode_text}
use oxydactylus.Node.Service.{replying}
use oxydactylus.Node.Service.Transfer.{FileChunk, upload_file}
use oxydactylus.Node.Service.Upload.{stream_of, first_id, AreAppends, send_all, upload_file-appends}

abbrev part : List ℕ → FileChunk
part bytes = record { server_id = "10"; path = "/a"; chunk = bytes }

abbrev parts : List FileChunk
parts = part (b'a' ∷ []) ∷ part (b'b' ∷ []) ∷ []

upload_file-appends_example :
    (commands : List (String × String)) × AreAppends decode_text parts commands
    × ((s : List (String × String))
        → upload_file toy_codec toy_backend (stream_of parts) s
          ≡ replying toy_backend
              (send_all toy_backend commands)
              ("uploaded file to " +++ first_id parts)
              s)
upload_file-appends_example =
    upload_file-appends toy_codec decode_text toy-IsBase64 toy_backend parts
      ((b'a', [], refl), ((b'b', [], refl), tt))
