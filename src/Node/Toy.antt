-- ===== src/Node/Toy.antt =====
-- A machine for the examples: numbers and bytes are written in unary, and a container's process
-- takes every command.
use Prim.Native.Char.{Char, code}
use Prim.Native.String.{[] as []ˢ, ◌∷◌ as ◌∷ˢ◌}
use oxydactylus.Base.{
  ℕ, zero, suc, ◌+◌, String, false, ◌==◌, ◌≡◌, refl, ap, ◌∙◌, List, [], ◌∷◌, if◌then◌else◌, arith,
}
use oxydactylus.Base.Text.{contains_char}
use oxydactylus.Base.Text.Laws.{prepend}
use oxydactylus.Node.Error.{docker, ok, err}
use oxydactylus.Node.Docker.{DockerBackend}
use oxydactylus.Node.Files.Operations.{Codec}
use oxydactylus.Node.Shell.Redirects.{IsPlain}
use oxydactylus.Node.Service.Upload.{IsBase64}

unfoldable pub marks : ℕ → String
marks zero = []ˢ
marks (suc n) = "x" ∷ˢ marks n

unfoldable pub encode_bytes : List ℕ → String
unfolding marks
encode_bytes [] = []ˢ
encode_bytes (b ∷ bs) = prepend (marks b) ("y" ∷ˢ encode_bytes bs)

read_from : ℕ → String → List ℕ
read_from acc []ˢ = []
read_from acc (c ∷ˢ s) = if code c == b'y' then acc ∷ read_from zero s else read_from (suc acc) s

unfoldable pub decode_text : String → List ℕ
unfolding read_from
decode_text s = read_from zero s

read_from-marks :
    (acc b : ℕ) (s : String)
    → read_from acc (prepend (marks b) ("y" ∷ˢ s)) ≡ (acc + b) ∷ read_from zero s
unfolding read_from marks
read_from-marks acc zero s = ap (λ n. n ∷ read_from zero s) {x = acc} {y = acc + zero} (omega arith)
read_from-marks acc (suc b) s =
    read_from-marks (suc acc) b s
    ∙ ap (λ n. n ∷ read_from zero s) {x = suc acc + b} {y = acc + suc b} (omega arith)

pub decode_text-encode_bytes : (bs : List ℕ) → decode_text (encode_bytes bs) ≡ bs
unfolding decode_text encode_bytes
decode_text-encode_bytes [] = refl
decode_text-encode_bytes (b ∷ bs) =
    read_from-marks zero b (encode_bytes bs)
    ∙ ap (λ n. n ∷ decode_text (encode_bytes bs)) {x = zero + b} {y = b} (omega arith)
    ∙ ap (λ l. b ∷ l) (decode_text-encode_bytes bs)

marks-IsPlain : (b : ℕ) (s : String) → IsPlain s → IsPlain (prepend (marks b) ("y" ∷ˢ s))
unfolding marks
marks-IsPlain zero s h = (refl, h)
marks-IsPlain (suc b) s h = (refl, marks-IsPlain b s h)

encode_bytes-IsPlain : (bs : List ℕ) → IsPlain (encode_bytes bs)
unfolding encode_bytes
encode_bytes-IsPlain [] = tt
encode_bytes-IsPlain (b ∷ bs) = marks-IsPlain b (encode_bytes bs) (encode_bytes-IsPlain bs)

abbrev pub toy_codec : Codec
toy_codec = record { into_bytes = decode_text; number_text = marks; encode = encode_bytes }

IsPlain-bytes :
    (b : ℕ) (bs : List ℕ)
    → (c : Char) × (s : String) × (encode_bytes (b ∷ bs) ≡ c ∷ˢ s) × IsPlain (c ∷ˢ s)
unfolding encode_bytes marks
IsPlain-bytes zero bs = ("y", encode_bytes bs, refl, (refl, encode_bytes-IsPlain bs))
IsPlain-bytes (suc b) bs = (
  "x",
  prepend (marks b) ("y" ∷ˢ encode_bytes bs),
  refl,
  (refl, marks-IsPlain b (encode_bytes bs) (encode_bytes-IsPlain bs)),
)

pub toy-IsBase64 : IsBase64 toy_codec decode_text
toy-IsBase64 = record { reads_back = decode_text-encode_bytes; plain_text = IsPlain-bytes }

pub marks_free : (sep b : ℕ) → (120 == sep) ≡ false → contains_char sep (marks b) ≡ false
unfolding marks contains_char
marks_free sep zero h = refl
marks_free sep (suc b) h = rw h (marks_free sep b h)

-- A container that takes every command.
abbrev pub toy_backend : DockerBackend ℕ
toy_backend = record {
  State = List (String × String);
  create_container = λ spec s. (ok spec.name, s);
  start_container = λ id s. (ok tt, s);
  stop_container = λ id timeout s. (ok tt, s);
  delete_container = λ id s. (ok tt, s);
  send_command = λ id command s. (ok tt, (id, command) ∷ s);
  send_command_with_output = λ id command s. (ok "", (id, command) ∷ s);
  get_stats =
      λ id s. (ok (record { memory_bytes = 0; cpu_percent = 0; rx_bytes = 0; tx_bytes = 0 }), s);
  log_stream = λ id follow s.
      (ok (ok (record { content = "done\r\n"; stream = "stdout" }) ∷ err (docker "gone") ∷ []), s);
}
