-- ===== src/Panel/Toy/Tokens.antt =====
-- Identifiers, tokens and hashes.
use Prim.Native.Char.{code}
use Prim.Native.String.{[], ◌∷◌}
use mathlib.Core.Option
use oxydactylus.Base.{
  ℕ, zero, suc, String, Bool, true, false, ◌≡◌, refl, sym, arith, Option, none, some, str_eq,
  eq_iff, leb, ◌==◌, if◌then◌else◌,
}
use oxydactylus.Panel.Store.{Time}
use oxydactylus.Panel.Tokens.{Claims, Outcome, returned, failed, Jwt, UuidText}
use oxydactylus.Panel.Tokens.Laws.{IsJwt, IsUuidText}
use oxydactylus.Panel.Login.{Argon2}
use oxydactylus.Panel.Users.Created.{IsArgon2}

-- A number as so many letters.
pub marks : ℕ → String
marks zero = []
marks (suc n) = "x" ∷ marks n

unfoldable pub read_marks : String → Option ℕ
read_marks [] = some zero
read_marks (c ∷ s) = if code c == b'x' then Option.map suc (read_marks s) else none

read_marks-marks : (n : ℕ) → read_marks (marks n) ≡ some n
unfolding marks read_marks
read_marks-marks zero = refl
read_marks-marks (suc n) = rw (read_marks-marks n) refl

abbrev pub toy_uuids : UuidText
toy_uuids = record { to_string = marks; parse_str = read_marks }

pub toy_uuids-IsUuidText : IsUuidText toy_uuids
toy_uuids-IsUuidText = read_marks-marks

-- A text with what follows it: a plus before each character, a minus at the end.
write_text : String → String → String
write_text [] t = "-" ∷ t
write_text (c ∷ s) t = "+" ∷ c ∷ write_text s t

read_text : String → Option (String × String)
read_text [] = none
read_text (d ∷ []) = if code d == b'-' then some ([], []) else none
read_text (d ∷ c ∷ t) =
    let rest = read_text t in
    if code d == b'-' then some ([], c ∷ t) else Option.map (λ p. (c ∷ p.0, p.1)) rest

read_text-write_text : (s t : String) → read_text (write_text s t) ≡ some (s, t)
unfolding read_text write_text
read_text-write_text [] [] = refl
read_text-write_text [] (c ∷ t) = refl
read_text-write_text (c ∷ s) t = rw (read_text-write_text s t) refl

abbrev flag : Bool → String
flag true = "t"
flag false = "f"

pub toy_token : Claims → String
toy_token c = write_text c.sub (write_text c.kind (write_text (flag c.adm) (marks c.exp)))

abbrev exp_from : String → String → String → Option ℕ → Outcome Claims
exp_from sub kind f none = failed "exp"
exp_from sub kind f (some exp) =
    returned (record { sub = sub; adm = str_eq f "t"; exp = exp; kind = kind })

abbrev claims_from : String → String → Option (String × String) → Outcome Claims
claims_from sub kind none = failed "flag"
claims_from sub kind (some (f, t)) = exp_from sub kind f (read_marks t)

abbrev kind_from : String → Option (String × String) → Outcome Claims
kind_from sub none = failed "kind"
kind_from sub (some (kind, t)) = claims_from sub kind (read_text t)

abbrev sub_from : Option (String × String) → Outcome Claims
sub_from none = failed "sub"
sub_from (some (sub, t)) = kind_from sub (read_text t)

abbrev unexpired : Time → Outcome Claims → Outcome Claims
unexpired now (failed what) = failed what
unexpired now (returned c) = if leb now c.exp then returned c else failed "ExpiredSignature"

pub toy_decode : Time → String → Outcome Claims
toy_decode now t = unexpired now (sub_from (read_text t))

flag_lem : (b : Bool) → str_eq (flag b) "t" ≡ b
flag_lem true = refl
flag_lem false = refl

toy_decode-toy_token :
    (now : Time) (c : Claims) → toy_decode now (toy_token c) ≡ unexpired now (returned c)
unfolding toy_decode toy_token
toy_decode-toy_token now c =
    let again = read_marks-marks c.exp in
    let adm = flag_lem c.adm in
    rw (read_text-write_text, read_text-write_text, read_text-write_text, again, adm) refl

abbrev pub toy_jwt : Jwt
toy_jwt = record {
  encode = λ secret c. returned (toy_token c);
  decode = λ secret now t. toy_decode now t;
}

pub toy_jwt-IsJwt : IsJwt toy_jwt
toy_jwt-IsJwt = record {
  valid = λ secret c token now made early.
      let is : toy_token c ≡ token = ground arith in
      let e = toy_decode-toy_token now c in
      let in_time : leb now c.exp ≡ true = ground (arith, early) in rw (sym is, e, in_time) refl;
  expired = λ secret c token now made late.
      let is : toy_token c ≡ token = ground arith in
      let e = toy_decode-toy_token now c in
      let too_late : leb now c.exp ≡ false = ground (arith, late) in
      ("ExpiredSignature", rw (sym is, e, too_late) refl);
}

-- A hash is the password.
abbrev pub toy_argon2 : Argon2
toy_argon2 = record {
  hash = λ salt password. returned password;
  parse = λ hash. some (λ password. str_eq password hash);
}

pub toy_argon2-IsArgon2 : IsArgon2 toy_argon2
toy_argon2-IsArgon2 salt password hash made =
    let is : password ≡ hash = ground arith in (eq_iff password hash).1 is
