-- ===== src/Panel/Toy/Cipher.antt =====
-- The cipher, with texts for bytes and bytes for texts.
use Prim.Native.Nat.{compare, Ordering}
use Prim.Native.Char.{Char, char, code}
use Prim.Native.String.{[], ◌∷◌}
use mathlib.Core.List.{[] as []ᴸ, ◌∷◌ as ◌∷ᴸ◌}
use text.Mathlib.TextEquality.{Char-path}
use oxydactylus.Base.{
  ℕ, zero, suc, String, true, ◌≡◌, refl, sym, ap, arith, Option, none, some, ltb, all, ◌==◌,
  Bool-cases, inl, inr, if◌then◌else◌,
}
use oxydactylus.Panel.Secrets.{Bytes, Crypto}
use oxydactylus.Panel.Secrets.Laws.{AreBytes, IsCrypto}
use oxydactylus.Panel.Error.{ok}
use oxydactylus.Panel.Secrets.{encrypt_password, stored}

-- Bytes as so many letters each, with a dot after each.
write_byte : ℕ → String → String
write_byte zero t = "." ∷ t
write_byte (suc b) t = "x" ∷ write_byte b t

write_bytes : Bytes → String
write_bytes []ᴸ = []
write_bytes (b ∷ᴸ bs) = write_byte b (write_bytes bs)

abbrev bump : Bytes → Bytes
bump []ᴸ = []ᴸ
bump (b ∷ᴸ bs) = suc b ∷ᴸ bs

read_bytes : String → Bytes
read_bytes [] = []ᴸ
read_bytes (c ∷ s) = let rest = read_bytes s in if code c == b'.' then zero ∷ᴸ rest else bump rest

read_bytes-write_byte : (b : ℕ) (t : String) → read_bytes (write_byte b t) ≡ b ∷ᴸ read_bytes t
unfolding read_bytes write_byte
read_bytes-write_byte zero t = refl
read_bytes-write_byte (suc b) t = rw (read_bytes-write_byte b t) refl

read_bytes-write_bytes : (bs : Bytes) → read_bytes (write_bytes bs) ≡ bs
unfolding read_bytes write_bytes
read_bytes-write_bytes []ᴸ = refl
read_bytes-write_bytes (b ∷ᴸ bs) =
    rw (read_bytes-write_byte b (write_bytes bs), read_bytes-write_bytes bs) refl

-- The characters of a text by their numbers.
codes : String → Bytes
codes [] = []ᴸ
codes (c ∷ s) = code c ∷ᴸ codes s

-- The character of a number, where it has one.
char_by :
    (n : ℕ) (o p q : Ordering)
    → compare n 55296 ≡ o
    → compare 57343 n ≡ p
    → compare n 1114112 ≡ q
    → Option Char
char_by n Ordering.lt _ _ e e' e'' = some (char n (rw e tt))
char_by n Ordering.eq Ordering.lt Ordering.lt e e' e'' = some (char n (rw (e, e', e'') tt))
char_by n Ordering.eq Ordering.lt Ordering.eq e e' e'' = none
char_by n Ordering.eq Ordering.lt Ordering.gt e e' e'' = none
char_by n Ordering.eq Ordering.eq _ e e' e'' = none
char_by n Ordering.eq Ordering.gt _ e e' e'' = none
char_by n Ordering.gt Ordering.lt Ordering.lt e e' e'' = some (char n (rw (e, e', e'') tt))
char_by n Ordering.gt Ordering.lt Ordering.eq e e' e'' = none
char_by n Ordering.gt Ordering.lt Ordering.gt e e' e'' = none
char_by n Ordering.gt Ordering.eq _ e e' e'' = none
char_by n Ordering.gt Ordering.gt _ e e' e'' = none

char_by-code :
    (c : Char) (o p q : Ordering) (e : compare (code c) 55296 ≡ o) (e' : compare 57343 (code c) ≡ p)
    (e'' : compare (code c) 1114112 ≡ q)
    → char_by (code c) o p q e e' e'' ≡ some c
unfolding char_by
char_by-code (char n s) Ordering.lt _ _ e e' e'' = ap some (Char-path _ _ refl)
char_by-code (char n s) Ordering.eq Ordering.lt Ordering.lt e e' e'' = ap some (Char-path _ _ refl)
char_by-code (char n s) Ordering.eq Ordering.lt Ordering.eq e e' e'' =
    elim (rw (e, e', e'') at s) [ ]
char_by-code (char n s) Ordering.eq Ordering.lt Ordering.gt e e' e'' =
    elim (rw (e, e', e'') at s) [ ]
char_by-code (char n s) Ordering.eq Ordering.eq _ e e' e'' = elim (rw (e, e') at s) [ ]
char_by-code (char n s) Ordering.eq Ordering.gt _ e e' e'' = elim (rw (e, e') at s) [ ]
char_by-code (char n s) Ordering.gt Ordering.lt Ordering.lt e e' e'' = ap some (Char-path _ _ refl)
char_by-code (char n s) Ordering.gt Ordering.lt Ordering.eq e e' e'' =
    elim (rw (e, e', e'') at s) [ ]
char_by-code (char n s) Ordering.gt Ordering.lt Ordering.gt e e' e'' =
    elim (rw (e, e', e'') at s) [ ]
char_by-code (char n s) Ordering.gt Ordering.eq _ e e' e'' = elim (rw (e, e') at s) [ ]
char_by-code (char n s) Ordering.gt Ordering.gt _ e e' e'' = elim (rw (e, e') at s) [ ]

char_of : ℕ → Option Char
char_of n = char_by n (compare n 55296) (compare 57343 n) (compare n 1114112) refl refl refl

char_of-code : (c : Char) → char_of (code c) ≡ some c
unfolding char_of
char_of-code c = char_by-code c _ _ _ refl refl refl

abbrev consed : Option Char → Option String → Option String
consed none _ = none
consed (some c) none = none
consed (some c) (some s) = some (c ∷ s)

text_of : Bytes → Option String
text_of []ᴸ = some []
text_of (b ∷ᴸ bs) = consed (char_of b) (text_of bs)

text_of-codes : (s : String) → text_of (codes s) ≡ some s
unfolding text_of codes
text_of-codes [] = refl
text_of-codes (c ∷ s) = rw (char_of-code c, text_of-codes s) refl

-- The plaintext is the ciphertext, where it is made of bytes.
plain : Bytes → Option Bytes
plain bs = if all (λ b. ltb b 256) bs then some bs else none

all-AreBytes : (bs : Bytes) → all (λ b. ltb b 256) bs ≡ true → AreBytes bs
all-AreBytes []ᴸ h = tt
all-AreBytes (b ∷ᴸ bs) h = (ground arith, all-AreBytes bs (ground arith))

pub toy_crypto : Crypto
toy_crypto = record {
  encrypt = λ key nonce plaintext. plain plaintext;
  decrypt = λ key nonce ciphertext. some ciphertext;
  hex_encode = write_bytes;
  hex_decode = λ s. some (read_bytes s);
  as_bytes = codes;
  from_utf8 = text_of;
}

pub toy_crypto-IsCrypto : IsCrypto toy_crypto
unfolding toy_crypto plain
toy_crypto-IsCrypto = record {
  opens = λ key nonce plaintext ciphertext twelve made.
      elim (Bool-cases (all (λ b. ltb b 256) plaintext)) [
        | inl are ↦
            let is : plaintext ≡ ciphertext = ground (arith, are) in
            (rw (sym is) (all-AreBytes plaintext are), ap some (sym is))
        | inr not_all ↦ ground (arith, not_all)
      ];
  digits = λ bs are. ap some (read_bytes-write_bytes bs);
  utf8 = text_of-codes;
}

abbrev pub toy_nonce : Bytes
toy_nonce = 1 ∷ᴸ 2 ∷ᴸ 3 ∷ᴸ 4 ∷ᴸ 5 ∷ᴸ 6 ∷ᴸ 7 ∷ᴸ 8 ∷ᴸ 9 ∷ᴸ 10 ∷ᴸ 11 ∷ᴸ 12 ∷ᴸ []ᴸ

pub toy_nonce-AreBytes : AreBytes toy_nonce
toy_nonce-AreBytes = all-AreBytes toy_nonce refl

abbrev pub toy_key : String
toy_key = "0123456789abcdef0123456789abcdef"

-- What is stored of a short password.
pub toy_stored : (kept : String) × (stored toy_crypto (some toy_key) toy_nonce "ab" ≡ ok kept)
unfolding stored encrypt_password toy_crypto plain codes write_bytes write_byte
toy_stored = (_, refl)
