-- ===== src/Panel/Secrets/Laws.antt =====
-- That a stored password reads back: crates/panel/src/db.rs.
use Prim.Native.String.{len}
use oxydactylus.Base.{
  ℕ, zero, suc, String, false, ◌≡◌, refl, sym, arith, ◌==◌, ◌<◌, ltb, length, length-append, Option,
  none, some, [], ◌∷◌, ◌++◌, All, All-append, Bool-cases, Option-cases, inl, inr,
}
use oxydactylus.Base.Text.{◌+++◌}
use oxydactylus.Base.Text.Laws.{strip_prefix-append}
use oxydactylus.Panel.Error.{ok}
use oxydactylus.Panel.Secrets.{
  Bytes, Crypto, split_at, encrypt_password, decrypt_password, decrypt_hex, decrypt_bytes, stored,
  read_stored,
}

abbrev pub AreBytes : Bytes → Type 0
AreBytes = All (λ b. b < 256)

-- What the documentation of the crates says: a ciphertext is bytes and opens with the key and
-- the nonce of 12 bytes that it was made with, bytes read back from their digits, and a text
-- from its bytes.
pub record IsCrypto (crypto : Crypto) : Type 0 where
  pub opens :
      (key : String) (nonce plaintext ciphertext : Bytes)
      → length nonce ≡ 12
      → crypto.encrypt key nonce plaintext ≡ some ciphertext
      → AreBytes ciphertext × (crypto.decrypt key nonce ciphertext ≡ some plaintext)
  pub digits : (bs : Bytes) → AreBytes bs → crypto.hex_decode (crypto.hex_encode bs) ≡ some bs
  pub utf8 : (s : String) → crypto.from_utf8 (crypto.as_bytes s) ≡ some s

split_at-append : (n : ℕ) (xs ys : Bytes) → length xs ≡ n → split_at n (xs ++ ys) ≡ (xs, ys)
split_at-append zero [] ys e = refl
split_at-append zero (x ∷ xs) ys e = ground arith
split_at-append (suc n) [] ys e = ground arith
split_at-append (suc n) (x ∷ xs) ys e = rw (split_at-append n xs ys (ground arith)) refl

module _ (crypto : Crypto) (is_crypto : IsCrypto crypto) where
  -- A password that was encrypted with a nonce of 12 bytes decrypts with the same key to itself.
  pub decrypt_password-encrypt_password :
      (nonce : Bytes) (password key encrypted : String)
      → length nonce ≡ 12
      → AreBytes nonce
      → encrypt_password crypto nonce password key ≡ ok encrypted
      → decrypt_password crypto encrypted key ≡ ok password
  unfolding encrypt_password decrypt_password decrypt_hex decrypt_bytes
  decrypt_password-encrypt_password nonce password key encrypted twelve bytes h =
      elim (Bool-cases (len key == 32)) [
        | inl fits ↦ elim (Option-cases (crypto.encrypt key nonce (crypto.as_bytes password))) [
          | inl failed ↦ ground arith
          | inr (ciphertext, e) ↦
              let (c_bytes, back) =
                is_crypto.opens key nonce (crypto.as_bytes password) ciphertext twelve e in
              let made : "enc:" +++ crypto.hex_encode (nonce ++ ciphertext) ≡ encrypted =
                ground (arith, fits, e) in
              let enough : ltb (length (nonce ++ ciphertext)) 12 ≡ false =
                ground (arith, length-append nonce ciphertext) in
              rw
                (
                  sym made,
                  strip_prefix-append,
                  fits,
                  is_crypto.digits (nonce ++ ciphertext)
                      (All-append _ nonce ciphertext bytes c_bytes),
                  enough,
                  split_at-append 12 nonce ciphertext twelve,
                  back,
                  is_crypto.utf8 password,
                )
                refl
        ]
        | inr other ↦ ground arith
      ]

  -- Whether the panel has a key or not, what it stores of a password reads back as the password.
  pub read_stored-stored :
      (app_key : Option String) (nonce : Bytes) (password kept : String)
      → length nonce ≡ 12
      → AreBytes nonce
      → stored crypto app_key nonce password ≡ ok kept
      → read_stored crypto app_key kept ≡ ok password
  unfolding stored read_stored
  read_stored-stored none nonce password kept twelve bytes h = sym h
  read_stored-stored (some key) nonce password kept twelve bytes h =
      decrypt_password-encrypt_password nonce password key kept twelve bytes h
