-- ===== src/Panel/Secrets.antt =====
-- The passwords that the panel keeps for others: `encrypt_password` and `decrypt_password` of
-- crates/panel/src/db.rs. The cipher, the hexadecimal texts and UTF-8 are records of operations.
pub mod Laws
mod Examples
use Prim.Native.String.{len}
use oxydactylus.Base.{
  ℕ, zero, suc, String, ◌==◌, not, ltb, length, Option, none, some, List, [], ◌∷◌, ◌++◌,
  if◌then◌else◌,
}
use oxydactylus.Base.Text.{◌+++◌, strip_prefix}
use oxydactylus.Panel.Error.{PanelError, Message, internal, text, Result, ok, err, ◌>>=◌}

-- A byte is a number below 2^8.
abbrev pub Bytes : Type 0
Bytes = List ℕ

-- `aes_gcm` (by the text of the key, with a nonce), `hex`, and the bytes of a text.
pub record Crypto : Type 0 where
  pub encrypt : String → Bytes → Bytes → Option Bytes
  pub decrypt : String → Bytes → Bytes → Option Bytes
  pub hex_encode : Bytes → String
  pub hex_decode : String → Option Bytes
  pub as_bytes : String → Bytes
  pub from_utf8 : Bytes → Option String

abbrev pub or_internal : {A : Type 0} → String → Option A → Result A
or_internal what none = err (internal (text what))
or_internal what (some a) = ok a

-- `split_at`, where the bytes are that many
abbrev pub split_at : ℕ → Bytes → Bytes × Bytes
split_at zero bs = ([], bs)
split_at (suc n) [] = ([], [])
split_at (suc n) (b ∷ bs) = (b ∷ (split_at n bs).0, (split_at n bs).1)

module _ (crypto : Crypto) where
  -- `nonce_bytes` is what the generator fills the array with.
  unfoldable pub encrypt_password : Bytes → String → String → Result String
  encrypt_password nonce_bytes password app_key =
      if not (len app_key == 32) then err (internal (text "app_key must be 32 bytes")) else (do
        ciphertext ←
            or_internal "encryption failed"
              (crypto.encrypt app_key nonce_bytes (crypto.as_bytes password))
        ok ("enc:" +++ crypto.hex_encode (nonce_bytes ++ ciphertext)))

  abbrev pub decrypt_split : String → Bytes × Bytes → Result String
  decrypt_split app_key (nonce_bytes, ciphertext) = do
    plaintext ← or_internal "decryption failed" (crypto.decrypt app_key nonce_bytes ciphertext)
    or_internal "invalid utf8 in decrypted data" (crypto.from_utf8 plaintext)

  unfoldable pub decrypt_bytes : String → Bytes → Result String
  decrypt_bytes app_key hex_data =
      if ltb (length hex_data) 12
      then err (internal (text "invalid encrypted data length"))
      else decrypt_split app_key (split_at 12 hex_data)

  unfoldable pub decrypt_hex : String → String → Result String
  decrypt_hex app_key hex =
      if not (len app_key == 32)
      then err (internal (text "app_key must be 32 bytes"))
      else (or_internal "invalid hex encoding" (crypto.hex_decode hex) >>= decrypt_bytes app_key)

  unfoldable pub decrypt_password : String → String → Result String
  decrypt_password encrypted app_key =
      or_internal "invalid encrypted format" (strip_prefix "enc:" encrypted) >>= decrypt_hex app_key

  -- What the other modules store and read: encrypted where the panel has a key.
  unfoldable pub stored : Option String → Bytes → String → Result String
  stored none nonce_bytes password = ok password
  stored (some key) nonce_bytes password = encrypt_password nonce_bytes password key

  unfoldable pub read_stored : Option String → String → Result String
  read_stored none kept = ok kept
  read_stored (some key) kept = decrypt_password kept key
