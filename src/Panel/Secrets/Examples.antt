-- ===== src/Panel/Secrets/Examples.antt =====
-- A stored password, with a stand-in for the cipher.
use oxydactylus.Base.{◌≡◌, refl, some}
use oxydactylus.Panel.Error.{ok}
use oxydactylus.Panel.Secrets.{read_stored}
use oxydactylus.Panel.Secrets.Laws.{read_stored-stored}
use oxydactylus.Panel.Toy.Cipher.{
  toy_crypto, toy_crypto-IsCrypto, toy_nonce, toy_nonce-AreBytes, toy_key, toy_stored,
}

read_stored-stored_example : read_stored toy_crypto (some toy_key) toy_stored.0 ≡ ok "ab"
read_stored-stored_example =
    read_stored-stored toy_crypto toy_crypto-IsCrypto (some toy_key) toy_nonce "ab" toy_stored.0
      refl toy_nonce-AreBytes toy_stored.1
