-- ===== src/Client/Envelope/RoundTrip.antt =====
-- A message of client/crypto/encrypt.py is read by its recipient.
use chat_terminal.Common.{
  ◌+◌, ◌-◌, String, ◌≡◌, refl, ◌∙◌, some, arith, length, take, drop, length-drop, take-drop,
}
use chat_terminal.Common.Dict.{lookup}
use chat_terminal.Shared.Protocol.{Packet}
use chat_terminal.Client.FileCrypto.{Bytes}
use chat_terminal.Client.FileCrypto.Chunks.{GoodAead}
use chat_terminal.Client.Envelope.{
  Suite, ecdh_and_derive, envelope, encrypt_message, decoded_field, open_envelope, open_fields,
  decrypt_message, hkdf_salt, hkdf_info,
}

-- What the code relies on: base64 is read back, and the two sides of a key exchange agree.
pub record GoodSuite (suite : Suite) : Type 0 where
  pub good_aead : GoodAead suite.aead
  pub b64 : (b : Bytes) → suite.b64decode (suite.b64encode b) ≡ some b
  pub agree :
      (a b : Bytes) → suite.exchange a (suite.public_key b) ≡ suite.exchange b (suite.public_key a)

pub encrypt_message_lem :
    (suite : Suite) (ephemeral nonce key secret : Bytes) (plaintext : String)
    → suite.exchange ephemeral key ≡ some secret
    → encrypt_message suite ephemeral nonce plaintext key
      ≡ some (
          envelope suite (suite.public_key ephemeral) nonce (
            suite.aead.encrypt
              (suite.hkdf hkdf_salt hkdf_info secret)
              nonce
              (suite.utf8_encode plaintext)))
unfolding encrypt_message ecdh_and_derive
encrypt_message_lem suite ephemeral nonce key secret plaintext shared = ground (arith, shared)

module _ (suite : Suite) (good : GoodSuite suite) where
  decrypt-envelope :
      (ephemeral_public nonce sealed my_private_key : Bytes)
      → decrypt_message suite (envelope suite ephemeral_public nonce sealed) my_private_key
        ≡ open_envelope suite ephemeral_public
            (take (length sealed - 16) sealed)
            nonce
            (drop (length sealed - 16) sealed)
            my_private_key
  unfolding decrypt_message open_fields decoded_field envelope lookup
  decrypt-envelope ephemeral_public nonce sealed my_private_key = rw (good.b64 ephemeral_public) (
      rw (good.b64 (take (length sealed - 16) sealed))
        (rw (good.b64 nonce) (rw (good.b64 (drop (length sealed - 16) sealed)) refl)))

  -- A message that is encrypted for the owner of a private key, with a nonce of 12 bytes, is decrypted
  -- with that key to its text, whatever ephemeral key was drawn, if the key exchange succeeds
  -- and UTF-8 reads the text back.
  pub decrypt_message-encrypt_message :
      (ephemeral my_private_key nonce secret : Bytes) (plaintext : String)
      → length nonce ≡ 12
      → suite.exchange ephemeral (suite.public_key my_private_key) ≡ some secret
      → suite.utf8_decode (suite.utf8_encode plaintext) ≡ some plaintext
      → (payload : Packet) × (encrypt_message suite ephemeral nonce plaintext
            (suite.public_key my_private_key)
          ≡ some payload)
        × (decrypt_message suite payload my_private_key ≡ some plaintext)
  unfolding encrypt_message open_envelope ecdh_and_derive
  decrypt_message-encrypt_message ephemeral my_private_key nonce secret plaintext ln shared coded =
      let key = suite.hkdf hkdf_salt hkdf_info secret in
      let sealed = suite.aead.encrypt key nonce (suite.utf8_encode plaintext) in
      let cut = length sealed - 16 in
      let size : length sealed ≡ length (suite.utf8_encode plaintext) + 16 =
        good.good_aead.length-encrypt key nonce (suite.utf8_encode plaintext) in
      let tag : length (drop cut sealed) ≡ 16 = omega (arith, length-drop cut sealed, size) in
      let opened : suite.exchange my_private_key (suite.public_key ephemeral) ≡ some secret =
        good.agree my_private_key ephemeral ∙ shared in
      (
        envelope suite (suite.public_key ephemeral) nonce sealed,
        encrypt_message_lem suite ephemeral nonce (suite.public_key my_private_key) secret plaintext
            shared,
        decrypt-envelope (suite.public_key ephemeral) nonce sealed my_private_key
            ∙ rw
                (
                  ln,
                  tag,
                  opened,
                  take-drop cut sealed,
                  good.good_aead.decrypt-encrypt key nonce (suite.utf8_encode plaintext),
                )
                coded,
      )
