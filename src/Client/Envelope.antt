-- ===== src/Client/Envelope.antt =====
-- client/crypto/encrypt.py: messages that are encrypted for their recipient. X25519, HKDF, the
-- cipher, base64 and UTF-8 are parameters; `none` stands for an exception.
pub mod RoundTrip
use chat_terminal.Common.{
  ℕ, ◌-◌, String, not, Option, none, some, List, [], ◌∷◌, ◌++◌, string_eq, nat_beq, length, take,
  drop, if◌then◌else◌,
}
use chat_terminal.Common.Dict.{lookup}
use chat_terminal.Shared.Protocol.{Json, text, Packet}
use chat_terminal.Client.FileCrypto.{Bytes, Aead, nonce_len, tag_len}
use chat_terminal.Client.AudioCrypto.{Hkdf}

pub record Suite : Type 0 where
  pub aead : Aead
  -- `X25519PrivateKey.from_private_bytes(raw).public_key()`
  pub public_key : Bytes → Bytes
  -- `private_key.exchange(peer_public_key)`, of the raw keys
  pub exchange : Bytes → Bytes → Option Bytes
  pub hkdf : Hkdf
  pub b64encode : Bytes → String
  pub b64decode : String → Option Bytes
  pub utf8_encode : String → Bytes
  pub utf8_decode : Bytes → Option String

-- b"ChatterTerminal-v1"
abbrev pub hkdf_salt : Bytes
hkdf_salt =
    b'C' ∷ b'h' ∷ b'a' ∷ b't' ∷ b't' ∷ b'e' ∷ b'r' ∷ b'T' ∷ b'e' ∷ b'r' ∷ b'm' ∷ b'i' ∷ b'n' ∷ b'a'
    ∷ b'l' ∷ b'-' ∷ b'v' ∷ b'1' ∷ []

-- b"message-key"
abbrev pub hkdf_info : Bytes
hkdf_info = b'm' ∷ b'e' ∷ b's' ∷ b's' ∷ b'a' ∷ b'g' ∷ b'e' ∷ b'-' ∷ b'k' ∷ b'e' ∷ b'y' ∷ []

-- `_ecdh_and_derive`
unfoldable pub ecdh_and_derive : Suite → Bytes → Bytes → Option Bytes
ecdh_and_derive suite private_key peer_public_key =
    elim (suite.exchange private_key peer_public_key) [
      | none ↦ none
      | some shared_secret ↦ some (suite.hkdf hkdf_salt hkdf_info shared_secret)
    ]

-- The dict that `encrypt_message` returns
unfoldable pub envelope : Suite → Bytes → Bytes → Bytes → Packet
envelope suite ephemeral_public nonce sealed =
    let cut = length sealed - tag_len in
    ("ephemeral_pubkey", text (suite.b64encode ephemeral_public))
    ∷ ("ciphertext", text (suite.b64encode (take cut sealed)))
    ∷ ("nonce", text (suite.b64encode nonce))
    ∷ ("auth_tag", text (suite.b64encode (drop cut sealed)))
    ∷ []

-- `encrypt_message`, with the ephemeral private key and the nonce that it draws
unfoldable pub encrypt_message : Suite → Bytes → Bytes → String → Bytes → Option Packet
unfolding envelope ecdh_and_derive
encrypt_message suite ephemeral nonce plaintext recipient_public_key =
    elim (ecdh_and_derive suite ephemeral recipient_public_key) [
      | none ↦ none
      | some key ↦ some (
          envelope suite (suite.public_key ephemeral) nonce
            (suite.aead.encrypt key nonce (suite.utf8_encode plaintext)))
    ]

-- `base64.b64decode(payload[k])`
unfoldable pub decoded_field : Suite → String → Packet → Option Bytes
decoded_field suite k payload = elim (lookup k payload) [
  | none ↦ none
  | some v ↦ elim v [ text s ↦ suite.b64decode s | _ ↦ none ]
]

-- The part of `decrypt_message` after the four fields have been decoded
unfoldable pub open_envelope : Suite → Bytes → Bytes → Bytes → Bytes → Bytes → Option String
unfolding ecdh_and_derive
open_envelope suite ephemeral_public ciphertext nonce auth_tag my_private_key =
    if not (nat_beq (length nonce) nonce_len)
    then none
    else if not (nat_beq (length auth_tag) tag_len)
    then none
    else elim (ecdh_and_derive suite my_private_key ephemeral_public) [
      | none ↦ none
      | some key ↦ elim (suite.aead.decrypt key nonce (ciphertext ++ auth_tag)) [
        | none ↦ none
        | some plain ↦ suite.utf8_decode plain
      ]
    ]

-- The decoded fields, each of which may have raised
unfoldable pub open_fields :
    Suite → Bytes → Option Bytes → Option Bytes → Option Bytes → Option Bytes → Option String
unfolding open_envelope
open_fields suite my_private_key (some ephemeral_public) (some ciphertext) (some nonce)
      (some auth_tag) =
    open_envelope suite ephemeral_public ciphertext nonce auth_tag my_private_key
open_fields suite my_private_key _ _ _ _ = none

unfoldable pub decrypt_message : Suite → Packet → Bytes → Option String
unfolding decoded_field open_fields
decrypt_message suite payload my_private_key =
    open_fields suite my_private_key (decoded_field suite "ephemeral_pubkey" payload)
      (decoded_field suite "ciphertext" payload) (decoded_field suite "nonce" payload)
      (decoded_field suite "auth_tag" payload)
