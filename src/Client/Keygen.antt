-- ===== src/Client/Keygen.antt =====
-- client/crypto/keygen.py: the private key, encrypted under a password. X25519, Argon2id, AES-GCM and
-- base64 are parameters; `none` stands for the ValueError.
pub mod Storage
use chat_terminal.Common.{
  ℕ, String, Bool, not, Option, none, some, List, [], ◌++◌, nat_beq, length, take, drop,
  if◌then◌else◌,
}
use chat_terminal.Client.FileCrypto.{Bytes, Aead}

pub record Vault : Type 0 where
  pub aead : Aead
  -- `_derive_key`: Argon2id of the password and the salt
  pub derive_key : String → Bytes → Bytes
  pub b64encode : Bytes → String
  pub b64decode : String → Option Bytes

abbrev pub salt_len : ℕ
salt_len = 16

-- The salt and the nonce are those that are drawn.
unfoldable pub encrypt_private_key : Vault → Bytes → Bytes → Bytes → String → Option String
encrypt_private_key vault salt nonce private_key password =
    if not (nat_beq (length private_key) 32)
    then none
    else some (
        vault.b64encode (
          salt ++ (nonce ++ vault.aead.encrypt (vault.derive_key password salt) nonce private_key)))

-- The part of `decrypt_private_key` behind the decoding: 76 bytes are expected.
unfoldable pub open_blob : Vault → Bytes → String → Option Bytes
open_blob vault blob password =
    if not (nat_beq (length blob) 76)
    then none
    else (let salt = take 16 blob in
        let nonce = take 12 (drop 16 blob) in
        vault.aead.decrypt (vault.derive_key password salt) nonce (drop 28 blob))

unfoldable pub decrypt_private_key : Vault → String → String → Option Bytes
unfolding open_blob
decrypt_private_key vault encrypted password = elim (vault.b64decode encrypted) [
  | none ↦ none
  | some blob ↦ open_blob vault blob password
]
