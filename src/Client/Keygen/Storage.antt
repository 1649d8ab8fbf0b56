-- ===== src/Client/Keygen/Storage.antt =====
-- A private key of client/crypto/keygen.py that is stored is read back.
use chat_terminal.Common.{
  ◌≡◌, refl, sym, ap, ◌∙◌, arith, String, some, ◌++◌, append_assoc, length, drop, length-append,
  cut_at,
}
use chat_terminal.Client.FileCrypto.{Bytes}
use chat_terminal.Client.FileCrypto.Chunks.{GoodAead}
use chat_terminal.Client.Keygen.{Vault, encrypt_private_key, open_blob, decrypt_private_key}

module _ (vault : Vault) (salt nonce private_key : Bytes) (password : String)
    (ls : length salt ≡ 16) (ln : length nonce ≡ 12) where
  open_blob_lem :
      GoodAead vault.aead
      → length private_key ≡ 32
      → let sealed = vault.aead.encrypt (vault.derive_key password salt) nonce private_key in
        open_blob vault (salt ++ (nonce ++ sealed)) password ≡ some private_key
  unfolding open_blob
  open_blob_lem good lk =
      let key = vault.derive_key password salt in
      let sealed = vault.aead.encrypt key nonce private_key in
      let (first, behind) = cut_at 16 salt (nonce ++ sealed) ls in
      let (second, _) = cut_at 12 nonce sealed ln in
      let both : length (salt ++ nonce) ≡ 28 = omega (arith, length-append salt nonce, ls, ln) in
      let last : drop 28 (salt ++ (nonce ++ sealed)) ≡ sealed =
        ap (drop 28) (sym (append_assoc salt nonce sealed))
        ∙ (cut_at 28 (salt ++ nonce) sealed both).1 in
      let size : length (salt ++ (nonce ++ sealed)) ≡ 76 = omega (
        arith,
        length-append salt (nonce ++ sealed),
        length-append nonce sealed,
        ls,
        ln,
        lk,
        good.length-encrypt key nonce private_key,
      ) in
      rw (size, first, behind, second, last) (good.decrypt-encrypt key nonce private_key)

-- A private key of 32 bytes that is encrypted under a password, with a salt of 16 bytes and a nonce of
-- 12, is read back with the password, if base64 reads the text back, and decryption undoes encryption.
pub decrypt_private_key-encrypt_private_key :
    (vault : Vault) (salt nonce private_key : Bytes) (password : String)
    → GoodAead vault.aead
    → ((b : Bytes) → vault.b64decode (vault.b64encode b) ≡ some b)
    → length salt ≡ 16
    → length nonce ≡ 12
    → length private_key ≡ 32
    → (stored : String) × (encrypt_private_key vault salt nonce private_key password ≡ some stored)
      × (decrypt_private_key vault stored password ≡ some private_key)
unfolding encrypt_private_key decrypt_private_key
decrypt_private_key-encrypt_private_key vault salt nonce private_key password good b64 ls ln lk =
    let blob =
      salt ++ (nonce ++ vault.aead.encrypt (vault.derive_key password salt) nonce private_key) in
    (
      vault.b64encode blob,
      rw lk refl,
      rw (b64 blob, decrypt_private_key)
          (open_blob_lem vault salt nonce private_key password ls ln good lk),
    )
