-- ===== src/Client/FileCrypto/Chunks.antt =====
-- Encrypted chunks of client/crypto/file_crypto.py are decrypted.
use chat_terminal.Common.{
  ◌+◌, ◌-◌, ◌≡◌, refl, some, arith, length, take, drop, length-take, length-drop, take-drop,
}
use chat_terminal.Client.FileCrypto.{Bytes, Aead, encrypt_chunk, decrypt_chunk}

-- What the code relies on in AES-GCM: the tag of 16 bytes is appended, and decryption with the same
-- key and nonce undoes encryption.
pub record GoodAead (aead : Aead) : Type 0 where
  pub length-encrypt :
      (key nonce plain : Bytes) → length (aead.encrypt key nonce plain) ≡ length plain + 16
  pub decrypt-encrypt :
      (key nonce plain : Bytes) → aead.decrypt key nonce (aead.encrypt key nonce plain) ≡ some plain

-- With a key of 32 bytes and a nonce of 12, and a cipher that appends a tag of 16 bytes and whose
-- decryption undoes encryption, a chunk is encrypted, to a ciphertext of its own length and a tag
-- of 16 bytes; these are decrypted to the chunk.
pub decrypt_chunk-encrypt_chunk :
    (aead : Aead) (nonce plain key : Bytes)
    → GoodAead aead
    → length key ≡ 32
    → length nonce ≡ 12
    → (ciphertext : Bytes) × (tag : Bytes) × (encrypt_chunk aead nonce plain key
        ≡ some (ciphertext, nonce, tag))
      × (length ciphertext ≡ length plain)
      × (length tag ≡ 16)
      × (decrypt_chunk aead ciphertext nonce tag key ≡ some plain)
unfolding encrypt_chunk decrypt_chunk
decrypt_chunk-encrypt_chunk aead nonce plain key good lk ln =
    let sealed = aead.encrypt key nonce plain in
    let cut = length sealed - 16 in
    let size : length sealed ≡ length plain + 16 = good.length-encrypt key nonce plain in
    let lt : length (drop cut sealed) ≡ 16 = omega (arith, length-drop cut sealed, size) in
    (
      take cut sealed,
      drop cut sealed,
      rw lk refl,
      omega (arith, length-take cut sealed, size),
      lt,
      rw (lk, ln, lt, take-drop cut sealed) (good.decrypt-encrypt key nonce plain),
    )
