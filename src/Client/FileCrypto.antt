-- ===== src/Client/FileCrypto.antt =====
-- client/crypto/file_crypto.py: the encryption of file chunks. The cipher and the hash are
-- parameters; `none` stands for the ValueError.
pub mod Chunks
use chat_terminal.Common.{
  ℕ, ◌+◌, ◌-◌, ◌≡◌, Bool, true, false, not, Option, none, some, List, ◌++◌, nat_beq, length, take,
  drop, if◌then◌else◌,
}

abbrev pub Bytes : Type 0
Bytes = List ℕ

-- `AESGCM(key).encrypt(nonce, data, None)` and `.decrypt(nonce, data, None)`, which may raise
pub record Aead : Type 0 where
  pub encrypt : Bytes → Bytes → Bytes → Bytes
  pub decrypt : Bytes → Bytes → Bytes → Option Bytes

abbrev pub nonce_len : ℕ
nonce_len = 12

abbrev pub tag_len : ℕ
tag_len = 16

-- `os.urandom(32)`
abbrev generate_file_key : (ℕ → Bytes) → Bytes
generate_file_key urandom = urandom 32

-- `encrypt_chunk` with the nonce that it draws: the ciphertext, the nonce and the tag
unfoldable pub encrypt_chunk : Aead → Bytes → Bytes → Bytes → Option (Bytes × Bytes × Bytes)
encrypt_chunk aead nonce plain key =
    if not (nat_beq (length key) 32)
    then none
    else (let sealed = aead.encrypt key nonce plain in
        let cut = length sealed - tag_len in some (take cut sealed, nonce, drop cut sealed))

unfoldable pub decrypt_chunk : Aead → Bytes → Bytes → Bytes → Bytes → Option Bytes
decrypt_chunk aead ciphertext nonce tag key =
    if not (nat_beq (length key) 32)
    then none
    else if not (nat_beq (length nonce) nonce_len)
    then none
    else if not (nat_beq (length tag) tag_len)
    then none
    else aead.decrypt key nonce (ciphertext ++ tag)

-- `hashlib.sha256(data).hexdigest()`
abbrev chunk_checksum : (Bytes → Bytes) → Bytes → Bytes
chunk_checksum sha256_hex plain = sha256_hex plain
