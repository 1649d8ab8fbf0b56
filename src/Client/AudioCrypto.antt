-- ===== src/Client/AudioCrypto.antt =====
-- client/crypto/audio_crypto.py: the encryption of audio packets. `none` stands for the ValueError.
pub mod Nonces
use chat_terminal.Common.{
  ℕ, zero, suc, ◌+◌, ◌/◌, ◌%◌, ◌^◌, String, not, Option, none, some, List, [], ◌∷◌, ◌++◌, nat_beq,
  length, if◌then◌else◌,
}
use chat_terminal.Client.FileCrypto.{Bytes, Aead, nonce_len}

-- The lowest `k` bytes of a number, the lowest first, as `struct.pack("<…", n)` writes them
unfoldable pub little_endian : ℕ → ℕ → Bytes
little_endian zero n = []
little_endian (suc k) n = (n % 256) ∷ little_endian k (n / 256)

-- `_seq_to_nonce`: `struct.pack("<Q", seq & 0xFFFFFFFFFFFFFFFF)` and four zero bytes
unfoldable pub seq_to_nonce : ℕ → Bytes
unfolding little_endian
seq_to_nonce seq = little_endian 8 (seq % 2 ^ 64) ++ 0 ∷ 0 ∷ 0 ∷ 0 ∷ []

-- `encrypt_packet`: the nonce, and the ciphertext with its tag
unfoldable pub encrypt_packet : Aead → Bytes → Bytes → ℕ → Option (Bytes × Bytes)
unfolding seq_to_nonce
encrypt_packet aead opus_frame key seq =
    if not (nat_beq (length key) 32)
    then none
    else (let nonce = seq_to_nonce seq in some (nonce, aead.encrypt key nonce opus_frame))

unfoldable pub decrypt_packet : Aead → Bytes → Bytes → Bytes → Option Bytes
decrypt_packet aead sealed nonce key =
    if not (nat_beq (length key) 32)
    then none
    else if not (nat_beq (length nonce) nonce_len)
    then none
    else aead.decrypt key nonce sealed

-- `HKDF(SHA256(), 32, salt, info).derive(secret)`
abbrev pub Hkdf : Type 0
Hkdf = Bytes → Bytes → Bytes → Bytes

-- b"audio-key"
abbrev pub audio_info : Bytes
audio_info = b'a' ∷ b'u' ∷ b'd' ∷ b'i' ∷ b'o' ∷ b'-' ∷ b'k' ∷ b'e' ∷ b'y' ∷ []

-- `derive_call_key`, with the codec of `session_id.encode("utf-8")`
abbrev derive_call_key : Hkdf → (String → Bytes) → Bytes → String → Bytes
derive_call_key hkdf utf8 shared_secret session_id = hkdf (utf8 session_id) audio_info shared_secret
