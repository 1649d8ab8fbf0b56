-- ===== src/Client/AudioCrypto/Nonces.antt =====
-- Nonces and audio packets of client/crypto/audio_crypto.py.
use chat_terminal.Common.{
  ℕ, ◌+◌, ◌*◌, ◌%◌, ◌^◌, ◌<◌, ◌≡◌, ◌↔◌, refl, sym, ap, ◌∙◌, some, [], ◌∷◌, ◌++◌, arith, length,
}
use chat_terminal.Client.FileCrypto.{Bytes, Aead}
use chat_terminal.Client.FileCrypto.Chunks.{GoodAead}
use chat_terminal.Client.AudioCrypto.{little_endian, seq_to_nonce, encrypt_packet, decrypt_packet}

-- The number that the bytes of `little_endian` write
unfoldable pub from_little_endian : Bytes → ℕ
from_little_endian [] = 0
from_little_endian (b ∷ bs) = b + 256 * from_little_endian bs

-- What is read back does not depend on what follows the bytes.
eight_bytes :
    (n : ℕ) → n < 2 ^ 64 → from_little_endian (little_endian 8 n ++ 0 ∷ 0 ∷ 0 ∷ 0 ∷ []) ≡ n
unfolding from_little_endian little_endian
eight_bytes n h = omega (arith, h)

pub four_bytes : (n : ℕ) → n < 2 ^ 32 → from_little_endian (little_endian 4 n) ≡ n
unfolding from_little_endian little_endian
four_bytes n h = omega (arith, h)

-- Two nonces are the same exactly when the packets' numbers agree in their lowest 64 bits.
pub seq_to_nonce-injective :
    (a b : ℕ) → (seq_to_nonce a ≡ seq_to_nonce b) ↔ (a % 2 ^ 64 ≡ b % 2 ^ 64)
unfolding seq_to_nonce
seq_to_nonce-injective a b = (
  λ e.
      sym (eight_bytes (a % 2 ^ 64) (omega arith))
      ∙ ap from_little_endian e
      ∙ eight_bytes (b % 2 ^ 64) (omega arith),
  λ e. ap (λ n. little_endian 8 n ++ 0 ∷ 0 ∷ 0 ∷ 0 ∷ []) e,
)

-- An audio packet is decrypted under its nonce and key to the frame.
pub decrypt_packet-encrypt_packet :
    (aead : Aead) (frame key : Bytes) (seq : ℕ)
    → GoodAead aead
    → length key ≡ 32
    → (sealed : Bytes) × (encrypt_packet aead frame key seq ≡ some (seq_to_nonce seq, sealed))
      × (decrypt_packet aead sealed (seq_to_nonce seq) key ≡ some frame)
unfolding encrypt_packet decrypt_packet
decrypt_packet-encrypt_packet aead frame key seq good lk = (
  aead.encrypt key (seq_to_nonce seq) frame,
  rw lk refl,
  rw lk (good.decrypt-encrypt key (seq_to_nonce seq) frame),
)
