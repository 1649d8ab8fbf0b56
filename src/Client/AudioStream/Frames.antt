-- ===== src/Client/AudioStream/Frames.antt =====
-- A frame that one stream of client/audio/stream.py sends is the frame that the other one buffers, and the nonces
-- of the two.
use chat_terminal.Common.{
  ℕ, zero, suc, ◌+◌, ◌%◌, ◌^◌, ◌<◌, ◌≡◌, nat_beq, ◌-◌, refl, sym, ap, ◌∙◌, false, Option, none,
  some, List, [], ◌∷◌, ◌++◌, arith, le→ltb, ltb, length, take, drop, String, if◌then◌else◌,
}
use chat_terminal.Client.FileCrypto.{Bytes, Aead}
use chat_terminal.Client.FileCrypto.Chunks.{GoodAead}
use chat_terminal.Client.AudioCrypto.{encrypt_packet, decrypt_packet, little_endian, seq_to_nonce}
use chat_terminal.Client.AudioCrypto.Nonces.{from_little_endian, four_bytes}
use chat_terminal.Client.AudioCodec
use chat_terminal.Client.AudioCodec.{AudioCodec}
use chat_terminal.Client.AudioStream.{AudioStream, start, send_frame, read_payload}
use chat_terminal.Client.Envelope.{Suite}
use chat_terminal.Client.Envelope.RoundTrip.{GoodSuite}
use chat_terminal.Client.CallHandler.{derive_call_key, hkdf_info}
use chat_terminal.Client.CallHandler.Keys.{derive_call_key_lem}

-- The payload of the frame with number `seq`
abbrev pub payload_of : Aead → Bytes → ℕ → Bytes → Bytes
payload_of aead key seq frame =
    little_endian 4 (seq % 2 ^ 32)
    ++ (seq_to_nonce seq ++ aead.encrypt key (seq_to_nonce seq) frame)

encrypt_packet_lem :
    (aead : Aead) (frame key : Bytes) (seq : ℕ)
    → length key ≡ 32
    → encrypt_packet aead frame key seq
      ≡ some (seq_to_nonce seq, aead.encrypt key (seq_to_nonce seq) frame)
unfolding encrypt_packet
encrypt_packet_lem aead frame key seq lk = rw lk refl

send_frame_lem :
    (aead : Aead) (s : AudioStream) (pcm : Bytes)
    → length s.call_key ≡ 32
    → send_frame aead s pcm ≡ (
      record s { send_seq = (s.send_seq + 1) % 2 ^ 32 },
      some (payload_of aead s.call_key s.send_seq (AudioCodec.encode s.codec pcm)),
    )
unfolding send_frame
send_frame_lem aead s pcm lk =
    rw
      (encrypt_packet_lem aead (AudioCodec.encode s.codec pcm) s.call_key s.send_seq lk, send_frame)
      refl

decrypt_packet_lem :
    (aead : Aead) (frame key : Bytes) (seq : ℕ)
    → GoodAead aead
    → length key ≡ 32
    → decrypt_packet aead (aead.encrypt key (seq_to_nonce seq) frame) (seq_to_nonce seq) key
      ≡ some frame
unfolding decrypt_packet seq_to_nonce
decrypt_packet_lem aead frame key seq good lk =
    rw lk (good.decrypt-encrypt key (seq_to_nonce seq) frame)

abbrev pub nonce_of : Bytes → Bytes
nonce_of payload = take 12 (drop 4 payload)

module _ (aead : Aead) (key frame : Bytes) (seq : ℕ) where
  payload-nonce : nonce_of (payload_of aead key seq frame) ≡ seq_to_nonce seq
  unfolding little_endian seq_to_nonce
  payload-nonce = refl

  payload_long :
      length (payload_of aead key seq frame)
      ≡ 16 + length (aead.encrypt key (seq_to_nonce seq) frame)
  unfolding little_endian seq_to_nonce
  payload_long = omega arith

  payload_decrypts :
      GoodAead aead
      → length key ≡ 32
      → decrypt_packet aead
          (drop 16 (payload_of aead key seq frame))
          (take 12 (drop 4 (payload_of aead key seq frame)))
          key
        ≡ some frame
  unfolding little_endian seq_to_nonce
  payload_decrypts good lk = decrypt_packet_lem aead frame key seq good lk

  payload-number : seq < 2 ^ 32 → from_little_endian (take 4 (payload_of aead key seq frame)) ≡ seq
  unfolding little_endian
  payload-number small = four_bytes (seq % 2 ^ 32) (omega arith) ∙ omega (arith, small)

  read_payload_of :
      GoodAead aead
      → length key ≡ 32
      → seq < 2 ^ 32
      → read_payload aead key (payload_of aead key seq frame) ≡ some (seq, frame)
  unfolding read_payload
  read_payload_of good lk small =
      let long : ltb (length (payload_of aead key seq frame)) 16 ≡ false =
        le→ltb (length (payload_of aead key seq frame)) 16 (omega (arith, payload_long)) in
      rw (long, payload_decrypts good lk, payload-number small) refl

-- A frame that one stream sends under a key of 32 bytes is read by the other, under the same key, as the
-- same frame with the same number; the sender's counter goes up by one, and after 2 ^ 32 - 1 to zero.
pub read_payload-send_frame :
    (aead : Aead) (s : AudioStream) (pcm : Bytes)
    → GoodAead aead
    → length s.call_key ≡ 32
    → s.send_seq < 2 ^ 32
    → (payload : Bytes) × (send_frame aead s pcm ≡ (
      record s { send_seq = if nat_beq s.send_seq (2 ^ 32 - 1) then 0 else s.send_seq + 1 },
      some payload,
    ))
      × (read_payload aead s.call_key payload ≡ some (s.send_seq, AudioCodec.encode s.codec pcm))
read_payload-send_frame aead s pcm good lk small =
    let frame = AudioCodec.encode s.codec pcm in
    let wrapped : (s.send_seq + 1) % 2 ^ 32
        ≡ (if nat_beq s.send_seq (2 ^ 32 - 1) then 0 else s.send_seq + 1) =
      ground (arith, small) in
    (
      payload_of aead s.call_key s.send_seq frame,
      send_frame_lem aead s pcm lk ∙ rw wrapped refl,
      read_payload_of aead s.call_key frame s.send_seq good lk small,
    )

abbrev pub and_nonce : Option Bytes → List Bytes → List Bytes
and_nonce none rest = rest
and_nonce (some payload) rest = nonce_of payload ∷ rest

-- The nonces of what a stream sends for the frames that it captures, in order
abbrev pub nonces : Aead → AudioStream → List Bytes → List Bytes
nonces aead s [] = []
nonces aead s (pcm ∷ pcms) =
    and_nonce (send_frame aead s pcm).1 (nonces aead (send_frame aead s pcm).0 pcms)

-- The nonces of `k` frames, from the number `n` on
abbrev numbered : ℕ → ℕ → List Bytes
numbered zero n = []
numbered (suc k) n = seq_to_nonce n ∷ numbered k ((n + 1) % 2 ^ 32)

nonces_lem :
    (aead : Aead) (s : AudioStream) (pcms : List Bytes)
    → length s.call_key ≡ 32
    → nonces aead s pcms ≡ numbered (length pcms) s.send_seq
unfolding little_endian seq_to_nonce
nonces_lem aead s [] lk = refl
nonces_lem aead s (pcm ∷ pcms) lk =
    ap (λ (r : AudioStream × Option Bytes). and_nonce r.1 (nonces aead r.0 pcms))
      (send_frame_lem aead s pcm lk)
    ∙ ap (λ rest. seq_to_nonce s.send_seq ∷ rest)
        (nonces_lem aead (record s { send_seq = (s.send_seq + 1) % 2 ^ 32 }) pcms lk)

-- The two streams of a call, which start with the keys that the two sides have derived from each other's
-- public keys, have one key, and the n-th frame of the one and the n-th frame of the other since then are
-- encrypted under the same nonce, whatever the streams had counted before. The suite is a good one, in
-- which the exchange succeeds, and its keys for calls have 32 bytes.
pub nonces_shared :
    (aead : Aead) (suite : Suite) (utf8 : String → Bytes) (session_id : String)
    (alice bob secret : Bytes) (s t : AudioStream) (pcms pcms' : List Bytes)
    → GoodSuite suite
    → suite.exchange alice (suite.public_key bob) ≡ some secret
    → derive_call_key suite utf8 alice (suite.b64encode (suite.public_key bob)) session_id
      ≡ some s.call_key
    → derive_call_key suite utf8 bob (suite.b64encode (suite.public_key alice)) session_id
      ≡ some t.call_key
    → length s.call_key ≡ 32
    → length pcms ≡ length pcms'
    → ((start s).call_key ≡ (start t).call_key)
      × (nonces aead (start s) pcms ≡ nonces aead (start t) pcms')
nonces_shared aead suite utf8 session_id alice bob secret s t pcms pcms' good shared at_s at_t lk
      n =
    let a = suite.public_key alice in
    let b = suite.public_key bob in
    let key = suite.hkdf (utf8 session_id) hkdf_info secret in
    let for_s : some s.call_key ≡ some key =
      sym at_s
      ∙ derive_call_key_lem suite utf8 alice b secret (suite.b64encode b) session_id (good.b64 b)
          shared in
    let for_t : some t.call_key ≡ some key =
      sym at_t
      ∙ derive_call_key_lem suite utf8 bob a secret (suite.b64encode a) session_id (good.b64 a)
          (good.agree bob alice ∙ shared) in
    let same : s.call_key ≡ t.call_key = cc in
    (
      same,
      nonces_lem aead (start s) pcms lk
          ∙ ap (λ k. numbered k 0) n
          ∙ sym (nonces_lem aead (start t) pcms' (ap length (sym same) ∙ lk)),
    )
