-- ===== src/Client/AudioStream.antt =====
-- client/audio/stream.py: the frames of a call. Audio devices, sockets and tasks are left out: a
-- stream is what it counts and buffers, the packets that it sends, and the sound that it plays.
pub mod Frames
pub mod Tests
pub mod Drain
use chat_terminal.Common.{
  ℕ, zero, suc, ◌+◌, ◌%◌, ◌^◌, String, Bool, true, false, Option, none, some, List, [], ◌∷◌, ◌++◌,
  ltb, length, take, drop, if◌then◌else◌,
}
use chat_terminal.Shared.Protocol.{text, Packet}
use chat_terminal.Client.FileCrypto.{Bytes, Aead}
use chat_terminal.Client.AudioCrypto.{encrypt_packet, decrypt_packet, little_endian}
use chat_terminal.Client.AudioCrypto.Nonces.{from_little_endian}
use chat_terminal.Client.AudioCodec
use chat_terminal.Client.AudioCodec.{AudioCodec}
use chat_terminal.Client.JitterBuffer
use chat_terminal.Client.JitterBuffer.{JitterBuffer}

abbrev pub header_len : ℕ
header_len = 16

abbrev queue_size : ℕ
queue_size = 128

pub record AudioStream : Type 0 where
  pub call_key : Bytes
  pub codec : AudioCodec
  pub jitter : JitterBuffer
  pub send_seq : ℕ
  pub recv_queue : List Bytes
  pub relay_queue : List Bytes
  pub muted : Bool
  pub active : Bool
  -- what has been given to `play_frame`, oldest first
  pub played : List Bytes

-- `start`, once the socket and the devices are open
abbrev pub start : AudioStream → AudioStream
start s = record s { active = true; jitter = JitterBuffer.reset s.jitter; send_seq = 0 }

abbrev pub stop : AudioStream → AudioStream
stop s = record s { active = false; jitter = JitterBuffer.reset s.jitter }

abbrev mute : AudioStream → Bool → AudioStream
mute s muted = record s { muted = muted }

-- `put_nowait`: a full queue drops the item.
abbrev put_nowait : List Bytes → Bytes → List Bytes
put_nowait queue item = if ltb (length queue) queue_size then queue ++ item ∷ [] else queue

abbrev feed : AudioStream → Bytes → AudioStream
feed s payload = record s { relay_queue = put_nowait s.relay_queue payload }

-- `_UDPReceiveProtocol.datagram_received`
abbrev datagram_received : AudioStream → Bytes → AudioStream
datagram_received s datagram = record s { recv_queue = put_nowait s.recv_queue datagram }

-- `_send_frame` up to the transport: the payload. An exception of the cipher ends it before the
-- counter moves.
unfoldable pub send_frame : Aead → AudioStream → Bytes → AudioStream × Option Bytes
send_frame aead s pcm =
    elim (encrypt_packet aead (AudioCodec.encode s.codec pcm) s.call_key s.send_seq) [
      | none ↦ (s, none)
      | some (nonce, sealed) ↦ (
        record s { send_seq = (s.send_seq + 1) % 2 ^ 32 },
        some (little_endian 4 (s.send_seq % 2 ^ 32) ++ (nonce ++ sealed)),
      )
    ]

-- `_capture_callback`
unfoldable pub capture : Aead → AudioStream → Bytes → AudioStream × Option Bytes
unfolding send_frame
capture aead s pcm = if s.muted then (s, none) else send_frame aead s pcm

-- The object that relay mode sends, before `json.dumps`
abbrev relay_packet : (Bytes → String) → String → Bytes → Packet
relay_packet b64encode session_id payload =
    ("type", text "CALL_RELAY")
    ∷ ("session_id", text session_id)
    ∷ ("data", text (b64encode payload))
    ∷ []

-- The inner loop of `_recv_loop`: all frames that are in order are played. `none` means that the
-- fuel ran out.
unfoldable pub drain :
    AudioCodec → ℕ → JitterBuffer → List Bytes → Option (JitterBuffer × List Bytes)
drain codec zero jitter played = none
drain codec (suc fuel) jitter played =
    let (jitter', popped) = JitterBuffer.pop jitter in
    elim popped [
      | none ↦ some (jitter', played)
      | some frame ↦ drain codec fuel jitter' (played ++ AudioCodec.decode codec frame ∷ [])
    ]

-- What is read from a payload: the sequence number and the encoded frame. A payload that is too short
-- or not authentic is dropped.
unfoldable pub read_payload : Aead → Bytes → Bytes → Option (ℕ × Bytes)
read_payload aead call_key payload =
    if ltb (length payload) header_len
    then none
    else (let seq = from_little_endian (take 4 payload) in
        let nonce = take 12 (drop 4 payload) in
        elim (decrypt_packet aead (drop header_len payload) nonce call_key) [
          | none ↦ none
          | some encoded ↦ some (seq, encoded)
        ])

-- One round of `_recv_loop`
unfoldable pub recv_payload : Aead → AudioStream → Bytes → Option AudioStream
unfolding read_payload drain
recv_payload aead s payload = elim (read_payload aead s.call_key payload) [
  | none ↦ some s
  | some (seq, encoded) ↦
      let jitter = JitterBuffer.push s.jitter seq encoded in
      elim (drain s.codec (suc (length jitter.buffer)) jitter s.played) [
        | none ↦ none
        | some (jitter', played) ↦ some (record s { jitter = jitter'; played = played })
      ]
]
