-- ===== src/Client/AudioStream/Tests.antt =====
-- Witnesses of the audio stream.
use chat_terminal.Common.{
  ℕ, ◌+◌, ◌-◌, ◌^◌, ◌≡◌, refl, arith, nat_beq, false, true, none, some, [], ◌∷◌, if◌then◌else◌,
}
use chat_terminal.Client.FileCrypto.{Bytes}
use chat_terminal.Client.AudioCodec
use chat_terminal.Client.AudioCodec.{AudioCodec}
use chat_terminal.Client.AudioStream.{AudioStream, start, send_frame, read_payload}
use chat_terminal.Client.Envelope.{Suite}
use chat_terminal.Client.Envelope.RoundTrip.{GoodSuite}
use chat_terminal.Client.CallHandler.{derive_call_key}
use chat_terminal.Client.Fixtures.{suite, suite-GoodSuite}
use chat_terminal.Client.AudioStream.Frames.{nonces, read_payload-send_frame, nonces_shared}
use chat_terminal.Client.Samples.{zeros, plain_aead, plain-GoodAead, tally}

-- A stream without Opus that has sent `n` frames
abbrev stream : ℕ → AudioStream
stream n = record {
  call_key = zeros 32;
  codec = record { sample_rate = 16000; channels = 1; frame_duration_ms = 20; opus = none };
  jitter = record { max_size = 8; buffer = []; next_seq = 0; initialised = false; popped = false };
  send_seq = n;
  recv_queue = [];
  relay_queue = [];
  muted = false;
  active = true;
  played = [];
}

read_payload-send_frame_example :
    (payload : Bytes) × (send_frame plain_aead (stream 258) (7 ∷ []) ≡ (
      record (stream 258) { send_seq = if nat_beq 258 (2 ^ 32 - 1) then 0 else 258 + 1 },
      some payload,
    ))
    × (read_payload plain_aead (zeros 32) payload
        ≡ some (258, AudioCodec.encode (stream 258).codec (7 ∷ [])))
read_payload-send_frame_example =
    read_payload-send_frame plain_aead (stream 258) (7 ∷ []) plain-GoodAead refl (omega arith)

-- A suite whose keys for calls have 32 bytes
abbrev call_suite : Suite
call_suite = record suite { hkdf = λ salt info secret. zeros 32 }

call_suite-GoodSuite : GoodSuite call_suite
call_suite-GoodSuite = record {
  good_aead = suite-GoodSuite.good_aead;
  b64 = suite-GoodSuite.b64;
  agree = suite-GoodSuite.agree;
}

derived_alice : derive_call_key call_suite (λ s. []) (4 ∷ []) (tally (9 ∷ [])) "s" ≡ some (zeros 32)
unfolding derive_call_key
derived_alice = refl

derived_bob : derive_call_key call_suite (λ s. []) (9 ∷ []) (tally (4 ∷ [])) "s" ≡ some (zeros 32)
unfolding derive_call_key
derived_bob = refl

-- The one stream has sent frames before it starts, and the other has not.
nonces_shared_example :
    ((start (stream 0)).call_key ≡ (start (stream 7)).call_key)
    × (nonces plain_aead (start (stream 0)) ((1 ∷ []) ∷ (2 ∷ []) ∷ [])
        ≡ nonces plain_aead (start (stream 7)) ((3 ∷ []) ∷ (4 ∷ []) ∷ []))
nonces_shared_example =
    nonces_shared plain_aead call_suite (λ s. []) "s" (4 ∷ []) (9 ∷ []) (13 ∷ []) (stream 0)
      (stream 7) ((1 ∷ []) ∷ (2 ∷ []) ∷ []) ((3 ∷ []) ∷ (4 ∷ []) ∷ []) call_suite-GoodSuite refl
      derived_alice derived_bob refl refl
