-- ===== src/Client/AudioCodec.antt =====
-- client/audio/codec.py: Opus, or raw PCM. The library is a parameter: an encoder and a decoder that
-- may raise. Their inner state is left out.
use chat_terminal.Common.{ℕ, ◌*◌, ◌/◌, Bool, true, false, Option, none, some}
use chat_terminal.Client.FileCrypto.{Bytes}

pub record Opus : Type 0 where
  pub encoder : Bytes → ℕ → Option Bytes
  pub decoder : Bytes → ℕ → Option Bytes

pub record AudioCodec : Type 0 where
  pub sample_rate : ℕ
  pub channels : ℕ
  pub frame_duration_ms : ℕ
  -- `_encoder` and `_decoder`, which are set together
  pub opus : Option Opus

-- `__init__`: `library` makes the two objects, or raises; it is absent without opuslib.
unfoldable pub init : Option (ℕ → ℕ → Option Opus) → ℕ → ℕ → ℕ → AudioCodec
init library sample_rate channels frame_duration_ms = record {
  sample_rate = sample_rate;
  channels = channels;
  frame_duration_ms = frame_duration_ms;
  opus = elim library [ none ↦ none | some make ↦ make sample_rate channels ];
}

abbrev pub frame_size : AudioCodec → ℕ
frame_size c = c.sample_rate * c.frame_duration_ms / 1000

abbrev using_opus : AudioCodec → Bool
using_opus c = elim c.opus [ none ↦ false | some _ ↦ true ]

unfoldable pub encode : AudioCodec → Bytes → Bytes
encode c pcm = elim c.opus [
  | none ↦ pcm
  | some o ↦ elim (o.encoder pcm (frame_size c)) [ none ↦ pcm | some encoded ↦ encoded ]
]

unfoldable pub decode : AudioCodec → Bytes → Bytes
decode c encoded = elim c.opus [
  | none ↦ encoded
  | some o ↦ elim (o.decoder encoded (frame_size c)) [ none ↦ encoded | some pcm ↦ pcm ]
]
