-- ===== src/Client/CallHandler.antt =====
-- client/handlers/call.py: calls, up to the packets that arrive. There is no factory for audio
-- streams.
pub mod Incoming
pub mod Keys
pub mod Tests
pub mod Lifecycle
use chat_terminal.Common.{
  ℕ, suc, ◌-◌, String, Bool, true, false, not, Option, none, some, List, [], ◌∷◌, ◌++◌, string_eq,
  ◌==◌, nat_beq, where_rows, if◌then◌else◌,
}
use chat_terminal.Common.Dict.{lookup}
use chat_terminal.Common.Exec.{ok, pure, raise, gets, or_raise, modify, ◌>>=◌, ◌>>◌, skip}
use chat_terminal.Shared.Protocol.{
  Json, null, bool, text, num, Packet, call_invite, call_accept, call_decline, call_end, call_relay,
  truthy, msg_type,
}
use chat_terminal.Shared.Text.{is_empty}
use chat_terminal.Server.Ws.Fields.{get_or_null}
use chat_terminal.Client.World.{
  no_audio, audio_fails, audio_works, World, Env, Exec, CallState, Stream, draw, emit, show,
  as_text, text_or, truthy_text, timestamp_or_now,
}
use chat_terminal.Client.FileCrypto.{Bytes}
use chat_terminal.Client.Envelope.{Suite}
use chat_terminal.Client.Db.Calls

-- b"call-key"
abbrev pub hkdf_info : Bytes
hkdf_info = b'c' ∷ b'a' ∷ b'l' ∷ b'l' ∷ b'-' ∷ b'k' ∷ b'e' ∷ b'y' ∷ []

-- `_derive_call_key` of the peer's key in base64; `none` stands for an exception.
unfoldable pub derive_call_key : Suite → (String → Bytes) → Bytes → String → String → Option Bytes
derive_call_key suite utf8 my_private peer_public_b64 session_id =
    elim (suite.b64decode peer_public_b64) [
      | none ↦ none
      | some peer_public ↦ elim (suite.exchange my_private peer_public) [
        | none ↦ none
        | some shared ↦ some (suite.hkdf (utf8 session_id) hkdf_info shared)
      ]
    ]

abbrev pub set_call : (CallState → CallState) → Exec (Unit {0})
set_call f = modify (λ w. record w { call = f w.call })

abbrev pub public_b64 : Env → Bytes → String
public_b64 env private = env.suite.b64encode (env.suite.public_key private)

-- A call goes on with this session.
abbrev engage : Env → String → ℕ → CallState → CallState
engage env session_id port c = record c {
  active_session = some session_id;
  call_start_ts = env.now;
  local_port = port;
}

unfoldable pub invite : Env → String → Exec String
unfolding draw emit Calls.save_call
invite env to_user = do
  session_id ← draw env.uuid
  private ← draw env.ephemeral
  set_call (λ c. record c { ephemeral_private = some private })
  port ← draw env.free_port
  emit env call_invite (
      ("session_id", text session_id)
      ∷ ("from", text env.me)
      ∷ ("to", text to_user)
      ∷ ("local_port", num port)
      ∷ ("timestamp", num env.now)
      ∷ ("ephemeral_pubkey", text (public_b64 env private))
      ∷ [])
  set_call (engage env session_id port)
  modify (λ w. record w {
    calls = Calls.save_call session_id env.me to_user env.now "ringing" w.calls;
  })
  pure session_id

abbrev start_with : Bool → Bytes → ℕ → CallState → CallState
start_with starts key number c =
    if starts
    then record c {
      call_key = some key;
      audio_stream = some (record { number = number; key = key; muted = false; fed = [] });
      running = number ∷ c.running;
    }
    else record c { call_key = some key; audio_stream = none }

-- Without a key, a random one is drawn.
abbrev start_keyed : Env → Bool → Exec (Unit {0})
start_keyed env starts = do
  known ← gets (λ w. w.call.call_key)
  key ← elim known as (λ _. Exec Bytes) [ none ↦ draw env.random_key | some k ↦ pure k ]
  number ← draw (λ n. n)
  set_call (start_with starts key number)

-- `_start_audio_stream`: no key is drawn when the module cannot be imported. The new stream is not muted,
-- and the stream that was there is not stopped.
unfoldable pub start_audio_stream : Env → Exec (Unit {0})
unfolding draw
start_audio_stream env = elim env.audio [
  | no_audio ↦ set_call (λ c. record c { audio_stream = none })
  | audio_fails ↦ start_keyed env false
  | audio_works ↦ start_keyed env true
]

-- `_stop_audio_stream`
unfoldable pub stop_audio_stream : CallState → CallState
stop_audio_stream c = elim c.audio_stream [
  | none ↦ c
  | some stream ↦ record c {
    audio_stream = none;
    running = where_rows (λ n. not (nat_beq n stream.number)) c.running;
  }
]

-- The new key of `accept`, which is left as it was when there is no key of the caller or it is no good
abbrev keyed : Option Bytes → Bytes → CallState → CallState
keyed none private c = c
keyed (some key) private c = record c { call_key = some key; ephemeral_private = some private }

-- `if caller_pubkey_b64:`
abbrev pub with_key : Env → Bytes → Option String → String → Option Bytes
with_key env private none session_id = none
with_key env private (some key) session_id =
    if is_empty key then none else derive_call_key env.suite env.utf8 private key session_id

unfoldable pub accept : Env → String → Option String → Exec (Unit {0})
unfolding draw emit start_audio_stream derive_call_key
accept env session_id caller_pubkey_b64 = do
  private ← draw env.ephemeral
  set_call (keyed (with_key env private caller_pubkey_b64 session_id) private)
  port ← draw env.free_port
  emit env call_accept (
      ("session_id", text session_id)
      ∷ ("from", text env.me)
      ∷ ("local_port", num port)
      ∷ ("timestamp", num env.now)
      ∷ ("ephemeral_pubkey", text (public_b64 env private))
      ∷ [])
  set_call (engage env session_id port)
  start_audio_stream env

unfoldable pub decline : Env → String → Exec (Unit {0})
unfolding emit
decline env session_id =
    emit env call_decline
      (("session_id", text session_id) ∷ ("from", text env.me) ∷ ("timestamp", num env.now) ∷ [])

-- `max(0, ended_at - start) if start else 0`
abbrev pub duration : Env → CallState → ℕ
duration env c = if nat_beq c.call_start_ts 0 then 0 else env.now - c.call_start_ts

abbrev hang_up : CallState → CallState
hang_up c = record c {
  active_session = none;
  call_start_ts = 0;
  call_key = none;
  ephemeral_private = none;
}

abbrev ended : Env → String → ℕ → Exec (Unit {0})
ended env session_id length =
    modify
      (λ w. record w { calls = Calls.end_call session_id env.now length "completed" true w.calls })

-- `end`
unfoldable pub end : Env → String → Exec (Unit {0})
unfolding stop_audio_stream emit Calls.end_call
end env session_id = do
  set_call stop_audio_stream
  length ← gets (λ w. duration env w.call)
  emit env call_end
      (("session_id", text session_id) ∷ ("from", text env.me) ∷ ("timestamp", num env.now) ∷ [])
  ended env session_id length
  set_call hang_up

abbrev muted_stream : Bool → Option Stream → Option Stream
muted_stream muted none = none
muted_stream muted (some s) = some (record s { muted = muted })

unfoldable pub mute : Bool → CallState → CallState
mute muted c = record c { muted = muted; audio_stream = muted_stream muted c.audio_stream }

unfoldable pub push_to_talk : Bool → CallState → CallState
unfolding mute
push_to_talk enabled c = mute enabled (record c { ptt_enabled = enabled })

unfoldable pub set_talking : Bool → CallState → CallState
unfolding mute
set_talking talking c = if c.ptt_enabled then mute (not talking) c else c
