-- ===== src/Client/CallHandler/Incoming.antt =====
-- client/handlers/call.py: the packets that arrive. The application's callbacks are set.
use chat_terminal.Common.{
  ℕ, String, Bool, false, Option, none, some, [], ◌∷◌, ◌++◌, string_eq, ◌==◌, if◌then◌else◌,
}
use chat_terminal.Common.Exec.{pure, raise, gets, or_raise, modify, ◌>>=◌, ◌>>◌, skip}
use chat_terminal.Shared.Protocol.{
  Json, bool, text, num, Packet, call_invite, call_accept, call_decline, call_end, call_relay,
  truthy, msg_type,
}
use chat_terminal.Shared.Text.{is_empty}
use chat_terminal.Server.Ws.Fields.{get_or_null}
use chat_terminal.Client.World.{
  Env, Exec, CallState, Stream, draw, show, text_or, truthy_text, timestamp_or_now,
}
use chat_terminal.Client.FileCrypto.{Bytes}
use chat_terminal.Client.Db.Calls
use chat_terminal.Client.CallHandler.{
  derive_call_key, set_call, start_audio_stream, stop_audio_stream, with_key, duration, hang_up,
  ended,
}

-- `int(a or b or 0)`
unfoldable pub port_of : Env → Json → Json → Exec ℕ
unfolding truthy
port_of env a b =
    let chosen = if truthy a then a else if truthy b then b else num 0 in
    elim chosen [
      | num n ↦ pure n
      | bool b ↦ pure (if b then 1 else 0)
      | text s ↦ or_raise (env.int_of s)
      | _ ↦ raise
    ]

-- `self._peer_ip = pkt.get(k) or "127.0.0.1"`, and the port, which may raise
unfoldable pub set_peer : Env → String → String → Packet → Exec (Unit {0})
unfolding truthy_text port_of get_or_null
set_peer env ip_field port_field pkt = do
  ip ← truthy_text ip_field pkt
  set_call (λ c. record c { peer_ip = elim ip [ none ↦ "127.0.0.1" | some a ↦ a ] })
  port ← port_of env (get_or_null port_field pkt) (get_or_null "local_port" pkt)
  set_call (λ c. record c { peer_port = port })

unfoldable pub handle_invite : Env → Packet → Exec (Unit {0})
unfolding text_or draw timestamp_or_now set_peer Calls.save_call show
handle_invite env pkt = do
  caller ← text_or "" "from" pkt
  fresh ← draw env.uuid
  session_id ← text_or fresh "session_id" pkt
  ts ← timestamp_or_now env pkt
  set_peer env "caller_ip" "caller_udp_port" pkt
  modify (λ w. record w { calls = Calls.save_call session_id caller env.me ts "ringing" w.calls })
  show (
      ("session_id", text session_id)
      ∷ ("caller", text caller)
      ∷ ("ephemeral_pubkey", get_or_null "ephemeral_pubkey" pkt)
      ∷ [])

-- Another value than a text fails to decode, which is caught.
abbrev pub text_option : Json → Option String
text_option (text s) = some s
text_option _ = none

-- The caller's key, once the callee's is known
abbrev accepted_key : Env → Option String → String → CallState → CallState
accepted_key env callee_pub session_id c = elim c.ephemeral_private [
  | none ↦ c
  | some private ↦ elim (with_key env private callee_pub session_id) [
    | none ↦ c
    | some key ↦ record c { call_key = some key }
  ]
]

unfoldable pub handle_accept : Env → Packet → Exec (Unit {0})
unfolding text_or get_or_null set_peer start_audio_stream derive_call_key
handle_accept env pkt = do
  session_id ← text_or "" "session_id" pkt
  set_peer env "callee_ip" "callee_udp_port" pkt
  set_call (accepted_key env (text_option (get_or_null "ephemeral_pubkey" pkt)) session_id)
  start_audio_stream env

abbrev pub is_active : String → CallState → Bool
is_active session_id c = elim c.active_session [ none ↦ false | some s ↦ s == session_id ]

abbrev call_over : String → String → Packet
call_over session_id reason = ("session_id", text session_id) ∷ ("reason", text reason) ∷ []

unfoldable pub handle_decline : Env → Packet → Exec (Unit {0})
unfolding text_or Calls.end_call show
handle_decline env pkt = do
  session_id ← text_or "" "session_id" pkt
  modify (λ w. record w { calls = Calls.end_call session_id env.now 0 "declined" false w.calls })
  set_call (λ c.
      if is_active session_id c
      then record c { active_session = none; call_key = none; ephemeral_private = none }
      else c)
  show (call_over session_id "declined")

unfoldable pub handle_end : Env → Packet → Exec (Unit {0})
unfolding text_or stop_audio_stream Calls.end_call show
handle_end env pkt = do
  session_id ← text_or "" "session_id" pkt
  length ← gets (λ w. duration env w.call)
  set_call stop_audio_stream
  ended env session_id length
  set_call (λ c. if is_active session_id c then hang_up c else c)
  show (call_over session_id "ended")

abbrev feed : Bytes → Stream → Stream
feed payload s = record s { fed = s.fed ++ payload ∷ [] }

-- `_handle_relay`: what cannot be decoded is dropped.
unfoldable pub handle_relay : Env → Packet → CallState → CallState
handle_relay env pkt c = elim c.audio_stream [
  | none ↦ c
  | some stream ↦ elim (get_or_null "data" pkt) [
    | text s ↦ elim (env.suite.b64decode s) [
      | none ↦ c
      | some payload ↦
          if is_empty s then c else record c { audio_stream = some (feed payload stream) }
    ]
    | _ ↦ c
  ]
]

-- `handle_incoming`
unfoldable pub handle_incoming : Env → Packet → Exec (Unit {0})
unfolding handle_invite handle_accept handle_decline handle_end handle_relay
handle_incoming env pkt = elim (msg_type pkt) [
  | some call_invite ↦ handle_invite env pkt
  | some call_accept ↦ handle_accept env pkt
  | some call_decline ↦ handle_decline env pkt
  | some call_end ↦ handle_end env pkt
  | some call_relay ↦ set_call (handle_relay env pkt)
  | _ ↦ skip
]
