-- ===== src/Server/Ws.antt =====
-- server/ws_server.py: `handle`. One round of its loop is `on_raw`; `serve` is the loop with its
-- `finally`.
pub mod Tests
pub mod Fields
pub mod Login
pub mod Messages
pub mod Transfers
pub mod Chats
pub mod Gate
pub mod Delivery
pub mod Forwarding
pub mod Presence
use chat_terminal.Common.{
  ℕ, String, Bool, true, false, not, Option, none, some, List, [], ◌∷◌, string_eq, if◌then◌else◌,
}
use chat_terminal.Shared.Protocol.{
  Json, obj, text, Packet, MsgType, auth_register, auth_login, auth_logout, key_request, message,
  message_edit, message_delete, read, file_init, file_ack, file_done, file_cancel, call_invite,
  call_accept, call_decline, call_end, call_relay, room_create, room_join, room_leave, room_members,
  room_message, typing, sync_request, status, online_list, ping, pong, error, msg_type, texts,
}
use chat_terminal.Shared.Text.{is_empty}
use chat_terminal.Server.World.{World, Env, Ws}
use chat_terminal.Server.Exec.{
  Outcome, ok, raised, Exec, ◌>>=◌, ◌>>◌, pure, raise, gets, modify, skip, reply,
}
use chat_terminal.Server.RateLimiter
use chat_terminal.Server.Router
use Fields.{to_packet}
use Login.{on_register, on_login, on_logout, broadcast_status}
use Messages.{on_message, on_message_edit, on_message_delete, on_read, on_typing, on_sync}
use Transfers.{
  on_key_request, on_file_init, on_file_event, on_call_invite, on_call_accept, on_call_decline,
  on_call_end, on_call_relay,
}
use Chats.{on_room_create, on_room_join, on_room_leave, on_room_members, on_room_message}

-- A connection: its socket, and the remote address if there is one.
pub record Conn : Type 0 where
  pub ws : Ws
  pub remote : Option String

-- After a packet the loop goes on, with its local `username`, or breaks.
pub data Flow : Type 0 where
  next : Option String → Flow
  stop : Flow

-- The branches below "Require auth": the connection's user is `username`.
unfoldable pub on_authed : Env → Conn → String → MsgType → Packet → Exec (Unit {0})
unfolding reply
on_authed env c username key_request pkt = on_key_request env c.ws pkt
on_authed env c username message pkt = on_message env c.ws username pkt
on_authed env c username message_edit pkt = on_message_edit env c.ws username pkt
on_authed env c username message_delete pkt = on_message_delete env c.ws username pkt
on_authed env c username read pkt = on_read env username pkt
on_authed env c username file_init pkt = on_file_init env c.ws username pkt
on_authed env c username file_ack pkt = on_file_event env username file_ack pkt
on_authed env c username file_done pkt = on_file_event env username file_done pkt
on_authed env c username file_cancel pkt = on_file_event env username file_cancel pkt
on_authed env c username call_invite pkt = on_call_invite env c.ws c.remote username pkt
on_authed env c username call_accept pkt = on_call_accept env c.remote pkt
on_authed env c username call_decline pkt = on_call_decline env pkt
on_authed env c username call_end pkt = on_call_end env username pkt
on_authed env c username call_relay pkt = on_call_relay env username pkt
on_authed env c username room_create pkt = on_room_create env c.ws username pkt
on_authed env c username room_join pkt = on_room_join env c.ws username pkt
on_authed env c username room_leave pkt = on_room_leave env c.ws username pkt
on_authed env c username room_members pkt = on_room_members env c.ws pkt
on_authed env c username room_message pkt = on_room_message env c.ws username pkt
on_authed env c username typing pkt = on_typing env username pkt
on_authed env c username sync_request pkt = on_sync env c.ws username pkt
on_authed env c username status pkt = do
  users ← gets Router.online_users
  reply env c.ws online_list (("users", texts users) ∷ [])
on_authed env c username ping pkt = reply env c.ws pong []
on_authed env c username _ pkt = skip

unfoldable pub unauthorized : Env → Conn → Exec Flow
unfolding reply
unauthorized env c = do reply env c.ws error (("error", text "UNAUTHORIZED") ∷ []); pure (next none)

-- `elif username is None: … ` and the branches after it
unfoldable pub require_auth : Env → Conn → Option String → Option MsgType → Packet → Exec Flow
unfolding unauthorized
require_auth env c none t pkt = unauthorized env c
require_auth env c (some username) none pkt = pure (next (some username))
require_auth env c (some username) (some t) pkt = do
  on_authed env c username t pkt
  pure (next (some username))

-- The dispatch on `ptype`
unfoldable pub dispatch : Env → Conn → Option String → Option MsgType → Packet → Exec Flow
unfolding require_auth
dispatch env c user (some auth_register) pkt = do
  user' ← on_register env c.ws user pkt
  pure (next user')
dispatch env c user (some auth_login) pkt = do user' ← on_login env c.ws user pkt; pure (next user')
dispatch env c user (some auth_logout) pkt = do on_logout pkt; pure stop
dispatch env c user t pkt = require_auth env c user t pkt

-- `parse_packet`, and `pkt.get("type")`, which raises on what is no object
unfoldable pub on_json : Env → Conn → Option String → Option Json → Exec Flow
unfolding dispatch reply to_packet msg_type
on_json env c user none = do
  reply env c.ws error (("error", text "INVALID_PACKET") ∷ [])
  pure (next user)
on_json env c user (some (obj fs)) = dispatch env c user (msg_type (to_packet fs)) (to_packet fs)
on_json env c user (some _) = raise

unfoldable pub peer : Conn → String
peer c = elim c.remote [ none ↦ "unknown" | some ip ↦ ip ]

-- `username or peer`
unfoldable pub rate_key : Conn → Option String → String
unfolding peer
rate_key c user = elim user [ none ↦ peer c | some u ↦ if is_empty u then peer c else u ]

unfoldable pub allow : Env → String → Exec Bool
allow env key w =
    let (limiter, allowed) = RateLimiter.allow w.limiter key env.clock in
    (ok allowed, record w { limiter = limiter })

-- One round of `async for raw in ws`
unfoldable pub on_raw : Env → Conn → Option String → String → Exec Flow
unfolding allow rate_key on_json reply
on_raw env c user raw = do
  allowed ← allow env (rate_key c user)
  if allowed
      then on_json env c user (env.loads raw)
      else do reply env c.ws error (("error", text "RATE_LIMITED") ∷ []); pure (next user)

unfoldable pub reset : String → World → World
reset key w = record w { limiter = RateLimiter.reset w.limiter key }

-- `finally`
unfoldable pub finish : Env → Conn → Option String → Exec (Unit {0})
unfolding reset peer Router.unregister
finish env c none = modify (reset (peer c))
finish env c (some username) = if is_empty username then modify (reset (peer c)) else do
  modify (Router.unregister username)
  modify (reset username)
  broadcast_status env username "offline"
  modify (reset (peer c))

-- The connection's life: each packet comes with the environment in which it is handled. It ends
-- when the peer has closed, after a logout, and at an exception.
unfoldable serve : Env → Conn → Option String → List (Env × String) → World → World
serve last c user [] w = (finish last c user w).1
serve last c user ((env, raw) ∷ rest) w =
    let (r, w') = on_raw env c user raw w in
    elim r [
      | raised ↦ (finish last c user w').1
      | ok flow ↦ elim flow [
        | stop ↦ (finish last c user w').1
        | next user' ↦ serve last c user' rest w'
      ]
    ]
