-- ===== src/Server/Ws/Messages.antt =====
-- server/ws_server.py: direct messages, edits, deletions, read receipts, typing and sync.
use chat_terminal.Common.{ℕ, String, Option, none, some, [], ◌∷◌, string_eq}
use chat_terminal.Shared.Protocol.{Json, text, num, Packet, delivery, sync_response, texts}
use chat_terminal.Shared.Text.{str_append}
use chat_terminal.Server.World.{Env, Ws}
use chat_terminal.Server.Exec.{Exec, ◌>>=◌, ◌>>◌, pure, raise, gets, skip, try_else, send, reply}
use chat_terminal.Server.Router
use chat_terminal.Server.Offline
use chat_terminal.Server.Rooms
use chat_terminal.Server.Ws.Fields.{
  get_or_null, get_default, need, as_text, truthy_text, formatted, stamp,
}

-- Sends to a user who is online, and queues the packet if that fails or the user is away. Returns
-- the status. `key` is evaluated where the packet is queued.
unfoldable pub deliver : Env → Exec String → String → String → Exec String
unfolding send Router.get Offline.enqueue
deliver env key to_user raw = do
  ws ← gets (Router.get to_user)
  let queue : Exec String = (do id ← key; Offline.enqueue env id to_user raw; pure "queued")
  elim ws [ some target ↦ try_else (do send env target raw; pure "delivered") queue | none ↦ queue ]

unfoldable pub on_message : Env → Ws → String → Packet → Exec (Unit {0})
unfolding deliver need as_text truthy_text get_or_null stamp reply
on_message env ws username pkt = do
  to_user ← truthy_text (get_or_null "to" pkt)
  elim to_user [
    | none ↦ skip
    | some target ↦ do
      let stamped = stamp username pkt
      status ← deliver env (do v ← need "id" stamped; as_text v) target (env.dumps stamped)
      id ← need "id" stamped
      reply env ws delivery (("msg_id", id) ∷ ("status", text status) ∷ [])
  ]

-- An edit or a deletion for one user. A send that fails raises.
unfoldable pub relay_change : Env → Packet → String → String → Exec (Unit {0})
unfolding send Router.get Offline.enqueue formatted get_or_null
relay_change env pkt target suffix = do
  ws ← gets (Router.get target)
  elim ws [
    | some target_ws ↦ send env target_ws (env.dumps pkt)
    | none ↦ do
      msg_id ← formatted (get_or_null "msg_id" pkt)
      Offline.enqueue env (str_append msg_id (str_append ":" (str_append target suffix))) target
          (env.dumps pkt)
  ]

route_change : Env → String → Packet → String → Option String → Option String → Exec (Unit {0})
route_change env username pkt suffix (some room_id) target =
    Rooms.route_room_message env room_id pkt username
route_change env username pkt suffix none (some target) = relay_change env pkt target suffix
route_change env username pkt suffix none none = skip

-- MESSAGE_EDIT and MESSAGE_DELETE differ in the suffix of the queue's key and in the status.
unfoldable pub on_change : Env → Ws → String → Packet → String → String → Exec (Unit {0})
unfolding route_change truthy_text get_or_null stamp reply
on_change env ws username pkt suffix state = do
  target ← truthy_text (get_or_null "to" pkt)
  room_id ← truthy_text (get_or_null "room_id" pkt)
  route_change env username (stamp username pkt) suffix room_id target
  reply env ws delivery (("msg_id", get_or_null "msg_id" pkt) ∷ ("status", text state) ∷ [])

unfoldable pub on_message_edit : Env → Ws → String → Packet → Exec (Unit {0})
unfolding on_change
on_message_edit env ws username pkt = on_change env ws username pkt ":edit" "edited"

unfoldable pub on_message_delete : Env → Ws → String → Packet → Exec (Unit {0})
unfolding on_change
on_message_delete env ws username pkt = on_change env ws username pkt ":delete" "deleted"

-- A packet that is lost if it cannot be sent at once
unfoldable pub send_if_online : Env → String → String → Exec (Unit {0})
unfolding send Router.get
send_if_online env to_user raw = do
  ws ← gets (Router.get to_user)
  elim ws [ none ↦ skip | some target ↦ try_else (send env target raw) skip ]

unfoldable pub on_read : Env → String → Packet → Exec (Unit {0})
unfolding send_if_online truthy_text get_or_null stamp
on_read env username pkt = do
  to_user ← truthy_text (get_or_null "to" pkt)
  elim to_user [
    | none ↦ skip
    | some target ↦ send_if_online env target (env.dumps (stamp username pkt))
  ]

typing_to : Env → String → Packet → Option String → Option String → Exec (Unit {0})
typing_to env username pkt (some room_id) to_user =
    Rooms.route_room_message env room_id (stamp username pkt) username
typing_to env username pkt none (some target) =
    send_if_online env target (env.dumps (stamp username pkt))
typing_to env username pkt none none = skip

unfoldable pub on_typing : Env → String → Packet → Exec (Unit {0})
unfolding typing_to truthy_text get_or_null
on_typing env username pkt = do
  to_user ← truthy_text (get_or_null "to" pkt)
  room_id ← truthy_text (get_or_null "room_id" pkt)
  typing_to env username pkt room_id to_user

unfoldable pub as_number : Json → Exec ℕ
as_number (num n) = pure n
as_number _ = raise

-- `since` is a number.
unfoldable pub on_sync : Env → Ws → String → Packet → Exec (Unit {0})
unfolding as_number get_default Offline.flush Offline.clear reply
on_sync env ws username pkt = do
  since ← as_number (get_default "since" (num 0) pkt)
  queued ← Offline.flush username since
  reply env ws sync_response (("messages", texts queued) ∷ [])
  Offline.clear username
