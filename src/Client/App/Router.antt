-- ===== src/Client/App/Router.antt =====
-- client/app.py: what is done with a packet from the server, and with the connection's events.
use chat_terminal.Common.{
  ℕ, ◌+◌, String, Bool, true, false, not, ◌&&◌, ◌||◌, Option, none, some, List, [], ◌∷◌, string_eq,
  ◌==◌, if◌then◌else◌, where_rows,
}
use chat_terminal.Common.Exec.{raise, gets, modify, ◌>>=◌, ◌>>◌, skip}
use chat_terminal.Shared.Protocol.{Json, null, text, obj, Packet, MsgType, msg_type, truthy}
use chat_terminal.Shared.Text.{is_empty}
use chat_terminal.Shared.Words.{str_take}
use chat_terminal.Server.Ws.Fields.{to_packet, get_or_null, get_default}
use chat_terminal.Client.World.{Contact, as_text, text_or}
use chat_terminal.Client.Db.Messages.{save_room, delete_room}
use chat_terminal.Client.Db.Contacts.{set_status, store_public_key}
use chat_terminal.Client.MessageHandler as Direct
use chat_terminal.Client.RoomHandler as Room
use chat_terminal.Client.App.{
  App, Act, Host, on_world, notify, formatted, room_key, load_messages, refresh_contacts,
  request_public_key,
}
use chat_terminal.Client.App.Callbacks.{add}
use chat_terminal.Client.App.Rooms.{store_room, remove_room, close_room}
use chat_terminal.Client.App.Synced.{
  if_ready, on_message, on_room, on_file, on_call, for_field, on_sync,
}

abbrev pub set_contacts : (List Contact → List Contact) → App → App
set_contacts f a = record a { world = record a.world { contacts = f a.world.contacts } }

unfoldable pub on_status : Host → Packet → Act (Unit {0})
unfolding on_world text_or set_status refresh_contacts
on_status host pkt = do
  user ← on_world host (λ _. text_or "" "user" pkt)
  status ← on_world host (λ _. text_or "offline" "status" pkt)
  modify (set_contacts (set_status user status))
  modify refresh_contacts

-- One name of ONLINE_LIST; `me` is the user's own name, taken before the loop.
unfoldable pub online : Host → String → Json → Act (Unit {0})
unfolding truthy on_world as_text add set_status request_public_key
online host me v = if not (truthy v) then skip else (do
  user ← on_world host (λ _. as_text v)
  if user == me then skip else (do
    modify (add host user)
    modify (set_contacts (set_status user "online"))
    request_public_key host user))

-- `DELETE FROM contacts WHERE username=?`
unfoldable pub remove_self : String → App → App
remove_self me a =
    if is_empty me then a else set_contacts (where_rows (λ c. not (c.username == me))) a

unfoldable pub on_online_list : Host → Packet → Act (Unit {0})
unfolding for_field online remove_self refresh_contacts
on_online_list host pkt = do
  me ← gets (λ a. a.username)
  for_field "users" (online host me) pkt
  modify (remove_self me)
  modify refresh_contacts

unfoldable pub on_key_response : Host → Packet → Act (Unit {0})
unfolding get_or_null truthy on_world as_text store_public_key refresh_contacts formatted
on_key_response host pkt =
    let user = get_or_null "username" pkt in
    let key = get_or_null "public_key" pkt in
    if truthy (get_or_null "success" pkt) && truthy user && truthy key
    then (do
      username ← on_world host (λ _. as_text user)
      key64 ← on_world host (λ _. as_text key)
      modify (set_contacts (store_public_key host.base username key64))
      modify refresh_contacts)
    else if truthy user
    then (formatted host "" "username" pkt >>= λ name.
        notify host ("No public key for " ∷ name ∷ []))
    else skip

-- The room of a ROOM_INFO, gone or there
unfoldable pub room_changed : Host → Packet → Packet → Act (Unit {0})
unfolding on_world as_text get_or_null truthy delete_room close_room text_or save_room
    refresh_contacts
room_changed host pkt room = do
  id ← on_world host (λ _. as_text (get_or_null "id" room))
  (if truthy (get_or_null "left" pkt)
      then modify (remove_room id) >> modify (close_room id)
      else (do name ← on_world host (λ _. text_or id "name" room); modify (store_room id name)))
  modify refresh_contacts

unfoldable pub on_room_info : Host → Packet → Act (Unit {0})
unfolding on_world Room.handle_room_info truthy get_or_null room_changed
on_room_info host pkt = do
  if_ready (on_world host (λ _. Room.handle_room_info pkt))
  if not (truthy (get_or_null "success" pkt) && truthy (get_or_null "room" pkt))
      then skip
      else elim (get_or_null "room" pkt) [
        | obj fs ↦
            if truthy (get_or_null "id" (to_packet fs))
            then room_changed host pkt (to_packet fs)
            else skip
        | _ ↦ raise
      ]

unfoldable pub on_file_done : Host → Packet → Act (Unit {0})
unfolding on_world text_or str_take
on_file_done host pkt = do
  file_id ← on_world host (λ _. text_or "" "file_id" pkt)
  notify host ("File ready: " ∷ str_take 8 file_id ∷ "  /file accept " ∷ file_id ∷ [])

-- `value == self.current_chat`
abbrev same_chat : Json → Option String → Bool
same_chat null none = true
same_chat (text s) (some chat) = s == chat
same_chat _ _ = false

unfoldable pub on_typing : Host → Packet → Act (Unit {0})
unfolding formatted room_key get_default
on_typing host pkt = do
  sender ← formatted host "" "from" pkt
  room_id ← formatted host "" "room_id" pkt
  chat ← gets (λ a. a.current_chat)
  if same_chat (get_default "from" (text "") pkt) chat || same_chat (text (room_key room_id)) chat
      then notify host (sender ∷ " is typing…" ∷ [])
      else skip

-- A handler's method, after which the messages of the chat are read again
abbrev reloading : Act (Unit {0}) → Act (Unit {0})
reloading action = if_ready action >> modify load_messages

-- The branches of `_on_server_message`; the response to a login is kept for the one who waits for it.
unfoldable pub route : Host → (String → Option Json) → Packet → Act (Unit {0})
unfolding on_message on_room on_file on_call on_sync on_status on_online_list on_key_response
    on_room_info on_file_done on_typing load_messages Direct.handle_edit Direct.handle_delete
    Direct.handle_delivery Direct.handle_read Room.handle_members_list
route host loads pkt = elim (msg_type pkt) [
  | some MsgType.auth_response ↦ modify (λ a. record a { auth_result = some pkt })
  | some MsgType.message ↦ if_ready (on_message host pkt)
  | some MsgType.message_edit ↦ reloading (on_world host (λ e. Direct.handle_edit e pkt))
  | some MsgType.message_delete ↦ reloading (on_world host (λ _. Direct.handle_delete pkt))
  | some MsgType.sync_response ↦ if_ready (on_sync host loads pkt)
  | some MsgType.status ↦ on_status host pkt
  | some MsgType.online_list ↦ on_online_list host pkt
  | some MsgType.key_response ↦ on_key_response host pkt
  | some MsgType.delivery ↦ reloading (on_world host (λ _. Direct.handle_delivery pkt))
  | some MsgType.read ↦ reloading (on_world host (λ _. Direct.handle_read pkt))
  | some MsgType.room_info ↦ on_room_info host pkt
  | some MsgType.room_members_list ↦ if_ready (on_world host (λ _. Room.handle_members_list pkt))
  | some MsgType.room_message ↦ if_ready (on_room host pkt)
  | some MsgType.file_init ↦ if_ready (on_file host pkt)
  | some MsgType.file_ack ↦ if_ready (on_file host pkt)
  | some MsgType.file_done ↦ if_ready (on_file host pkt) >> on_file_done host pkt
  | some MsgType.file_cancel ↦ if_ready (on_file host pkt)
  | some MsgType.call_invite ↦ if_ready (on_call host pkt)
  | some MsgType.call_accept ↦ if_ready (on_call host pkt)
  | some MsgType.call_decline ↦ if_ready (on_call host pkt)
  | some MsgType.call_end ↦ if_ready (on_call host pkt)
  | some MsgType.call_relay ↦ if_ready (on_call host pkt)
  | some MsgType.typing ↦ on_typing host pkt
  | some MsgType.error ↦
      formatted host "?" "error" pkt >>= λ reason. notify host ("Server error: " ∷ reason ∷ [])
  | _ ↦ skip
]

-- `_on_server_message`
unfoldable pub on_server_message : Host → (String → Option Json) → Packet → Act (Unit {0})
unfolding route
on_server_message host loads pkt = do route host loads pkt; modify (λ a. record a { dirty = true })

-- `_on_connect` and `_on_disconnect`, with the connection's count of attempts
unfoldable pub on_connect : ℕ → App → App
on_connect attempt a = record a {
  conn_status = "connecting";
  reconnect_att = attempt;
  dirty = true;
}

unfoldable pub on_disconnect : Host → ℕ → Act (Unit {0})
on_disconnect host attempt = do
  modify (λ a. record a { conn_status = "reconnecting"; dirty = true })
  notify host ("Disconnected. Reconnecting (attempt " ∷ host.decimal (attempt + 1) ∷ ")…" ∷ [])
