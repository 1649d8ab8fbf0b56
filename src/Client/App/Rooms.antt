-- ===== src/Client/App/Rooms.antt =====
-- client/app.py: /room, and a message to the room that is open. What the client does in the course of a
-- wait is `meanwhile`.
use chat_terminal.Common.{
  ℕ, String, not, ◌||◌, ◌&&◌, drop, Option, none, some, List, [], ◌∷◌, string_eq, ◌==◌,
  if◌then◌else◌, leb, length,
}
use chat_terminal.Common.Exec.{pure, raise, gets, modify, ◌>>=◌, ◌>>◌}
use chat_terminal.Shared.Protocol.{arr, obj, Fields, Items, nil, cons, Packet, truthy}
use chat_terminal.Shared.Text.{is_empty}
use chat_terminal.Shared.Words.{join, part}
use chat_terminal.Server.Ws.Fields.{to_packet, get_or_null, get_default}
use chat_terminal.Client.RoomHandler as Room
use chat_terminal.Client.World.{Exec, as_text, text_or}
use chat_terminal.Client.Db.Messages.{save_room, delete_room}
use chat_terminal.Client.App.{
  App, Act, Host, on_world, notify, room_key, is_room_chat, room_id_from_key, open_chat, is_open,
  formatted, load_messages, refresh_contacts, set_unread,
}

abbrev pub usage : String
usage = "Usage: /room create|join|open|leave|members"

-- A wait of the room handler for the response to a request
unfoldable pub waits : Host → String → Act (Unit {0})
waits host req_id = modify (host.meanwhile req_id)

names_of : Items → Exec (List String)
unfolding as_text
names_of nil = pure []
names_of (cons v rest) = do name ← as_text v; others ← names_of rest; pure (name ∷ others)

-- `await self.room_h.get_members(room_id)`, once it has been asked for; what is no list of names raises.
unfoldable pub awaited_members : Host → String → Act (List String)
unfolding waits on_world Room.members_of names_of
awaited_members host req_id = do
  waits host req_id
  found ← on_world host (λ _. Room.members_of req_id)
  on_world host (λ _. elim found [ arr js ↦ names_of js | _ ↦ raise ])

-- `await self.room_h.send_message(room_id, text)`
unfoldable pub send_message : Host → String → String → Act String
unfolding on_world Room.begin_message awaited_members Room.finish_message
send_message host room_id plaintext = do
  begun ← on_world host (λ e. Room.begin_message e room_id)
  let (msg_id, asked) = begun
  members ← elim asked as (λ _. Act (List String)) [
    | none ↦ pure []
    | some req_id ↦ awaited_members host req_id
  ]
  on_world host (λ e. Room.finish_message e room_id plaintext msg_id members)

abbrev pub store_room : String → String → App → App
store_room id name a = record a {
  world = record a.world { rooms = save_room id name none a.world.rooms };
}

abbrev pub remove_room : String → App → App
remove_room id a = record a { world = record a.world { rooms = delete_room id a.world.rooms } }

abbrev pub open_at : String → App → App
open_at chat a = record a { current_chat = some chat }

-- The chat of a room is closed, if it is open.
unfoldable pub close_room : String → App → App
unfolding room_key
close_room room_id a =
    if is_open (room_key room_id) a then record a { current_chat = none; messages = [] } else a

-- `result.get("room", {})`; what is no object raises at its first use.
unfoldable pub room_of : Packet → Act Packet
unfolding get_default to_packet
room_of pkt = elim (get_default "room" (obj Fields.end) pkt) [
  | obj fs ↦ pure (to_packet fs)
  | _ ↦ raise
]

-- `room.get("id")`, as a condition together with the success of the response
unfoldable pub id_of : Host → Packet → Packet → Act (Option String)
unfolding truthy get_or_null on_world as_text
id_of host result room =
    if truthy (get_or_null "success" result) && truthy (get_or_null "id" room)
    then (on_world host (λ _. as_text (get_or_null "id" room)) >>= λ id. pure (some id))
    else pure none

unfoldable pub create : Host → String → Act (Unit {0})
unfolding on_world Room.create waits Room.created room_of id_of room_key load_messages text_or
    save_room formatted refresh_contacts
create host room_name = do
  req_id ← on_world host (λ e. Room.create e room_name)
  waits host req_id
  result ← on_world host (λ _. Room.created req_id)
  room ← room_of result
  created ← id_of host result room
  elim created [
    | none ↦ do
      reason ← formatted host "?" "error" result
      notify host ("Room create failed: " ∷ reason ∷ [])
    | some id ↦ do
      name ← on_world host (λ _. text_or room_name "name" room)
      modify (store_room id name)
      modify (open_at (room_key id))
      modify load_messages
      notify host ("Created #" ∷ name ∷ " id=" ∷ id ∷ [])
  ]
  modify refresh_contacts

unfoldable pub join_room : Host → String → Act (Unit {0})
unfolding on_world Room.join waits Room.joined room_key load_messages truthy refresh_contacts
join_room host room_id = do
  req_id ← on_world host (λ e. Room.join e room_id)
  waits host req_id
  success ← on_world host (λ _. Room.joined req_id)
  (if truthy success
      then (do
        modify (open_at (room_key room_id))
        modify load_messages
        notify host ("Joined room " ∷ room_id ∷ []))
      else notify host ("Room not found: " ∷ room_id ∷ []))
  modify refresh_contacts

unfoldable pub open_room : Host → String → Act (Unit {0})
unfolding room_key load_messages refresh_contacts
open_room host room_id = do
  modify (open_at (room_key room_id))
  modify load_messages
  modify (set_unread (room_key room_id) 0)
  notify host ("Opened room " ∷ room_id ∷ [])
  modify refresh_contacts

unfoldable pub leave : Host → String → Act (Unit {0})
unfolding on_world Room.leave delete_room close_room refresh_contacts
leave host room_id = do
  on_world host (λ e. Room.leave e room_id)
  modify (remove_room room_id)
  modify (close_room room_id)
  modify refresh_contacts
  notify host ("Left room " ∷ room_id ∷ [])
  modify refresh_contacts

unfoldable pub members : Host → String → Act (Unit {0})
unfolding on_world Room.get_members awaited_members refresh_contacts
members host room_id = do
  req_id ← on_world host (λ e. Room.get_members e room_id)
  names ← awaited_members host req_id
  notify host ("Members: " ∷ join ", " names ∷ [])
  modify refresh_contacts

-- The room that is open, or else the one that is named
unfoldable pub room_or_named : List String → App → String
unfolding open_chat is_room_chat room_id_from_key part
room_or_named parts a = elim (open_chat a) [
  | none ↦ part 2 parts
  | some chat ↦ if is_room_chat chat then room_id_from_key chat else part 2 parts
]

-- An action on the room that is open or named
abbrev on_room : Host → String → (String → Act (Unit {0})) → List String → Act (Unit {0})
on_room host how action parts = do
  room_id ← gets (room_or_named parts)
  if is_empty room_id then notify host (how ∷ []) else action room_id

-- An action that needs an argument
abbrev pub with_argument : Host → ℕ → String → List String → Act (Unit {0}) → Act (Unit {0})
with_argument host n how parts action =
    if leb n (length parts) then action else notify host (how ∷ [])

unfoldable pub room_action : Host → String → List String → Act (Unit {0})
unfolding create join_room open_room leave members room_or_named part join
room_action host action parts =
    if action == "create"
    then with_argument host 3 "Usage: /room create <name>" parts
        (create host (join " " (drop 2 parts)))
    else if action == "join"
    then with_argument host 3 "Usage: /room join <room_id>" parts (join_room host (part 2 parts))
    else if action == "open"
    then with_argument host 3 "Usage: /room open <room_id>" parts (open_room host (part 2 parts))
    else if action == "leave"
    then on_room host "Usage: /room leave <room_id>" (leave host) parts
    else if action == "members"
    then on_room host "Usage: /room members <room_id>" (members host) parts
    else notify host (usage ∷ []) >> modify refresh_contacts

-- `_room_command`
unfoldable pub room_command : Host → List String → Act (Unit {0})
unfolding room_action
room_command host parts = do
  ready ← gets (λ a. a.logged_in)
  if not ready || not (leb 2 (length parts))
      then notify host (usage ∷ [])
      else room_action host (host.lower (part 1 parts)) parts
