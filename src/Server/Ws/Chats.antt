-- ===== src/Server/Ws/Chats.antt =====
-- server/ws_server.py: rooms and group chat.
use chat_terminal.Common.{
  String, Bool, true, false, none, some, List, [], ◌∷◌, string_eq, ◌==◌, exists_row, if◌then◌else◌,
}
use chat_terminal.Shared.Protocol.{
  Json, bool, text, obj, Fields, field, Packet, room_info, room_members_list, error, delivery,
  texts,
}
use chat_terminal.Shared.Text.{is_empty}
use chat_terminal.Server.World.{World, Env, Ws, Room, find_row}
use chat_terminal.Server.Exec.{Exec, ◌>>=◌, ◌>>◌, gets, skip, reply}
use chat_terminal.Server.Rooms
use chat_terminal.Server.Ws.Fields.{get_or_null, need, strip_field, stamp}

unfoldable pub room_json : Room → Json
room_json r = obj (
    field "id" (text r.id)
      (field "name" (text r.name) (field "created_by" (text r.created_by) Fields.end)))

abbrev pub id_json : String → Json
id_json room_id = obj (field "id" (text room_id) Fields.end)

unfoldable pub on_room_create : Env → Ws → String → Packet → Exec (Unit {0})
unfolding strip_field get_or_null room_json Rooms.create_room reply
on_room_create env ws username pkt = do
  name ← strip_field "name" pkt
  let req_id = get_or_null "req_id" pkt
  if is_empty name
      then reply env ws room_info
          (("req_id", req_id) ∷ ("success", bool false) ∷ ("error", text "MISSING_NAME") ∷ [])
      else (do
        room ← Rooms.create_room env name username
        reply env ws room_info
            (("req_id", req_id) ∷ ("success", bool true) ∷ ("room", room_json room) ∷ []))

-- `next((room for room in user_rooms if room["id"] == room_id), {"id": room_id})`
join_response : String → String → Bool → World → Json
unfolding room_json Rooms.get_user_rooms
join_response room_id username false w = id_json room_id
join_response room_id username true w =
    elim (find_row (λ r. r.id == room_id) (Rooms.get_user_rooms username w)) [
      | none ↦ id_json room_id
      | some r ↦ room_json r
    ]

unfoldable pub on_room_join : Env → Ws → String → Packet → Exec (Unit {0})
unfolding strip_field get_or_null join_response Rooms.join_room reply
on_room_join env ws username pkt = do
  room_id ← strip_field "room_id" pkt
  joined ← Rooms.join_room env room_id username
  response ← gets (join_response room_id username joined)
  reply env ws room_info
      (("req_id", get_or_null "req_id" pkt) ∷ ("success", bool joined) ∷ ("room", response) ∷ [])

unfoldable pub on_room_leave : Env → Ws → String → Packet → Exec (Unit {0})
unfolding strip_field Rooms.leave_room reply
on_room_leave env ws username pkt = do
  room_id ← strip_field "room_id" pkt
  if is_empty room_id then skip else do
    Rooms.leave_room room_id username
    reply env ws room_info
        (("success", bool true) ∷ ("room", id_json room_id) ∷ ("left", bool true) ∷ [])

members_of : String → World → List String
members_of room_id w = if is_empty room_id then [] else Rooms.get_members room_id w

unfoldable pub on_room_members : Env → Ws → Packet → Exec (Unit {0})
unfolding strip_field get_or_null members_of Rooms.get_members reply
on_room_members env ws pkt = do
  room_id ← strip_field "room_id" pkt
  members ← gets (members_of room_id)
  reply env ws room_members_list (
      ("req_id", get_or_null "req_id" pkt)
      ∷ ("room_id", text room_id)
      ∷ ("members", texts members)
      ∷ [])

-- The body of ROOM_MESSAGE once the sender is known to be a member
send_to_room : Env → Ws → String → Packet → String → Exec (Unit {0})
unfolding stamp need reply
send_to_room env ws username pkt room_id = do
  let stamped = stamp username pkt
  Rooms.route_room_message env room_id stamped username
  id ← need "id" stamped
  reply env ws delivery (("msg_id", id) ∷ ("status", text "delivered") ∷ [])

unfoldable pub on_room_message : Env → Ws → String → Packet → Exec (Unit {0})
unfolding strip_field send_to_room reply
on_room_message env ws username pkt = do
  room_id ← strip_field "room_id" pkt
  if is_empty room_id then skip else do
    members ← gets (Rooms.get_members room_id)
    if exists_row (λ m. m == username) members
        then send_to_room env ws username pkt room_id
        else reply env ws error (("error", text "NOT_IN_ROOM") ∷ [])
