-- ===== src/Server/Rooms.antt =====
-- server/rooms.py: rooms, their members, and the broadcast of a packet to a room. A SELECT returns
-- its rows in the order of insertion.
pub mod Membership
use mathlib.Core.List.{map}
use chat_terminal.Common.{
  ℕ, String, Bool, true, false, not, ◌&&◌, Option, none, some, List, [], ◌∷◌, ◌++◌, string_eq, ◌==◌,
  where_rows, exists_row, if◌then◌else◌,
}
use chat_terminal.Common.Dict.{lookup}
use chat_terminal.Shared.Protocol.{Json, text, Packet}
use chat_terminal.Shared.Text.{str_append}
use chat_terminal.Server.World.{World, Env, Room, Member, Ws, insert_or_ignore}
use chat_terminal.Server.Exec.{
  Exec, ◌>>=◌, ◌>>◌, pure, raise, gets, modify, skip, try_else, new_id, send,
}
use chat_terminal.Server.Router
use chat_terminal.Server.Offline

-- `INSERT OR IGNORE INTO room_members`
unfoldable pub add_member : String → String → ℕ → List Member → List Member
add_member room_id username joined_at members =
    insert_or_ignore (λ m. m.room_id == room_id && m.username == username)
      (record { room_id = room_id; username = username; joined_at = joined_at }) members

unfoldable pub create_room : Env → String → String → Exec Room
unfolding new_id add_member
create_room env name created_by = do
  room_id ← new_id env
  let room : Room = record {
    id = room_id;
    name = name;
    created_by = created_by;
    created_at = env.now;
  }
  taken ← gets (λ w. exists_row (λ r. r.id == room_id) w.rooms)
  if taken then raise else do
    modify (λ w. record w {
      rooms = w.rooms ++ room ∷ [];
      room_members = add_member room_id created_by env.now w.room_members;
    })
    pure room

unfoldable pub room_exists : String → World → Bool
room_exists room_id w = exists_row (λ r. r.id == room_id) w.rooms

unfoldable pub join_room : Env → String → String → Exec Bool
unfolding room_exists add_member
join_room env room_id username = do
  found ← gets (room_exists room_id)
  if found
      then (do
        modify (λ w. record w { room_members = add_member room_id username env.now w.room_members })
        pure true)
      else pure false

unfoldable pub leave_room : String → String → Exec (Unit {0})
leave_room room_id username = modify λ w. record w {
  room_members =
      where_rows (λ m. not (m.room_id == room_id && m.username == username)) w.room_members;
}

unfoldable pub get_members : String → World → List String
get_members room_id w =
    map (λ m. m.username) (where_rows (λ m. m.room_id == room_id) w.room_members)

-- `rooms r JOIN room_members rm ON rm.room_id = r.id WHERE rm.username = ?`
rooms_joined : String → List Member → List Room → List Room
rooms_joined username members [] = []
rooms_joined username members (r ∷ rs) =
    map (λ _. r) (where_rows (λ m. m.room_id == r.id && m.username == username) members)
    ++ rooms_joined username members rs

unfoldable pub get_user_rooms : String → World → List Room
unfolding rooms_joined
get_user_rooms username w = rooms_joined username w.room_members w.rooms

-- `pkt.get("id", new_id())`: the id is drawn in any case. An id is a string.
unfoldable pub packet_id : Env → Packet → Exec String
unfolding new_id
packet_id env pkt = do
  fresh ← new_id env
  elim (lookup "id" pkt) [ none ↦ pure fresh | some v ↦ elim v [ text s ↦ pure s | _ ↦ raise ] ]

enqueue_for : Env → Packet → String → String → Exec (Unit {0})
unfolding packet_id Offline.enqueue
enqueue_for env pkt payload member = do
  pkt_id ← packet_id env pkt
  Offline.enqueue env (str_append pkt_id (str_append ":" member)) member payload

-- One round of the loop over the members
unfoldable pub route_to : Env → Packet → String → String → String → Exec (Unit {0})
unfolding enqueue_for send Router.get
route_to env pkt payload sender member = if member == sender then skip else do
  ws ← gets (Router.get member)
  elim ws [
    | some target ↦ try_else (send env target payload) (enqueue_for env pkt payload member)
    | none ↦ enqueue_for env pkt payload member
  ]

unfoldable pub route_all : Env → Packet → String → String → List String → Exec (Unit {0})
route_all env pkt payload sender [] = skip
route_all env pkt payload sender (member ∷ members) = do
  route_to env pkt payload sender member
  route_all env pkt payload sender members

unfoldable pub route_room_message : Env → String → Packet → String → Exec (Unit {0})
route_room_message env room_id pkt sender = do
  members ← gets (get_members room_id)
  route_all env pkt (env.dumps pkt) sender members
