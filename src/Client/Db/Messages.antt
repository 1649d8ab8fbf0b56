-- ===== src/Client/Db/Messages.antt =====
-- client/db/messages.py and client/db/rooms.py. Rows stand in the order of their rowids.
pub mod History
mod Tests
use chat_terminal.Common.{
  ℕ, String, Bool, true, false, not, ◌&&◌, ◌||◌, Option, none, some, List, [], ◌∷◌, ◌++◌, string_eq,
  ◌==◌, ltb, length, take, where_rows, if◌then◌else◌,
}
use chat_terminal.Server.World.{insert_or_ignore, update_rows}
use chat_terminal.Shared.Text.{precedes}
use chat_terminal.Client.World.{Message, RoomRow}

-- `save`
abbrev pub new_message : String → String → String → String → ℕ → Bool → Message
new_message id from_user to_user plaintext timestamp delivered = record {
  id = id;
  from_user = from_user;
  to_user = to_user;
  plaintext = plaintext;
  timestamp = timestamp;
  delivered = delivered;
  read_status = false;
  edited = false;
  deleted = false;
}

unfoldable pub save : Message → List Message → List Message
save m rows = insert_or_ignore (λ r. r.id == m.id) m rows

unfoldable pub mark_delivered : String → List Message → List Message
mark_delivered id rows = update_rows (λ r. r.id == id) (λ r. record r { delivered = true }) rows

unfoldable pub mark_read_by_id : String → List Message → List Message
mark_read_by_id id rows = update_rows (λ r. r.id == id) (λ r. record r { read_status = true }) rows

unfoldable pub edit_message : String → String → List Message → List Message
edit_message id plaintext rows =
    update_rows (λ r. r.id == id) (λ r. record r { plaintext = plaintext; edited = true }) rows

unfoldable pub delete_message : String → List Message → List Message
delete_message id rows = update_rows (λ r. r.id == id) (λ r. record r { deleted = true }) rows

-- `ORDER BY timestamp DESC, rowid DESC`
unfoldable pub insert_newest : Message → List Message → List Message
insert_newest m [] = m ∷ []
insert_newest m (n ∷ rows) =
    let rest = insert_newest m rows in
    if ltb n.timestamp m.timestamp then m ∷ n ∷ rows else n ∷ rest

unfoldable pub newest_first : List Message → List Message
unfolding insert_newest
newest_first [] = []
newest_first (m ∷ rows) = insert_newest m (newest_first rows)

unfoldable pub reversed : List Message → List Message
reversed [] = []
reversed (m ∷ rows) = reversed rows ++ m ∷ []

abbrev pub between : String → String → Message → Bool
between self_user peer m =
    (m.from_user == self_user && m.to_user == peer)
    || (m.from_user == peer && m.to_user == self_user)

unfoldable pub get_history : String → String → ℕ → List Message → List Message
unfolding newest_first reversed
get_history peer self_user limit rows =
    reversed (take limit (newest_first (where_rows (between self_user peer) rows)))

unfoldable pub get_room_history : String → ℕ → List Message → List Message
unfolding newest_first reversed
get_room_history room_id limit rows =
    reversed (take limit (newest_first (where_rows (λ m. m.to_user == room_id) rows)))

abbrev pub unread_from : String → String → Message → Bool
unread_from peer self_user m = m.from_user == peer && m.to_user == self_user && not m.read_status

unfoldable pub mark_read : String → String → List Message → List Message
mark_read peer self_user rows =
    update_rows (unread_from peer self_user) (λ m. record m { read_status = true }) rows

unfoldable pub unread_count : String → String → List Message → ℕ
unread_count peer self_user rows = length (where_rows (unread_from peer self_user) rows)

-- `COALESCE(excluded.last_message, rooms.last_message)`
abbrev or_else : Option String → Option String → Option String
or_else (some s) old = some s
or_else none old = old

unfoldable pub save_room : String → String → Option String → List RoomRow → List RoomRow
save_room room_id name last_message [] =
    record { id = room_id; name = name; last_message = last_message } ∷ []
save_room room_id name last_message (r ∷ rows) =
    let rest = save_room room_id name last_message rows in
    if r.id == room_id
    then record r { name = name; last_message = or_else last_message r.last_message } ∷ rows
    else r ∷ rest

unfoldable pub delete_room : String → List RoomRow → List RoomRow
delete_room room_id rows = where_rows (λ r. not (r.id == room_id)) rows

insert_named : RoomRow → List RoomRow → List RoomRow
insert_named r [] = r ∷ []
insert_named r (s ∷ rows) =
    let rest = insert_named r rows in if precedes s.name r.name then s ∷ rest else r ∷ s ∷ rows

-- `all_rooms`; rooms of one name may come in any order.
unfoldable pub all_rooms : List RoomRow → List RoomRow
unfolding insert_named
all_rooms [] = []
all_rooms (r ∷ rows) = insert_named r (all_rooms rows)

unfoldable pub update_last_message : String → String → List RoomRow → List RoomRow
update_last_message room_id text rows =
    update_rows (λ r. r.id == room_id) (λ r. record r { last_message = some text }) rows
