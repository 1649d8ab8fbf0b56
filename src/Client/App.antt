-- ===== src/Client/App.antt =====
-- client/app.py: the application of the terminal client, beside the client's world. Its four handlers
-- are made together at the login, with the user's name and key of that moment.
pub mod Callbacks
pub mod Rooms
pub mod Files
pub mod Calls
pub mod Commands
pub mod Keys
pub mod Synced
pub mod Router
pub mod Login
pub mod Render
pub mod Editor
pub mod Unread
pub mod Sending
pub mod Arrival
pub mod Locked
pub mod Names
pub mod Fixtures
mod Tests
use chat_terminal.Common.{
  ℕ, String, Bool, true, false, not, ◌&&◌, ◌||◌, Option, none, some, List, [], ◌∷◌, ◌++◌, map,
  string_eq, ◌==◌, if◌then◌else◌, where_rows,
}
use chat_terminal.Common.Dict.{Dict, lookup, contains, insert}
use chat_terminal.Common.Exec.{Coroutine, pure, raise, gets, modify, ◌>>=◌, ◌>>◌, skip}
use chat_terminal.Shared.Protocol.{Json, null, bool, num, text, Packet, MsgType, key_request}
use chat_terminal.Shared.Text.{is_empty, str_append}
use chat_terminal.Shared.Words.{starts_with, remove_prefix, concat}
use chat_terminal.Client.FileCrypto.{Bytes}
use chat_terminal.Client.World.{World, Env, Exec, RoomRow, Message, Contact, emit}
use chat_terminal.Client.FileHandler.{Meta, Relay}
use chat_terminal.Client.Db.Messages.{get_history, get_room_history, unread_count, all_rooms}
use chat_terminal.Client.Db.Contacts.{all_contacts}

-- An entry of the sidebar: a room, under its key and with its name, or a row of the contacts
pub data Entry : Type 0 where
  room : String → String → Entry
  contact : Contact → Entry

-- `c["username"]`
abbrev pub entry_name : Entry → String
entry_name (room key name) = key
entry_name (contact c) = c.username

-- The attributes of `App`. The screen is there, and so are `ws` and `auth_h`.
pub record App : Type 0 where
  pub world : World
  -- whether the handlers are there
  pub logged_in : Bool
  pub username : String
  -- the private key of `crypto_ctx`
  pub crypto_ctx : Option Bytes
  pub current_chat : Option String
  pub messages : List Message
  pub contacts : List Entry
  pub rooms : List RoomRow
  pub unread : Dict String ℕ
  pub file_offers : Dict String Meta
  pub file_progress : Dict String (ℕ × ℕ)
  -- the caller and its public key
  pub pending_calls : Dict String (String × Option String)
  -- the response that the login waits for
  pub auth_result : Option Packet
  pub buf : String
  pub cursor : ℕ
  pub conn_status : String
  pub reconnect_att : ℕ
  pub notice : String
  pub notice_ts : ℕ
  pub dirty : Bool
  pub running : Bool

abbrev pub Act : Type 0 → Type 0
Act A = Coroutine App A

-- What the application is given: the handlers' environment but the user, the network, the files, the
-- keyboard, and what else the client does while a command waits for a response
pub record Host : Type 0 where
  pub base : Env
  pub relay : Relay
  -- the name and the content of the file at a path
  pub read_file : String → Option (String × Bytes)
  -- the packets that are handled in the course of a wait
  pub meanwhile : String → App → App
  -- `verify_screen.show`
  pub confirms : String → String → Bool
  -- `s.lower()`, `str(n)`, and the text of what was raised
  pub lower : String → String
  pub decimal : ℕ → String
  pub exc : String
  -- `hashlib.sha256(…)`, as hexadecimal digits
  pub sha256 : Bytes → List ℕ
  pub from_codes : List ℕ → String
  -- `int((done / total) * 100)` and `int((pct / 100) * 10)`, in floating point
  pub percent : ℕ → ℕ → ℕ
  pub tenths : ℕ → ℕ

-- The environment of the handlers
abbrev pub env : Host → App → Env
env host a = record host.base { me = a.username; private_key = a.crypto_ctx }

-- A handler's method on the world
unfoldable pub on_world : {A : Type 0} → Host → (Env → Exec A) → Act A
on_world host method a = let (r, w) = method (env host a) a.world in (r, record a { world = w })

unfoldable pub set_notice : Host → String → Act (Unit {0})
set_notice host msg =
    modify (λ a. record a { notice = msg; notice_ts = host.base.now; dirty = true })

-- A notice of several parts
abbrev pub notify : Host → List String → Act (Unit {0})
notify host parts = set_notice host (concat parts)

-- `self.ws.send_pkt(…)`
unfoldable pub send_pkt : Host → MsgType → Packet → Act (Unit {0})
unfolding on_world emit
send_pkt host t kwargs = on_world host (λ e. emit e t kwargs)

-- `pkt.get(k, default)` in an f-string; a list or a dict raises.
unfoldable pub formatted : Host → String → String → Packet → Act String
formatted host default k pkt = elim (lookup k pkt) [
  | none ↦ pure default
  | some v ↦ elim v [
    | text s ↦ pure s
    | null ↦ pure "None"
    | bool b ↦ pure (if b then "True" else "False")
    | num n ↦ pure (host.decimal n)
    | _ ↦ raise
  ]
]

unfoldable pub room_key : String → String
room_key room_id = str_append "room:" room_id

unfoldable pub is_room_chat : String → Bool
unfolding starts_with
is_room_chat chat_id = not (is_empty chat_id) && starts_with "room:" chat_id

unfoldable pub room_id_from_key : String → String
unfolding remove_prefix
room_id_from_key chat_id = remove_prefix "room:" chat_id

-- `self.current_chat`, as a condition
unfoldable pub open_chat : App → Option String
open_chat a = elim a.current_chat [
  | none ↦ none
  | some chat ↦ if is_empty chat then none else some chat
]

abbrev pub is_open : String → App → Bool
is_open chat a = elim a.current_chat [ none ↦ false | some c ↦ c == chat ]

-- The messages of a chat
unfoldable pub history_of : String → App → List Message
unfolding is_room_chat room_id_from_key
history_of chat a =
    if is_room_chat chat
    then get_room_history (room_id_from_key chat) 100 a.world.messages
    else get_history chat a.username 100 a.world.messages

-- The messages of the chat that is open, or those that were shown
unfoldable pub shown_messages : App → List Message
unfolding open_chat history_of
shown_messages a = elim (open_chat a) [ none ↦ a.messages | some chat ↦ history_of chat a ]

-- `_load_messages`
unfoldable pub load_messages : App → App
unfolding shown_messages
load_messages a = record a { messages = shown_messages a; dirty = true }

-- The count of an entry that has none
abbrev pub first_count : App → Entry → ℕ
first_count a (room key name) = 0
first_count a (contact c) = unread_count c.username a.username a.world.messages

unfoldable pub counted : App → List Entry → Dict String ℕ → Dict String ℕ
counted a [] unread = unread
counted a (e ∷ entries) unread = counted a entries (
    if contains (entry_name e) unread
    then unread
    else insert (entry_name e) (first_count a e) unread)

-- The sidebar: the rooms, then the contacts but the user
unfoldable pub roster : App → List Entry
unfolding room_key
roster a =
    map {A = RoomRow} (λ r. room (room_key r.id) r.name) (all_rooms a.world.rooms)
    ++ map contact (
        where_rows (λ c. not (is_empty c.username) && not (c.username == a.username))
          (all_contacts a.world.contacts))

-- `_refresh_contacts`
unfoldable pub refresh_contacts : App → App
unfolding roster counted
refresh_contacts a = record a {
  rooms = all_rooms a.world.rooms;
  contacts = roster a;
  unread = counted a (roster a) a.unread;
  dirty = true;
}

-- `_request_public_key`
unfoldable pub request_public_key : Host → String → Act (Unit {0})
unfolding send_pkt
request_public_key host username = do
  me ← gets (λ a. a.username)
  if is_empty username || username == me
      then skip
      else send_pkt host key_request (("username", text username) ∷ [])

abbrev pub set_unread : String → ℕ → App → App
set_unread chat n a = record a { unread = insert chat n a.unread }
