-- ===== src/Shared/Protocol.antt =====
-- shared/protocol.py, shared/constants.py: packets are JSON objects, sent as text. Numbers in JSON
-- are natural numbers. `json.dumps` and `json.loads` are parameters of whoever uses them.
use chat_terminal.Common.{
  ℕ, ◌*◌, String, Bool, true, false, not, Option, none, some, List, [], ◌∷◌, ◌≡◌, refl, string_eq,
  nat_beq, ◌==◌, if◌then◌else◌,
}
use chat_terminal.Common.Dict.{Dict, lookup, update}

mutual
  pub data Json : Type 0 where
    null : Json
    bool : Bool → Json
    num : ℕ → Json
    text : String → Json
    arr : Items → Json
    obj : Fields → Json

  pub data Items : Type 0 where
    nil : Items
    cons : Json → Items → Items

  pub data Fields : Type 0 where
    end : Fields
    field : String → Json → Fields → Fields

abbrev pub Packet : Type 0
Packet = Dict String Json

-- A list of strings as a JSON array.
items : List String → Items
items [] = nil
items (s ∷ rest) = cons (text s) (items rest)

unfoldable pub texts : List String → Json
unfolding items
texts ss = arr (items ss)

-- `bool(value)`
unfoldable pub truthy : Json → Bool
truthy null = false
truthy (bool b) = b
truthy (num n) = not (nat_beq n 0)
truthy (text s) = not (s == "")
truthy (arr nil) = false
truthy (arr (cons j js)) = true
truthy (obj end) = false
truthy (obj (field k v fs)) = true

pub data MsgType : Type 0 where
  auth_register auth_login auth_logout auth_response : MsgType
  key_request key_response : MsgType
  room_create room_join room_leave room_members room_members_list room_info room_message : MsgType
  file_init file_ack file_done file_cancel : MsgType
  call_invite call_accept call_decline call_end call_relay : MsgType
  message message_edit message_delete delivery read typing : MsgType
  sync_request sync_response : MsgType
  online_list status : MsgType
  ping pong error : MsgType

-- The enum's values.
unfoldable pub value : MsgType → String
value auth_register = "AUTH_REGISTER"
value auth_login = "AUTH_LOGIN"
value auth_logout = "AUTH_LOGOUT"
value auth_response = "AUTH_RESPONSE"
value key_request = "KEY_REQUEST"
value key_response = "KEY_RESPONSE"
value room_create = "ROOM_CREATE"
value room_join = "ROOM_JOIN"
value room_leave = "ROOM_LEAVE"
value room_members = "ROOM_MEMBERS"
value room_members_list = "ROOM_MEMBERS_LIST"
value room_info = "ROOM_INFO"
value room_message = "ROOM_MESSAGE"
value file_init = "FILE_INIT"
value file_ack = "FILE_ACK"
value file_done = "FILE_DONE"
value file_cancel = "FILE_CANCEL"
value call_invite = "CALL_INVITE"
value call_accept = "CALL_ACCEPT"
value call_decline = "CALL_DECLINE"
value call_end = "CALL_END"
value call_relay = "CALL_RELAY"
value message = "MESSAGE"
value message_edit = "MESSAGE_EDIT"
value message_delete = "MESSAGE_DELETE"
value delivery = "DELIVERY"
value read = "READ"
value typing = "TYPING"
value sync_request = "SYNC_REQUEST"
value sync_response = "SYNC_RESPONSE"
value online_list = "ONLINE_LIST"
value status = "STATUS"
value ping = "PING"
value pong = "PONG"
value error = "ERROR"

abbrev pub all_types : List MsgType
all_types =
    auth_register ∷ auth_login ∷ auth_logout ∷ auth_response ∷ key_request ∷ key_response
    ∷ room_create ∷ room_join ∷ room_leave ∷ room_members ∷ room_members_list ∷ room_info
    ∷ room_message ∷ file_init ∷ file_ack ∷ file_done ∷ file_cancel ∷ call_invite ∷ call_accept
    ∷ call_decline ∷ call_end ∷ call_relay ∷ message ∷ message_edit ∷ message_delete ∷ delivery
    ∷ read ∷ typing ∷ sync_request ∷ sync_response ∷ online_list ∷ status ∷ ping ∷ pong ∷ error ∷ []

find_type : List MsgType → String → Option MsgType
find_type [] s = none
find_type (t ∷ ts) s = if value t == s then some t else find_type ts s

-- The member of the enum that `ptype == MsgType.X` finds, if there is one.
unfoldable pub msg_type : Packet → Option MsgType
unfolding find_type value
msg_type pkt = elim (lookup "type" pkt) [
  | none ↦ none
  | some v ↦ elim v [ text s ↦ find_type all_types s | _ ↦ none ]
]

abbrev pub header : String → String → ℕ → Packet
header t id timestamp =
    ("version", text "1.0") ∷ ("type", text t) ∷ ("id", text id) ∷ ("timestamp", num timestamp) ∷ []

-- `make_packet` before `json.dumps`, with the id and the timestamp that it draws
unfoldable pub make_packet : MsgType → String → ℕ → Packet → Packet
unfolding value
make_packet t id timestamp kwargs = update (header (value t) id timestamp) kwargs

abbrev pub session_ttl : ℕ
session_ttl = 86400 * 7

-- No two members have one name: the dispatch by `==` picks the member that was sent.
find-value : (t : MsgType) → find_type all_types (value t) ≡ some t
unfolding find_type value
find-value auth_register = refl
find-value _ = refl
