-- ===== src/Client/RoomHandler.antt =====
-- client/handlers/room.py: rooms. A request and what is done with its response are two functions, with
-- the wait between them; a wait that times out has no response.
pub mod Pending
pub mod Tests
use chat_terminal.Common.{
  ℕ, String, Bool, true, false, Option, none, some, List, [], ◌∷◌, ◌++◌, string_eq, ◌==◌,
  if◌then◌else◌,
}
use chat_terminal.Common.Dict.{lookup, insert, erase}
use chat_terminal.Common.Exec.{pure, raise, gets, modify, ◌>>=◌, ◌>>◌, skip}
use chat_terminal.Shared.Protocol.{
  Json, bool, text, num, arr, nil, obj, Fields, field, Packet, room_create, room_join, room_leave,
  room_members, room_message, MsgType,
}
use chat_terminal.Shared.Text.{is_empty}
use chat_terminal.Server.Ws.Fields.{get_default}
use chat_terminal.Client.World.{World, Env, Exec, draw, emit, show, text_or}
use chat_terminal.Client.Db.Contacts.{get_public_key}
use chat_terminal.Client.MessageHandler.{to_fields, encrypted_payload}

-- `self._pending[req_id] = (event, result)`
unfoldable pub expect : String → World → World
expect req_id w = record w { pending = insert req_id [] w.pending }

-- A request with a new identity, which the response is to carry
unfoldable pub request : Env → MsgType → Packet → Exec String
unfolding draw expect emit
request env t fields = do
  req_id ← draw env.uuid
  modify (expect req_id)
  emit env t (("req_id", text req_id) ∷ fields ++ ("from", text env.me) ∷ [])
  pure req_id

unfoldable pub create : Env → String → Exec String
unfolding request
create env name = request env room_create (("name", text name) ∷ [])

unfoldable pub join : Env → String → Exec String
unfolding request
join env room_id = request env room_join (("room_id", text room_id) ∷ [])

unfoldable pub get_members : Env → String → Exec String
unfolding request
get_members env room_id = request env room_members (("room_id", text room_id) ∷ [])

unfoldable pub leave : Env → String → Exec (Unit {0})
unfolding emit
leave env room_id = emit env room_leave (("room_id", text room_id) ∷ ("from", text env.me) ∷ [])

abbrev first_of : Option (List Packet) → Option Packet
first_of (some (p ∷ _)) = some p
first_of _ = none

-- The end of the wait: the first response, if there is one, and the request is forgotten.
unfoldable pub awaited : String → Exec (Option Packet)
awaited req_id = do
  found ← gets (λ w. first_of (lookup req_id w.pending))
  modify (λ w. record w { pending = erase req_id w.pending })
  pure found

-- `create` after the wait, which may raise a TimeoutError
unfoldable pub created : String → Exec Packet
unfolding awaited
created req_id = do response ← awaited req_id; elim response [ none ↦ raise | some p ↦ pure p ]

unfoldable pub joined : String → Exec Json
unfolding awaited get_default
joined req_id = do
  response ← awaited req_id
  pure (elim response [ none ↦ bool false | some p ↦ get_default "success" (bool false) p ])

unfoldable pub members_of : String → Exec Json
unfolding awaited get_default
members_of req_id = do
  response ← awaited req_id
  pure (elim response [ none ↦ arr nil | some p ↦ get_default "members" (arr nil) p ])

-- `_resolve_pending`
unfoldable pub resolve_pending : String → Packet → World → World
resolve_pending req_id result w = elim (lookup req_id w.pending) [
  | none ↦ w
  | some container ↦ record w { pending = insert req_id (container ++ result ∷ []) w.pending }
]

unfoldable pub handle_room_info : Packet → Exec (Unit {0})
unfolding text_or resolve_pending
handle_room_info pkt = do req_id ← text_or "" "req_id" pkt; modify (resolve_pending req_id pkt)

unfoldable pub handle_members_list : Packet → Exec (Unit {0})
unfolding text_or resolve_pending
handle_members_list pkt = do req_id ← text_or "" "req_id" pkt; modify (resolve_pending req_id pkt)

-- The payloads of the members whose keys are known, but the user's own
payloads_for : Env → String → List String → Exec Fields
unfolding encrypted_payload
payloads_for env plaintext [] = pure Fields.end
payloads_for env plaintext (member ∷ members) =
    let rest = payloads_for env plaintext members in
    if member == env.me then rest else (do
      pubkey_b64 ← gets (λ w. get_public_key member w.contacts)
      elim pubkey_b64 [
        | none ↦ rest
        | some key ↦ if is_empty key then rest else (do
          enc ← encrypted_payload env plaintext key
          others ← rest
          pure (field member (obj (to_fields enc)) others))
      ])

-- `send_message` up to the wait for the members, which are asked for when the private key is unlocked:
-- the message's identity, and that of the request
unfoldable pub begin_message : Env → String → Exec (String × Option String)
unfolding draw get_members
begin_message env room_id = do
  msg_id ← draw env.uuid
  elim env.private_key [
    | none ↦ pure (msg_id, none)
    | some _ ↦ get_members env room_id >>= λ req_id. pure (msg_id, some req_id)
  ]

abbrev content : String → Fields → String × Json
content plaintext Fields.end = ("payload", obj (field "text" (text plaintext) Fields.end))
content plaintext (field k v rest) = ("payloads", obj (field k v rest))

-- The rest of `send_message`, with the members that `get_members` has returned
unfoldable pub finish_message : Env → String → String → String → List String → Exec String
unfolding payloads_for emit
finish_message env room_id plaintext msg_id members = do
  payloads ← elim env.private_key as (λ _. Exec Fields) [
    | none ↦ pure Fields.end
    | some _ ↦ payloads_for env plaintext members
  ]
  emit env room_message (
      ("id", text msg_id)
      ∷ ("room_id", text room_id)
      ∷ ("from", text env.me)
      ∷ content plaintext payloads
      ∷ ("timestamp", num env.now)
      ∷ [])
  pure msg_id
