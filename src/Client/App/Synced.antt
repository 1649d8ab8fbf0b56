-- ===== src/Client/App/Synced.antt =====
-- client/app.py: the handlers' methods with the application's callbacks, and the packets of a sync.
use chat_terminal.Common.{String, Option, none, some, string_eq, if◌then◌else◌}
use chat_terminal.Common.Exec.{raise, gets, ◌>>=◌, ◌>>◌, skip, try_else}
use chat_terminal.Shared.Protocol.{
  Json, text, arr, obj, Fields, field, Items, nil, cons, Packet, MsgType, msg_type,
}
use chat_terminal.Server.Ws.Fields.{to_packet, get_default}
use chat_terminal.Client.MessageHandler as Direct
use chat_terminal.Client.FileHandler as File
use chat_terminal.Client.CallHandler.Incoming as Call
use chat_terminal.Client.App.{Act, Host, on_world}
use chat_terminal.Client.App.Callbacks.{
  called_back, on_new_message, on_room_message, on_file_offer, on_call_event,
}

-- `if self.msg_h:`, and the same for the other handlers
abbrev pub if_ready : Act (Unit {0}) → Act (Unit {0})
if_ready action = do ready ← gets (λ a. a.logged_in); if ready then action else skip

-- The handlers' methods for a packet, with the application's callbacks
unfoldable pub on_message : Host → Packet → Act (Unit {0})
unfolding called_back Direct.handle_incoming on_new_message
on_message host pkt = called_back host (on_new_message host) (λ e. Direct.handle_incoming e pkt)

unfoldable pub on_room : Host → Packet → Act (Unit {0})
unfolding on_room_message
on_room host pkt = try_else (on_room_message host pkt) skip

unfoldable pub on_file : Host → Packet → Act (Unit {0})
unfolding called_back File.handle_incoming on_file_offer
on_file host pkt = called_back host (on_file_offer host) (λ e. File.handle_incoming e pkt)

unfoldable pub on_call : Host → Packet → Act (Unit {0})
unfolding called_back Call.handle_incoming on_call_event
on_call host pkt = called_back host (on_call_event host) (λ e. Call.handle_incoming e pkt)

-- `_handle_synced_packet`, once the handlers are there
unfoldable pub handle_synced_packet : Host → Packet → Act (Unit {0})
unfolding on_message on_room on_file on_call on_world Direct.handle_edit Direct.handle_delete
handle_synced_packet host pkt = elim (msg_type pkt) [
  | some MsgType.message ↦ on_message host pkt
  | some MsgType.room_message ↦ on_room host pkt
  | some MsgType.message_edit ↦ on_world host (λ e. Direct.handle_edit e pkt)
  | some MsgType.message_delete ↦ on_world host (λ _. Direct.handle_delete pkt)
  | some MsgType.file_init ↦ on_file host pkt
  | some MsgType.file_ack ↦ on_file host pkt
  | some MsgType.file_done ↦ on_file host pkt
  | some MsgType.file_cancel ↦ on_file host pkt
  | some MsgType.call_invite ↦ on_call host pkt
  | some MsgType.call_accept ↦ on_call host pkt
  | some MsgType.call_decline ↦ on_call host pkt
  | some MsgType.call_end ↦ on_call host pkt
  | some MsgType.call_relay ↦ on_call host pkt
  | _ ↦ skip
]

-- One text of SYNC_RESPONSE: what does not parse to an object, or raises, is skipped.
unfoldable pub synced : Host → (String → Option Json) → Json → Act (Unit {0})
unfolding handle_synced_packet
synced host loads (text raw) = elim (loads raw) [
  | none ↦ skip
  | some v ↦ elim v [ obj fs ↦ try_else (handle_synced_packet host (to_packet fs)) skip | _ ↦ skip ]
]
synced host loads _ = skip

-- A loop over a JSON array
unfoldable pub for_items : (Json → Act (Unit {0})) → Items → Act (Unit {0})
for_items action nil = skip
for_items action (cons v rest) = action v >> for_items action rest

keys_of : Fields → Items
keys_of Fields.end = nil
keys_of (field k v fs) = cons (text k) (keys_of fs)

-- A loop over a field of the packet: a dict is its keys, and no character of a text does anything.
unfoldable pub for_field : String → (Json → Act (Unit {0})) → Packet → Act (Unit {0})
unfolding get_default for_items keys_of
for_field k action pkt = elim (get_default k (arr nil) pkt) [
  | arr js ↦ for_items action js
  | obj fs ↦ for_items action (keys_of fs)
  | text s ↦ skip
  | _ ↦ raise
]

unfoldable pub on_sync : Host → (String → Option Json) → Packet → Act (Unit {0})
unfolding for_field synced
on_sync host loads pkt = for_field "messages" (synced host loads) pkt
