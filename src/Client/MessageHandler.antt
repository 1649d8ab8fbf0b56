-- ===== src/Client/MessageHandler.antt =====
-- client/handlers/message.py: direct messages. The application's callback is set.
pub mod Delivery
pub mod Fixtures
mod Tests
use chat_terminal.Common.{
  ℕ, suc, String, Bool, true, false, ◌&&◌, ◌||◌, Option, none, some, List, [], ◌∷◌, ◌++◌, string_eq,
  ◌==◌, if◌then◌else◌,
}
use chat_terminal.Common.Dict.{Dict, lookup, insert}
use chat_terminal.Common.Exec.{ok, pure, raise, gets, or_raise, modify, ◌>>=◌, ◌>>◌, skip, try_else}
use chat_terminal.Shared.Protocol.{
  Json, bool, text, num, obj, Fields, field, Packet, message, message_edit, message_delete, truthy,
}
use chat_terminal.Shared.Text.{is_empty}
use chat_terminal.Server.Ws.Fields.{to_packet, get_or_null}
use chat_terminal.Client.World.{
  World, Env, Exec, Message, draw, emit, show, as_text, text_or, truthy_text, timestamp_or_now,
}
use chat_terminal.Client.FileCrypto.{Bytes}
use chat_terminal.Client.Envelope
use chat_terminal.Client.Db.Messages.{
  new_message, save, mark_delivered, mark_read_by_id, edit_message, delete_message, get_history,
}
use chat_terminal.Client.Db.Contacts.{add_contact, get_public_key}

-- A dict as a JSON object
abbrev pub to_fields : Packet → Fields
to_fields [] = Fields.end
to_fields ((k, v) ∷ rest) = field k v (to_fields rest)

-- `encrypt_message(text, base64.b64decode(pubkey_b64))`, and `payload["encrypted"] = True`
unfoldable pub encrypted_payload : Env → String → String → Exec Packet
unfolding draw
encrypted_payload env plaintext pubkey_b64 = do
  recipient ← or_raise (env.suite.b64decode pubkey_b64)
  ephemeral ← draw env.ephemeral
  nonce ← draw env.nonce
  payload ← or_raise (Envelope.encrypt_message env.suite ephemeral nonce plaintext recipient)
  pure (insert "encrypted" (bool true) payload)

-- The payload of `send` and `edit`: encrypted if the private key is unlocked and the peer's key is known
unfoldable pub payload_for : Env → String → String → Exec Packet
unfolding encrypted_payload
payload_for env to_user plaintext = elim env.private_key [
  | none ↦ pure (("text", text plaintext) ∷ [])
  | some _ ↦ do
    pubkey_b64 ← gets (λ w. get_public_key to_user w.contacts)
    elim pubkey_b64 [
      | none ↦ pure (("text", text plaintext) ∷ [])
      | some key ↦
          if is_empty key
          then pure (("text", text plaintext) ∷ [])
          else encrypted_payload env plaintext key
    ]
]

abbrev set_messages : (List Message → List Message) → Exec (Unit {0})
set_messages f = modify (λ w. record w { messages = f w.messages })

abbrev add : Env → String → Exec (Unit {0})
add env username =
    modify (λ w. record w { contacts = add_contact env.now username none w.contacts })

-- What `send` writes into the queue
abbrev pub message_kwargs : Env → String → String → Packet → Packet
message_kwargs env mid to_user payload =
    ("id", text mid)
    ∷ ("from", text env.me)
    ∷ ("to", text to_user)
    ∷ ("payload", obj (to_fields payload))
    ∷ ("timestamp", num env.now)
    ∷ []

unfoldable pub send : Env → String → String → Exec String
unfolding draw payload_for emit
send env to_user plaintext = do
  mid ← draw env.uuid
  payload ← payload_for env to_user plaintext
  emit env message (message_kwargs env mid to_user payload)
  set_messages (save (new_message mid env.me to_user plaintext env.now false))
  add env to_user
  pure mid

-- `pkt.get("payload", {})`; what is no object raises at its first use.
unfoldable pub payload_of : Packet → Exec Packet
payload_of pkt = elim (lookup "payload" pkt) [
  | none ↦ pure []
  | some v ↦ elim v [ obj fs ↦ pure (to_packet fs) | _ ↦ raise ]
]

-- `payload.get("ephemeral_pubkey")`, as a condition
unfoldable pub is_sealed : Packet → Bool
unfolding truthy get_or_null
is_sealed payload = truthy (get_or_null "ephemeral_pubkey" payload)

-- The plaintext of a payload; `failed` is what stands for it when the decryption raises.
unfoldable pub plaintext_or : Exec String → Env → Packet → Exec String
unfolding is_sealed text_or
plaintext_or failed env payload =
    if is_sealed payload
    then elim env.private_key [
      | none ↦ pure "[encrypted — locked]"
      | some private_key ↦ elim (Envelope.decrypt_message env.suite payload private_key) [
        | none ↦ failed
        | some plaintext ↦ pure plaintext
      ]
    ]
    else text_or "" "text" payload

unfoldable pub handle_incoming : Env → Packet → Exec (Unit {0})
unfolding text_or payload_of truthy_text timestamp_or_now draw plaintext_or show
handle_incoming env pkt = do
  sender ← text_or "" "from" pkt
  payload ← payload_of pkt
  given ← truthy_text "id" pkt
  mid ← elim given as (λ _. Exec String) [ none ↦ draw env.uuid | some id ↦ pure id ]
  ts ← timestamp_or_now env pkt
  plaintext ← plaintext_or (pure "[encrypted — decryption failed]") env payload
  if is_empty sender then skip else do
    set_messages (save (new_message mid sender env.me plaintext ts true))
    add env sender
    show (insert "_plaintext" (text plaintext) pkt)

abbrev is_delivered : Json → Bool
is_delivered (text s) = s == "delivered" || s == "queued"
is_delivered _ = false

unfoldable pub handle_delivery : Packet → Exec (Unit {0})
unfolding truthy_text get_or_null
handle_delivery pkt = do
  msg_id ← truthy_text "msg_id" pkt
  elim msg_id [
    | none ↦ skip
    | some id ↦
        if is_delivered (get_or_null "status" pkt) then set_messages (mark_delivered id) else skip
  ]

unfoldable pub handle_read : Packet → Exec (Unit {0})
unfolding truthy_text
handle_read pkt = do
  msg_id ← truthy_text "msg_id" pkt
  elim msg_id [ none ↦ skip | some id ↦ set_messages (mark_read_by_id id) ]

-- The body of `if msg_id:` in `handle_edit`
unfoldable pub edited : Env → Packet → Option String → Exec (Unit {0})
unfolding payload_of plaintext_or
edited env pkt none = skip
edited env pkt (some id) = do
  payload ← payload_of pkt
  plaintext ← plaintext_or raise env payload
  set_messages (edit_message id plaintext)

unfoldable pub handle_edit : Env → Packet → Exec (Unit {0})
unfolding truthy_text edited
handle_edit env pkt = truthy_text "msg_id" pkt >>= edited env pkt

unfoldable pub handle_delete : Packet → Exec (Unit {0})
unfolding truthy_text
handle_delete pkt = do
  msg_id ← truthy_text "msg_id" pkt
  elim msg_id [ none ↦ skip | some id ↦ set_messages (delete_message id) ]

unfoldable pub edit : Env → String → String → String → Exec (Unit {0})
unfolding payload_for emit
edit env msg_id to_user new_text = do
  payload ← payload_for env to_user new_text
  emit env message_edit (
      ("msg_id", text msg_id)
      ∷ ("from", text env.me)
      ∷ ("to", text to_user)
      ∷ ("payload", obj (to_fields payload))
      ∷ ("timestamp", num env.now)
      ∷ [])
  set_messages (edit_message msg_id new_text)

unfoldable pub delete : Env → String → String → Exec (Unit {0})
unfolding emit
delete env msg_id to_user = do
  emit env message_delete (
      ("msg_id", text msg_id)
      ∷ ("from", text env.me)
      ∷ ("to", text to_user)
      ∷ ("timestamp", num env.now)
      ∷ [])
  set_messages (delete_message msg_id)

-- `history`
abbrev history : Env → String → World → List Message
history env peer w = get_history peer env.me 100 w.messages
