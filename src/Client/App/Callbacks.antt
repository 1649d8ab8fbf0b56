-- ===== src/Client/App/Callbacks.antt =====
-- client/app.py: what the application does when a handler has a message, an offer or a call for it.
use Prim.Native.Char.{char}
use chat_terminal.Common.{
  ℕ, suc, ◌-◌, min, String, Bool, true, false, ◌||◌, Option, none, some, List, [], ◌∷◌, ◌++◌,
  string_eq, ◌==◌, if◌then◌else◌, nat_beq,
}
use chat_terminal.Common.Dict.{lookup, insert, erase}
use chat_terminal.Common.Exec.{pure, raise, gets, modify, ◌>>=◌, ◌>>◌, skip}
use chat_terminal.Shared.Protocol.{
  Json, null, num, text, arr, obj, Items, nil, cons, Packet, MsgType, truthy,
}
use chat_terminal.Shared.Text.{is_empty, str_append}
use chat_terminal.Shared.Words.{starts_with, str_take, repeated}
use chat_terminal.Server.Ws.Fields.{to_packet, get_or_null}
use chat_terminal.Client.FileCrypto.{Bytes}
use chat_terminal.Client.Envelope
use chat_terminal.Client.FileHandler.{Meta}
use chat_terminal.Client.CallHandler.Incoming.{text_option}
use chat_terminal.Client.MessageHandler.{payload_of}
use chat_terminal.Client.World.{Env, Exec, draw, text_or, truthy_text, timestamp_or_now}
use chat_terminal.Client.Db.Messages.{
  new_message, save, mark_read, unread_count, update_last_message,
}
use chat_terminal.Client.Db.Contacts.{add_contact}
use chat_terminal.Client.App.{
  App, Act, Host, env, on_world, notify, send_pkt, room_key, is_open, load_messages,
  refresh_contacts, set_unread,
}

each : (Packet → Act (Unit {0})) → List Packet → Act (Unit {0})
each callback [] = skip
each callback (event ∷ events) = callback event >> each callback events

-- A handler's method, and the callback that it makes. No callback of a file or of a call touches the
-- world, and that of a message is the last thing that its handler does.
unfoldable pub called_back :
    Host → (Packet → Act (Unit {0})) → (Env → Exec (Unit {0})) → Act (Unit {0})
unfolding each
called_back host callback method a =
    let (r, w) = method (env host a) (record a.world { shown = [] }) in
    (each callback w.shown >> λ b. (r, b))
      (record a { world = record w { shown = a.world.shown ++ w.shown } })

unfoldable pub add : Host → String → App → App
unfolding add_contact
add host username a = record a {
  world = record a.world { contacts = add_contact host.base.now username none a.world.contacts };
}

unfoldable pub read_all : String → App → App
unfolding mark_read
read_all peer a = record a {
  world = record a.world { messages = mark_read peer a.username a.world.messages };
}

-- A message of the one whose chat is open, or of another
unfoldable pub announced : Host → Packet → String → Bool → Act (Unit {0})
unfolding load_messages read_all send_pkt get_or_null unread_count
announced host pkt sender true = do
  modify load_messages
  modify (read_all sender)
  send_pkt host MsgType.read (("to", text sender) ∷ ("msg_id", get_or_null "id" pkt) ∷ [])
  modify (set_unread sender 0)
announced host pkt sender false =
    modify (λ a. set_unread sender (unread_count sender a.username a.world.messages) a)

-- `_on_new_message`
unfoldable pub on_new_message : Host → Packet → Act (Unit {0})
unfolding on_world add announced refresh_contacts
on_new_message host pkt = do
  sender ← on_world host (λ _. text_or "" "from" pkt)
  modify (add host sender)
  here ← gets (is_open sender)
  announced host pkt sender here
  modify refresh_contacts

contains_text : String → Items → Bool
contains_text s nil = false
contains_text s (cons (text t) rest) = s == t || contains_text s rest
contains_text s (cons _ rest) = contains_text s rest

is_part : String → String → Bool
unfolding starts_with
is_part s String.[] = starts_with s String.[]
is_part s (String.◌∷◌ c rest) = starts_with s (String.◌∷◌ c rest) || is_part s rest

-- `decrypt_message(payloads[me], private_key)`, or what stands for it when that raises
abbrev opened : Env → Bytes → Json → String
opened e private_key (obj fs) = elim (Envelope.decrypt_message e.suite (to_packet fs) private_key) [
  | none ↦ "[encrypted - decryption failed]"
  | some plaintext ↦ plaintext
]
opened e private_key _ = "[encrypted - decryption failed]"

-- The user's payload, in what is no dict only if `in` finds the name there
unfoldable pub payload_in : Env → Json → Exec (Option Json)
unfolding contains_text is_part
payload_in e (obj fs) = pure (lookup e.me (to_packet fs))
payload_in e (arr js) = pure (if contains_text e.me js then some null else none)
payload_in e (text s) = pure (if is_part e.me s then some null else none)
payload_in e _ = raise

-- The text of a room's message
unfoldable pub room_text : Env → Packet → Exec String
unfolding payload_of text_or truthy payload_in get_or_null
room_text e pkt =
    let payloads = get_or_null "payloads" pkt in
    if truthy payloads
    then (do
      mine ← payload_in e payloads
      elim mine [
        | none ↦ pure "[encrypted - locked]"
        | some v ↦ elim e.private_key [
          | none ↦ pure "[encrypted - locked]"
          | some private_key ↦ pure (opened e private_key v)
        ]
      ])
    else payload_of pkt >>= λ payload. text_or "" "text" payload

-- `if room_id:`
abbrev stored : String → String → String → String → ℕ → App → App
stored room_id msg_id sender plaintext ts a = if is_empty room_id then a else record a {
  world = record a.world {
    messages = save (new_message msg_id sender room_id plaintext ts true) a.world.messages;
    rooms = update_last_message room_id plaintext a.world.rooms;
  };
}

abbrev one_more : String → App → App
one_more key a = set_unread key (suc (elim (lookup key a.unread) [ none ↦ 0 | some n ↦ n ])) a

-- `_on_room_message`
unfoldable pub on_room_message : Host → Packet → Act (Unit {0})
unfolding on_world room_text truthy_text timestamp_or_now draw save update_last_message room_key
    load_messages refresh_contacts
on_room_message host pkt = do
  sender ← on_world host (λ _. text_or "" "from" pkt)
  room_id ← on_world host (λ _. text_or "" "room_id" pkt)
  plaintext ← on_world host (λ e. room_text e pkt)
  given ← on_world host (λ _. truthy_text "id" pkt)
  msg_id ← elim given as (λ _. Act String) [
    | none ↦ on_world host (λ e. draw e.uuid)
    | some id ↦ pure id
  ]
  ts ← on_world host (λ e. timestamp_or_now e pkt)
  modify (stored room_id msg_id sender plaintext ts)
  modify
      (λ a. if is_open (room_key room_id) a then load_messages a else one_more (room_key room_id) a)
  modify refresh_contacts

need_text : String → Packet → Act String
need_text k event = elim (lookup k event) [
  | none ↦ raise
  | some v ↦ elim v [ text s ↦ pure s | _ ↦ raise ]
]

need_num : String → Packet → Act ℕ
need_num k event = elim (lookup k event) [
  | none ↦ raise
  | some v ↦ elim v [ num n ↦ pure n | _ ↦ raise ]
]

-- `_on_file_offer`
unfoldable pub on_file_offer : Host → Packet → Act (Unit {0})
unfolding need_text need_num str_take
on_file_offer host event = do
  file_id ← need_text "file_id" event
  name ← need_text "name" event
  total ← need_num "total_chunks" event
  sender ← need_text "from_user" event
  key ← need_text "file_key" event
  let meta : Meta = record { name = name; total_chunks = total; from_user = sender; file_key = key }
  modify (λ a. record a { file_offers = insert file_id meta a.file_offers })
  notify host ("File offer " ∷ str_take 8 file_id ∷ " from " ∷ sender ∷ ": " ∷ name ∷ [])

-- The bar of `_on_file_progress`
unfoldable pub progress_bar : Host → ℕ → String
unfolding repeated
progress_bar host pct =
    let filled = min 10 (host.tenths pct) in
    str_append (repeated (char 35 tt) filled) (repeated (char 45 tt) (10 - filled))

-- `_on_file_progress`
unfoldable pub on_file_progress : Host → String → ℕ → ℕ → Act (Unit {0})
unfolding progress_bar str_take
on_file_progress host file_id done total = do
  modify (λ a. record a { file_progress = insert file_id (done, total) a.file_progress })
  let pct = if nat_beq total 0 then 100 else host.percent done total
  notify host (
      "File "
      ∷ str_take 8 file_id
      ∷ " ["
      ∷ progress_bar host pct
      ∷ "] "
      ∷ host.decimal pct
      ∷ "%"
      ∷ [])

-- `_on_incoming_call`
unfoldable pub on_incoming_call : Host → Packet → Act (Unit {0})
unfolding need_text get_or_null
on_incoming_call host event = do
  session_id ← need_text "session_id" event
  caller ← need_text "caller" event
  let key = text_option (get_or_null "ephemeral_pubkey" event)
  modify (λ a. record a { pending_calls = insert session_id (caller, key) a.pending_calls })
  notify host ("Incoming call from " ∷ caller ∷ ": /call accept " ∷ session_id ∷ [])

-- `_on_call_ended`
unfoldable pub on_call_ended : Host → Packet → Act (Unit {0})
unfolding need_text str_take
on_call_ended host event = do
  session_id ← need_text "session_id" event
  reason ← need_text "reason" event
  modify (λ a. record a { pending_calls = erase session_id a.pending_calls })
  notify host ("Call " ∷ str_take 8 session_id ∷ " " ∷ reason ∷ [])

-- An event of the call handler: only an invitation names a caller.
unfoldable pub on_call_event : Host → Packet → Act (Unit {0})
unfolding on_incoming_call on_call_ended
on_call_event host event = elim (lookup "caller" event) [
  | none ↦ on_call_ended host event
  | some _ ↦ on_incoming_call host event
]
