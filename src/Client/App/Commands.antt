-- ===== src/Client/App/Commands.antt =====
-- client/app.py: what is done with a line that has been typed.
use chat_terminal.Common.{
  ℕ, String, true, false, ◌||◌, Option, none, some, List, [], ◌∷◌, string_eq, ◌==◌, if◌then◌else◌,
}
use chat_terminal.Common.Exec.{Outcome, ok, raised, gets, modify, ◌>>=◌, ◌>>◌, skip, try_else}
use chat_terminal.Shared.Protocol.{
  text, obj, Fields, field, message_edit, message_delete, auth_logout, status,
}
use chat_terminal.Shared.Text.{is_empty, strip}
use chat_terminal.Shared.Words.{starts_with, split, after_words, part, lstrip_at}
use Prim.Native.String.{count}
use chat_terminal.Client.World.{World, Message}
use chat_terminal.Client.Db.Messages.{
  new_message, save, edit_message, delete_message, update_last_message,
}
use chat_terminal.Client.Db.Contacts.{get_account, clear_session_token}
use chat_terminal.Client.MessageHandler as Direct
use chat_terminal.Client.App.{
  App, Act, Host, on_world, notify, send_pkt, is_room_chat, room_id_from_key, open_chat,
  load_messages, request_public_key, refresh_contacts, set_unread,
}
use chat_terminal.Client.App.Callbacks.{add, read_all}
use chat_terminal.Client.App.Rooms.{send_message, room_command, open_at, with_argument}
use chat_terminal.Client.App.Files.{file_command}
use chat_terminal.Client.App.Calls.{call_command, verify_command}

-- The chat is opened and what it shows is read.
unfoldable pub opened : String → App → App
unfolding load_messages read_all refresh_contacts
opened target a =
    refresh_contacts (set_unread target 0 (read_all target (load_messages (open_at target a))))

-- The body of `/dm`
unfoldable pub open_dm : Host → String → Act (Unit {0})
unfolding add request_public_key opened
open_dm host target = do
  me ← gets (λ a. a.username)
  if target == me then notify host ("You cannot open a DM with yourself." ∷ []) else (do
    modify (add host target)
    request_public_key host target
    modify (opened target)
    notify host ("Opened chat with " ∷ target ∷ []))

abbrev pub set_messages : (List Message → List Message) → App → App
set_messages f a = record a { world = record a.world { messages = f a.world.messages } }

-- The body of `/edit` in an open chat
unfoldable pub edit : Host → String → String → String → Act (Unit {0})
unfolding is_room_chat room_id_from_key send_pkt edit_message on_world Direct.edit load_messages
edit host chat msg_id new_text =
    if is_room_chat chat
    then (do
      me ← gets (λ a. a.username)
      send_pkt host message_edit (
          ("msg_id", text msg_id)
          ∷ ("room_id", text (room_id_from_key chat))
          ∷ ("payload", obj (field "text" (text new_text) Fields.end))
          ∷ ("from", text me)
          ∷ [])
      modify (set_messages (edit_message msg_id new_text))
      modify load_messages)
    else (do
      ready ← gets (λ a. a.logged_in)
      if ready
          then try_else
              (on_world host (λ e. Direct.edit e msg_id chat new_text) >> modify load_messages)
              (notify host ("Edit failed: " ∷ host.exc ∷ []))
          else modify load_messages)

-- The body of `/delete` in an open chat
unfoldable pub delete : Host → String → String → Act (Unit {0})
unfolding is_room_chat room_id_from_key send_pkt delete_message on_world Direct.delete load_messages
delete host chat msg_id =
    (if is_room_chat chat
      then (do
        me ← gets (λ a. a.username)
        send_pkt host message_delete (
            ("msg_id", text msg_id)
            ∷ ("room_id", text (room_id_from_key chat))
            ∷ ("from", text me)
            ∷ [])
        modify (set_messages (delete_message msg_id)))
      else (do
        ready ← gets (λ a. a.logged_in)
        if ready then on_world host (λ e. Direct.delete e msg_id chat) else skip))
    >> modify load_messages

-- A command on the chat that is open
abbrev in_chat : Host → (String → Act (Unit {0})) → Act (Unit {0})
in_chat host action = do
  chat ← gets open_chat
  elim chat [ none ↦ notify host ("Open a chat first." ∷ []) | some c ↦ action c ]

abbrev forget_token : App → App
forget_token a = record a {
  world = record a.world { account = clear_session_token a.world.account };
}

abbrev stop : App → App
stop a = record a { running = false }

-- The session token of the account, if it is there and is not empty
unfoldable pub session_token : World → Option String
unfolding get_account
session_token w = elim (get_account w.account) [
  | none ↦ none
  | some account ↦ elim account.session_token [
    | none ↦ none
    | some t ↦ if is_empty t then none else some t
  ]
]

unfoldable pub logout : Host → Act (Unit {0})
unfolding session_token send_pkt clear_session_token
logout host = do
  token ← gets (λ a. session_token a.world)
  elim token [ none ↦ skip | some t ↦ send_pkt host auth_logout (("token", text t) ∷ []) ]
  modify forget_token
  notify host ("Logged out. Restart the client to choose another account." ∷ [])
  modify stop

-- `_run_command`
unfoldable pub run_command : Host → String → Act (Unit {0})
unfolding split part lstrip_at after_words open_dm room_command file_command call_command
    verify_command edit delete open_chat logout send_pkt
run_command host line =
    let parts = split line in
    let cmd = host.lower (part 0 parts) in
    if cmd == "/dm"
    then with_argument host 2 "Usage: /dm @username" parts (open_dm host (lstrip_at (part 1 parts)))
    else if cmd == "/room"
    then room_command host parts
    else if cmd == "/file"
    then file_command host parts line
    else if cmd == "/call"
    then call_command host parts
    else if cmd == "/verify"
    then verify_command host parts
    else if cmd == "/edit"
    then with_argument host 3 "Usage: /edit <message_id> <new text>" parts
        (in_chat host (λ chat. edit host chat (part 1 parts) (after_words 2 line)))
    else if cmd == "/delete"
    then with_argument host 2 "Usage: /delete <message_id>" parts
        (in_chat host (λ chat. delete host chat (part 1 parts)))
    else if cmd == "/quit" || cmd == "/exit" || cmd == "/q"
    then modify stop
    else if cmd == "/logout"
    then logout host
    else if cmd == "/online"
    then send_pkt host status [] >> notify host ("Fetching online users…" ∷ [])
    else if cmd == "/clear"
    then modify (λ a. record a { messages = []; dirty = true })
    else if cmd == "/help"
    then notify host ("/dm  /room  /file  /call  /verify @user  /edit  /delete  /logout" ∷ [])
    else notify host ("Unknown command: " ∷ cmd ∷ "   /help for list" ∷ [])

abbrev pub set_line : String → ℕ → App → App
set_line line cursor a = record a { buf = line; cursor = cursor }

-- The line is given back, with the cursor at its end.
abbrev pub not_sent : Host → String → String → Act (Unit {0})
not_sent host line failure =
    notify host (failure ∷ host.exc ∷ []) >> modify (set_line line (count line))

abbrev posted : Host → String → String → String → App → App
posted host msg_id room_id line a = record a {
  world = record a.world {
    messages =
        save (new_message msg_id a.username room_id line host.base.now false) a.world.messages;
    rooms = update_last_message room_id line a.world.rooms;
  };
}

-- What a `try` has come to: what was returned, or that it raised
abbrev pub attempted : {A : Type 0} → Act A → Act (Outcome A)
attempted m a = let (r, a') = m a in (ok r, a')

unfoldable pub after_direct : Host → String → Outcome String → Act (Unit {0})
unfolding load_messages
after_direct host line (ok _) = modify load_messages
after_direct host line raised = not_sent host line "Message not sent: "

unfoldable pub after_room : Host → String → String → Outcome String → Act (Unit {0})
unfolding save update_last_message load_messages
after_room host room_id line (ok msg_id) =
    modify (posted host msg_id room_id line) >> modify load_messages
after_room host room_id line raised = not_sent host line "Room message not sent: "

-- A message to the chat that is open. Only the sending is in the try.
unfoldable pub send_line : Host → String → String → Act (Unit {0})
unfolding is_room_chat room_id_from_key send_message after_room on_world Direct.send after_direct
send_line host chat line =
    if is_room_chat chat
    then attempted (send_message host (room_id_from_key chat) line)
      >>= after_room host (room_id_from_key chat) line
    else attempted (on_world host (λ e. Direct.send e chat line)) >>= after_direct host line

-- A line that is neither empty nor a command
unfoldable pub plain_line : Host → String → Act (Unit {0})
unfolding open_chat send_line
plain_line host line = do
  chat ← gets open_chat
  ready ← gets (λ a. a.logged_in)
  elim chat [
    | none ↦ notify host ("No chat open. Use /dm @username to start a chat." ∷ [])
    | some c ↦ if ready then send_line host c line else notify host ("Not connected yet." ∷ [])
  ]

-- `_submit`
unfoldable pub submit : Host → Act (Unit {0})
unfolding strip starts_with run_command plain_line
submit host = do
  line ← gets (λ a. strip a.buf)
  modify (λ a. record a { buf = ""; cursor = 0; dirty = true })
  if is_empty line
      then skip
      else if starts_with "/" line
      then run_command host line
      else plain_line host line
