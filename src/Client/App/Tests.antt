-- ===== src/Client/App/Tests.antt =====
-- Witnesses and tests of the application.
use chat_terminal.Common.{◌≡◌, refl, true, none, some, [], ◌∷◌, string_eq}
use chat_terminal.Common.Dict.{lookup, insert, erase}
use chat_terminal.Common.Exec.{ok}
use chat_terminal.Shared.Protocol.{msg_type, Fields, field, bool, obj, text, arr, nil, cons, Packet}
use chat_terminal.Shared.Text.{strip, is_space, lstrip}
use chat_terminal.Shared.Words
use chat_terminal.Client.Samples.{plain_aead, tally}
use chat_terminal.Client.Fixtures.{empty}
use chat_terminal.Client.Keygen.{Vault, decrypt_private_key}
use chat_terminal.Client.MessageHandler as Direct
use chat_terminal.Client.MessageHandler.{payload_for}
use chat_terminal.Client.Screens.{unlock}
use chat_terminal.Client.Db.Messages.{unread_count}
use chat_terminal.Client.App.{Host, env, is_room_chat, open_chat, set_notice}
use chat_terminal.Client.App.Fixtures.{host, app}
use chat_terminal.Client.App.Commands.{submit, run_command}
use chat_terminal.Client.App.Callbacks.{on_new_message}
use chat_terminal.Client.App.Router.{on_server_message}
use chat_terminal.Client.App.Login.{Prompt}
use chat_terminal.Client.App.Login
use chat_terminal.Client.App.Keys.{handle_key}
use chat_terminal.Client.App.Editor.{Shows, press, onto, handle_key-press}
use chat_terminal.Client.App.Unread.{on_new_message-counted}
use chat_terminal.Client.App.Sending.{Settled, submit-Settled}
use chat_terminal.Client.App.Locked.{unlock-wrong, unlock-letters, has_none}

at_a : Shows (record { before = "a"; after = "c" }) app
unfolding onto
at_a = record { line = refl; place = refl }

-- The key is b.
handle_key-press_example :
    Shows (press 98 (record { before = "a"; after = "c" })) (handle_key host 98 app).1
handle_key-press_example =
    handle_key-press host 98 (record { before = "a"; after = "c" }) app refl refl at_a

typed_b : (handle_key host 98 app).1.buf ≡ "abc"
unfolding handle_key
typed_b = refl

submit-Settled_example :
    Settled host "bob" app (Direct.send (env host app) "bob" "ac" empty) (submit host app)
unfolding submit strip is_space lstrip Words.starts_with open_chat is_room_chat
submit-Settled_example = submit-Settled host app "bob" refl refl refl refl refl

abbrev greeting : Packet
greeting = ("from", text "bob") ∷ ("id", text "m") ∷ []

on_new_message-counted_example :
    lookup "bob" (on_new_message host greeting app).1.unread
    ≡ some (
        unread_count "bob"
          (on_new_message host greeting app).1.username
          (on_new_message host greeting app).1.world.messages)
unfolding lookup
on_new_message-counted_example = on_new_message-counted host greeting "bob" app refl

-- A vault that opens nothing
abbrev vault : Vault
vault = record {
  aead = plain_aead;
  derive_key = λ password salt. [];
  b64encode = tally;
  b64decode = λ s. none;
}

abbrev prompt : Prompt
prompt = record {
  asked = none;
  unlocked = some "wrong";
  vault = vault;
  server_url = "";
  private_key = [];
  salt = [];
  nonce = [];
}

unlock-wrong_example :
    let a' = (Login.unlock host prompt "stored" "wrong" app).1 in
    (a'.logged_in ≡ true)
    × (a'.notice ≡ Words.concat ("Logged in as " ∷ "alice" ∷ []))
    × (payload_for (env host a') "bob" "hi" empty ≡ (ok (("text", text "hi") ∷ []), empty))
unfolding decrypt_private_key
unlock-wrong_example = unlock-wrong host prompt "stored" "wrong" app "bob" "hi" empty refl refl refl

-- The keys are a, backspace, b and Enter.
unlock-letters_example : has_none "b" ≡ true
unfolding unlock
unlock-letters_example = unlock-letters (97 ∷ 127 ∷ 98 ∷ 10 ∷ 9 ∷ []) (9 ∷ []) "b" refl

-- Who types secret is asked for nothing more.
secret_skips : unlock (115 ∷ 101 ∷ 99 ∷ []) ≡ some (some "", 101 ∷ 99 ∷ [])
unfolding unlock
secret_skips = refl

abbrev online : Packet
online = ("users", arr (cons (text "bob") (cons (text "alice") nil))) ∷ []

-- The response to a request for a room, which comes in the course of the wait
abbrev created : Packet
created =
    ("type", text "ROOM_INFO")
    ∷ ("req_id", text "id")
    ∷ ("success", bool true)
    ∷ ("room", obj (field "id" (text "r1") (field "name" (text "team") Fields.end)))
    ∷ []

abbrev answering : Host
answering = record host {
  meanwhile = λ req_id a. (on_server_message host (λ raw. none) created a).1;
}

room_created : (run_command answering "/room create team" app).1.current_chat ≡ some "room:r1"
unfolding run_command on_server_message lookup set_notice insert erase msg_type
room_created = refl

dm_opened : (submit host (record app { buf = " /dm @carol" })).1.current_chat ≡ some "carol"
unfolding submit is_space set_notice
dm_opened = refl
