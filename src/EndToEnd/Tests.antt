-- ===== src/EndToEnd/Tests.antt =====
-- A message that goes through both clients and the server.
use chat_terminal.Common.{◌≡◌, refl, true, none, some, [], ◌∷◌, ◌++◌, string_eq}
use chat_terminal.Common.Dict.{lookup}
use chat_terminal.Common.Exec.{ok}
use chat_terminal.Shared.Protocol.{obj, Packet}
use chat_terminal.Shared.Text.{strip, is_space, lstrip}
use chat_terminal.Shared.Words
use chat_terminal.Server.World as Server
use chat_terminal.Server.World.Samples as Samples
use chat_terminal.Server.RateLimiter
use chat_terminal.Server.Router
use chat_terminal.Server.Ws.{Conn, next, on_raw}
use chat_terminal.Server.Ws.Forwarding.{forwarded, admitted}
use chat_terminal.Client.Samples.{tally}
use chat_terminal.Client.MessageHandler.{to_fields}
use chat_terminal.Client.MessageHandler.Fixtures.{exchange}
use chat_terminal.Client.Db.Messages.{new_message, save, mark_read, unread_count}
use chat_terminal.Client.App.{is_room_chat, open_chat}
use chat_terminal.Client.App.Fixtures.{host, alice_app, bob_app}
use chat_terminal.Client.App.Commands.{submit}
use chat_terminal.Client.App.Router.{on_server_message}
use chat_terminal.EndToEnd.Message.{last_sent, on_server_message-on_raw-submit}

-- Both are connected, alice on socket 1 and bob on socket 2.
abbrev both : Server.World
both = record Samples.world { connections = ("alice", 1) ∷ ("bob", 2) ∷ [] }

abbrev conn : Conn
conn = record { ws = 1; remote = some "10.0.0.1" }

-- What alice's client sends, and the text that the server reads of it
abbrev greeting : Packet
greeting = last_sent (submit host alice_app).1.world.outbox

abbrev server : Server.Env
server = record Samples.env { loads = λ s. some (obj (to_fields greeting)) }

on_server_message-on_raw-submit_example :
    let b' = (on_server_message host (λ raw. none) greeting bob_app).1 in
    ((submit host alice_app).1.world.outbox ≡ [] ++ greeting ∷ [])
    × (on_raw server conn (some "alice") "text" both ≡ (
      ok (next (some "alice")),
      forwarded server 1 2 "id" greeting (admitted server "alice" both),
    ))
    × (b'.world.messages
        ≡ mark_read "alice" "bob" (save (new_message "id" "alice" "bob" "hi" 1000 true) []))
    × (lookup "alice" b'.unread ≡ some (unread_count "alice" b'.username b'.world.messages))
unfolding strip is_space lstrip Words.starts_with open_chat is_room_chat Router.get
    RateLimiter.allow lookup
on_server_message-on_raw-submit_example =
    on_server_message-on_raw-submit host host (λ raw. none) alice_app bob_app (tally (4 ∷ []))
      (4 ∷ []) (4 ∷ []) (13 ∷ []) server conn "text" 2 both refl refl refl refl refl refl refl refl
      exchange refl refl refl refl refl
