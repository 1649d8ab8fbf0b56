-- ===== src/Client/MessageHandler/Tests.antt =====
-- Witnesses of direct messages.
use chat_terminal.Common.{◌≡◌, refl, true, [], ◌∷◌, string_eq}
use chat_terminal.Common.Dict.{lookup, insert}
use chat_terminal.Common.Exec.{ok, raise}
use chat_terminal.Server.Ws.Fields.{get_or_null}
use chat_terminal.Shared.Protocol.{text, obj, Packet}
use chat_terminal.Client.World.{World, text_or}
use chat_terminal.Client.Db.Messages.{new_message, save}
use chat_terminal.Client.MessageHandler.{
  send, handle_incoming, handle_edit, handle_delete, to_fields, plaintext_or, is_sealed,
}
use chat_terminal.Client.MessageHandler.Delivery.{handle_incoming-send, handle_edit-stranger}
use chat_terminal.Client.Samples.{tally}
use chat_terminal.Client.Fixtures.{user, empty}
use chat_terminal.Client.MessageHandler.Fixtures.{knowing, exchange}

handle_incoming-send_example :
    (pkt : Packet) × ((send (user "alice") "bob" "hi" knowing).1.outbox ≡ pkt ∷ [])
    × ((handle_incoming (user "bob") pkt empty).1.messages
        ≡ save (new_message "id" "alice" "bob" "hi" 1000 true) [])
handle_incoming-send_example =
    handle_incoming-send (user "alice") (user "bob") knowing empty "hi" (tally (4 ∷ [])) (4 ∷ [])
      (4 ∷ []) (13 ∷ []) refl exchange

-- Eve's packet, which names bob's message of alice
abbrev change : Packet
change =
    ("msg_id", text "id")
    ∷ ("from", text "alice")
    ∷ ("payload", obj (to_fields (("text", text "bye") ∷ [])))
    ∷ []

-- bob has alice's message.
abbrev holding : World
holding = record empty { messages = new_message "id" "alice" "bob" "hi" 1000 true ∷ [] }

says_bye : plaintext_or raise (user "bob") (("text", text "bye") ∷ []) holding ≡ (ok "bye", holding)
unfolding plaintext_or is_sealed text_or get_or_null lookup
says_bye = refl

handle_edit-stranger_example :
    let forged = insert "from" (text "eve") change in
    let row = new_message "id" "alice" "bob" "hi" 1000 true in
    (handle_edit (user "bob") forged holding
      ≡ (ok tt, record holding { messages = record row { plaintext = "bye"; edited = true } ∷ [] }))
    × (handle_delete forged holding
        ≡ (ok tt, record holding { messages = record row { deleted = true } ∷ [] }))
unfolding lookup
handle_edit-stranger_example =
    handle_edit-stranger (user "bob") holding change (("text", text "bye") ∷ []) "eve" "id" "bye"
      refl refl refl says_bye
