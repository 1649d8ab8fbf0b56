-- ===== src/Client/RoomHandler/Tests.antt =====
-- Witnesses of room requests.
use chat_terminal.Common.{◌≡◌, refl, none, some, [], ◌∷◌, string_eq}
use chat_terminal.Common.Dict.{lookup}
use chat_terminal.Common.Exec.{ok}
use chat_terminal.Shared.Protocol.{text, Packet}
use chat_terminal.Client.World.{World}
use chat_terminal.Client.RoomHandler.{awaited, handle_room_info}
use chat_terminal.Client.RoomHandler.Pending.{handle_room_info-awaited}
use chat_terminal.Client.Fixtures.{empty}

-- Two requests are waited for.
abbrev waiting : World
waiting = record empty { pending = ("a", []) ∷ ("b", []) ∷ [] }

abbrev info : Packet
info = ("req_id", text "b") ∷ []

handle_room_info-awaited_example :
    let w' = (handle_room_info info waiting).1 in
    ((awaited "b" w').0 ≡ ok (some info))
    × ((awaited "a" w').0 ≡ (awaited "a" waiting).0)
    × (lookup "b" (awaited "b" w').1.pending ≡ none)
unfolding lookup
handle_room_info-awaited_example = handle_room_info-awaited waiting info "b" "a" refl refl refl
