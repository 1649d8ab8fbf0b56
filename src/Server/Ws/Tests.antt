-- ===== src/Server/Ws/Tests.antt =====
-- Witnesses of the websocket server.
use mathlib.Core.List.{map, Perm}
use chat_terminal.Common.{
  ℕ, ◌⊎◌, ◌≡◌, refl, false, none, some, [], ◌∷◌, ◌++◌, string_eq, ◌==◌, arith, List, not, ◌&&◌, ltb,
  where_rows,
}
use chat_terminal.Common.Dict.{lookup, insert}
use chat_terminal.Server.Rooms.Membership.{is_member}
use chat_terminal.Shared.Protocol.{
  Packet, text, num, texts, Fields, field, msg_type, make_packet, sync_response, error,
}
use chat_terminal.Shared.Text.{strip, is_empty}
use chat_terminal.Server.World.Samples.{env, world}
use chat_terminal.Server.Router
use chat_terminal.Server.Rooms.{get_members}
use chat_terminal.Server.Offline.Queue.{InOrder}
use chat_terminal.Server.RateLimiter
use chat_terminal.Server.World.{Queued}
use chat_terminal.Server.Exec.Sends.{replied}
use chat_terminal.Server.Ws.{Conn, rate_key, on_raw, finish}
use chat_terminal.Server.Ws.Fields.{to_packet, get_default}
use chat_terminal.Server.Ws.Gate.{refused, reason_for, is_public, unauthenticated_packet}
use chat_terminal.Server.Ws.Presence.{OnlyPresence, finish_unregisters}
use chat_terminal.Server.Ws.Delivery.{
  Reachable, Unreachable, Queues, told, on_message-told, on_sync_lem, outsider_message,
}
use chat_terminal.Server.Ws.Messages.{on_message, on_sync}
use chat_terminal.Server.Ws.Chats.{on_room_message}

abbrev conn : Conn
conn = record { ws = 5; remote = some "10.0.0.1" }

ping_private : is_public (msg_type (to_packet (field "type" (text "PING") Fields.end))) ≡ false
unfolding msg_type to_packet lookup
ping_private = refl

unauthenticated_packet_example :
    let (limiter, allowed) = RateLimiter.allow world.limiter (rate_key conn none) env.clock in
    on_raw env conn none "ping" world
    ≡ refused env 5 (reason_for allowed) (record world { limiter = limiter })
unauthenticated_packet_example =
    unauthenticated_packet env conn world "ping" (field "type" (text "PING") Fields.end) refl
      ping_private

alice_named : is_empty "alice" ≡ false
alice_named = refl

-- The connection on socket 5 ends, and Alice's registration on socket 1 goes with it.
finish_unregisters_example :
    (Router.get "alice" (finish env conn (some "alice") world).1 ≡ none)
    × OnlyPresence world (finish env conn (some "alice") world).1
finish_unregisters_example = finish_unregisters env conn "alice" world alice_named

abbrev to_carol : Packet
to_carol = ("to", text "carol") ∷ ("id", text "m2") ∷ []

-- Carol's socket is closed, so that the packet waits.
on_message-told_example :
    let raw = env.dumps (insert "from" (text "bob") to_carol) in
    ((target : ℕ) × Reachable env "carol" world target
      × (on_message env 2 "bob" to_carol world
          ≡ told env 2 "m2" "delivered" (record world { wire = [] ++ (target, raw) ∷ [] })))
    ⊎ ((rows : List Queued) × Unreachable env "carol" world
        × (on_message env 2 "bob" to_carol world
            ≡ told env 2 "m2" "queued" (record world { offline_queue = rows }))
        × Queues env "m2" "carol" raw world rows)
unfolding lookup
on_message-told_example =
    on_message-told env 2 "bob" "carol" "m2" to_carol world refl refl refl refl (omega arith)

abbrev since_600 : Packet
since_600 = ("since", num 600) ∷ []

since_read : get_default "since" (num 0) since_600 ≡ num 600
unfolding get_default lookup
since_read = refl

on_sync_lem_example :
    (rows : List Queued) × Perm rows
      (where_rows (λ q. q.to_user == "bob" && ltb 600 q.created_at) world.offline_queue)
    × InOrder 0 rows
    × ((on_sync env 2 "bob" since_600 world).1.wire
        ≡ []
          ++ (
            2,
            env.dumps (
                make_packet sync_response "id0" 1000
                  (("messages", texts (map (λ q. q.packet) rows)) ∷ [])),
          )
            ∷ [])
    × ((on_sync env 2 "bob" since_600 world).1.offline_queue
        ≡ where_rows (λ q. not (q.to_user == "bob")) world.offline_queue)
on_sync_lem_example = on_sync_lem env 2 "bob" since_600 600 world since_read refl

abbrev to_den : Packet
to_den = ("room_id", text "r1") ∷ ("body", text "hi") ∷ []

bob_outside : is_member (strip "r1") "bob" world ≡ false
unfolding get_members strip
bob_outside = refl

den_named : is_empty (strip "r1") ≡ false
unfolding strip
den_named = refl

den_read : lookup "room_id" to_den ≡ some (text "r1")
unfolding lookup
den_read = refl

outsider_message_example :
    on_room_message env 2 "bob" to_den world
    ≡ replied env 2 error (("error", text "NOT_IN_ROOM") ∷ []) world
outsider_message_example =
    outsider_message env 2 "bob" "r1" to_den world den_read den_named bob_outside
