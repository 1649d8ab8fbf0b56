-- ===== src/Server/Ws/Delivery.antt =====
-- Direct messages, room messages and sync of server/ws_server.py: what reaches whom.
use mathlib.Core.List.{Perm, map}
use chat_terminal.Common.{
  ℕ, ◌<◌, String, ◌≡◌, ◌⊎◌, refl, true, false, some, List, [], ◌∷◌, ◌++◌, arith, string_eq, ◌==◌,
  exists_row, Bool-cases, Option-cases, inl, inr, none, not, ltb, ◌&&◌, where_rows, ◌∙◌,
}
use chat_terminal.Common.Dict.{lookup, insert, lookup-insert}
use chat_terminal.Shared.Protocol.{
  num, text, texts, Packet, sync_response, error, delivery, make_packet, truthy,
}
use chat_terminal.Shared.Text.{strip, is_empty}
use chat_terminal.Server.World.{World, Env, Ws, Queued}
use chat_terminal.Server.Exec.{Outcome, ok, Exec, ◌>>=◌, ◌>>◌, pure, send, reply, new_id}
use chat_terminal.Server.Exec.Sends.{try_send_then-up, try_send_then-down, replied, reply-replied}
use chat_terminal.Server.Router
use chat_terminal.Server.Offline
use chat_terminal.Server.Offline.{get_queued, enqueue_row, clear_queue}
use chat_terminal.Server.Offline.Queue.{enqueue_row_queued, get_queued_lem, InOrder}
use chat_terminal.Server.Rooms.Membership.{is_member}
use chat_terminal.Server.Ws.Fields.{
  strip_field, get_default, get_or_null, need, as_text, truthy_text, stamp,
}
use chat_terminal.Server.Ws.Messages.{deliver, on_message, on_sync, as_number}
use chat_terminal.Server.Ws.Chats.{on_room_message}

-- Whether the recipient is connected on a socket that works
abbrev pub Reachable : Env → String → World → Ws → Type 0
Reachable env to_user w ws = (Router.get to_user w ≡ some ws) × (env.up ws ≡ true)

abbrev pub Unreachable : Env → String → World → Type 0
Unreachable env to_user w =
    (Router.get to_user w ≡ none)
    ⊎ ((ws : Ws) × (Router.get to_user w ≡ some ws) × (env.up ws ≡ false))

abbrev row_of : Env → String → String → String → Queued
row_of env id to_user raw = record {
  id = id;
  to_user = to_user;
  packet = raw;
  created_at = env.now;
}

-- The packet is a new row, which the recipient's next flush returns with the others.
abbrev pub Queues : Env → String → String → String → World → List Queued → Type 0
Queues env id to_user raw w rows =
    let row = row_of env id to_user raw in
    (rows ≡ w.offline_queue ++ row ∷ [])
    × Perm (get_queued to_user 0 rows) (row ∷ get_queued to_user 0 w.offline_queue)

module _ (env : Env) (key : Exec String) (to_user raw : String) (w : World) where
  pub deliver-up :
      (ws : Ws)
      → Reachable env to_user w ws
      → deliver env key to_user raw w
        ≡ (ok "delivered", record w { wire = w.wire ++ (ws, raw) ∷ [] })
  unfolding deliver
  deliver-up ws (e, up) =
      let said : String = "delivered" in
      rw
        (
          e,
          try_send_then-up env ws raw w said
              (do id ← key; Offline.enqueue env id to_user raw; pure "queued") up,
        )
        refl

  deliver-queued :
      (id : String)
      → key w ≡ (ok id, w)
      → Unreachable env to_user w
      → deliver env key to_user raw w ≡ (
        ok "queued",
        record w { offline_queue = enqueue_row (row_of env id to_user raw) w.offline_queue },
      )
  unfolding deliver Offline.enqueue
  deliver-queued id known (inl e) = rw (e, known) refl
  deliver-queued id known (inr (ws, e, down)) =
      let said : String = "delivered" in
      rw
        (
          e,
          try_send_then-down env ws raw w said
              (do i ← key; Offline.enqueue env i to_user raw; pure "queued") down,
          known,
        )
        refl

reachable :
    (env : Env) (to_user : String) (w : World)
    → ((ws : Ws) × Reachable env to_user w ws) ⊎ Unreachable env to_user w
reachable env to_user w = elim (Option-cases (Router.get to_user w)) [
  | inl e ↦ inr (inl e)
  | inr (ws, e) ↦ elim (Bool-cases (env.up ws)) [
    | inl up ↦ inl (ws, (e, up))
    | inr down ↦ inr (inr (ws, e, down))
  ]
]

enqueue_row-Queues :
    (env : Env) (id to_user raw : String) (w : World)
    → exists_row (λ q. q.id == id) w.offline_queue ≡ false
    → 0 < env.now
    → Queues env id to_user raw w (enqueue_row (row_of env id to_user raw) w.offline_queue)
unfolding enqueue_row
enqueue_row-Queues env id to_user raw w fresh late = (
  rw fresh refl,
  (enqueue_row_queued w.offline_queue (row_of env id to_user raw) to_user 0 fresh late).0 refl,
)

-- The sender's receipt for a message, on top of what the delivery has left
abbrev pub told : Env → Ws → String → String → World → Outcome (Unit {0}) × World
told env ws id status w =
    replied env ws delivery (("msg_id", text id) ∷ ("status", text status) ∷ []) w

module _ (env : Env) (ws : Ws) (username to_user id : String) (pkt : Packet) (w : World)
    (to : lookup "to" pkt ≡ some (text to_user)) (named : is_empty to_user ≡ false)
    (with_id : lookup "id" pkt ≡ some (text id)) where
  abbrev pub stamped : String
  stamped = env.dumps (insert "from" (text username) pkt)

  stamped-id : lookup "id" (stamp username pkt) ≡ some (text id)
  unfolding stamp
  stamped-id = lookup-insert "from" "id" (text username) pkt ∙ with_id

  abbrev pub packet_key : Exec String
  packet_key = (do v ← need "id" (stamp username pkt); as_text v)

  packet_key_lem : packet_key w ≡ (ok id, w)
  unfolding need as_text
  packet_key_lem = rw stamped-id refl

  pub receipt :
      (status : String) (w' : World)
      → deliver env packet_key to_user stamped w ≡ (ok status, w')
      → on_message env ws username pkt w ≡ told env ws id status w'
  unfolding on_message truthy_text need stamp
  receipt status w' delivered =
      let asked : get_or_null "to" pkt ≡ text to_user = rw (to, get_or_null) refl in
      let there : truthy (text to_user) ≡ true = rw (named, truthy) refl in
      rw (asked, there, delivered, stamped-id)
        (reply-replied env ws delivery (("msg_id", text id) ∷ ("status", text status) ∷ []) w')

  -- A direct message is not lost, and its sender is told what became of it. If the recipient is
  -- connected on a socket that works, the packet, stamped with the sender's name, goes there at
  -- once, and the receipt says "delivered"; otherwise, also when the recipient's socket fails, it
  -- is a new row of the queue, which the recipient's next flush returns with those that were
  -- there, and the receipt says "queued". Nothing else changes but the receipt's id. If the
  -- receipt cannot be sent, the handler raises after that. The recipient has a name, the packet
  -- has a text as its id, no queued row has that id, and the clock is past 0.
  pub on_message-told :
      exists_row (λ q. q.id == id) w.offline_queue ≡ false
      → 0 < env.now
      → ((target : Ws) × Reachable env to_user w target
          × (on_message env ws username pkt w
              ≡ told env ws id "delivered" (record w { wire = w.wire ++ (target, stamped) ∷ [] })))
        ⊎ ((rows : List Queued) × Unreachable env to_user w
            × (on_message env ws username pkt w
                ≡ told env ws id "queued" (record w { offline_queue = rows }))
            × Queues env id to_user stamped w rows)
  on_message-told fresh late = elim (reachable env to_user w) [
    | inl (target, reached) ↦ inl (
      target,
      reached,
      receipt "delivered" (record w { wire = w.wire ++ (target, stamped) ∷ [] })
          (deliver-up env packet_key to_user stamped w target reached),
    )
    | inr away ↦
        let rows = enqueue_row (row_of env id to_user stamped) w.offline_queue in
        inr (
          rows,
          away,
          receipt "queued" (record w { offline_queue = rows })
              (deliver-queued env packet_key to_user stamped w id packet_key_lem away),
          enqueue_row-Queues env id to_user stamped w fresh late,
        )
  ]

-- A sync with a number `since`, on a socket that works, sends the packets of the user's rows that are
-- newer than `since`, each as often as it is stored and the oldest first. It then removes all rows
-- of the user, so that the older ones are gone without having been sent; other users' rows stay.
pub on_sync_lem :
    (env : Env) (ws : Ws) (username : String) (pkt : Packet) (since : ℕ) (w : World)
    → get_default "since" (num 0) pkt ≡ num since
    → env.up ws ≡ true
    → (rows : List Queued) × Perm rows
        (where_rows (λ q. q.to_user == username && ltb since q.created_at) w.offline_queue)
      × InOrder 0 rows
      × ((on_sync env ws username pkt w).1.wire
          ≡ w.wire
            ++ (
              ws,
              env.dumps (
                  make_packet sync_response
                    (env.uuid w.drawn)
                    env.now
                    (("messages", texts (map (λ q. q.packet) rows)) ∷ [])),
            )
              ∷ [])
      × ((on_sync env ws username pkt w).1.offline_queue
          ≡ where_rows (λ q. not (q.to_user == username)) w.offline_queue)
unfolding on_sync reply send new_id Offline.flush Offline.clear as_number clear_queue
on_sync_lem env ws username pkt since w h up =
    let (all, ordered) = get_queued_lem username since w.offline_queue in
    (get_queued username since w.offline_queue, all, ordered, rw (h, up) refl, rw (h, up) refl)

strip_field_text :
    (k s : String) (pkt : Packet) (w : World)
    → lookup k pkt ≡ some (text s)
    → strip_field k pkt w ≡ (ok (strip s), w)
unfolding strip_field
strip_field_text k s pkt w e = ground (arith, e)

-- A room message from a user who is not in the room that it names goes to nobody: no table
-- changes, and the sender is answered by one error NOT_IN_ROOM, or, if that cannot be sent, the
-- handler raises and nothing is on the wire. The name of the room is not blank.
pub outsider_message :
    (env : Env) (ws : Ws) (username room_id : String) (pkt : Packet) (w : World)
    → lookup "room_id" pkt ≡ some (text room_id)
    → is_empty (strip room_id) ≡ false
    → is_member (strip room_id) username w ≡ false
    → on_room_message env ws username pkt w
      ≡ replied env ws error (("error", text "NOT_IN_ROOM") ∷ []) w
unfolding on_room_message
outsider_message env ws username room_id pkt w found named outside =
    rw (strip_field_text "room_id" room_id pkt w found, named, outside)
      (reply-replied env ws error (("error", text "NOT_IN_ROOM") ∷ []) w)
