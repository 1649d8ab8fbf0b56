-- ===== src/Client/RoomHandler/Pending.antt =====
-- Responses of client/handlers/room.py reach the request that they answer.
use chat_terminal.Common.{
  ◌≡◌, refl, sym, ap, ◌∙◌, arith, String, false, Option, none, some, List, [], ◌∷◌, ◌++◌, string_eq,
  beq_refl, ◌==◌, if◌then◌else◌,
}
use chat_terminal.Common.Dict.{lookup, lookup-insert, lookup-erase}
use chat_terminal.Common.Exec.{ok}
use chat_terminal.Shared.Protocol.{text, Packet}
use chat_terminal.Client.World.{World}
use chat_terminal.Client.RoomHandler.{awaited, first_of, resolve_pending, handle_room_info}
use chat_terminal.Client.Reading.{text_or_lem}

resolve_pending_lem :
    (req_id other : String) (pkt : Packet) (w : World) (got : List Packet)
    → lookup req_id w.pending ≡ some got
    → lookup other (resolve_pending req_id pkt w).pending
      ≡ (if req_id == other then some (got ++ pkt ∷ []) else lookup other w.pending)
unfolding resolve_pending
resolve_pending_lem req_id other pkt w got h =
    ground (arith, h, lookup-insert req_id other (got ++ pkt ∷ []) w.pending)

-- What the end of a wait returns
abbrev returned : String → World → Option Packet
returned req_id w = first_of (lookup req_id w.pending)

awaited_lem : (req_id : String) (w : World) → (awaited req_id w).0 ≡ ok (returned req_id w)
unfolding awaited
awaited_lem req_id w = refl

forgotten : (req_id : String) (w : World) → lookup req_id (awaited req_id w).1.pending ≡ none
unfolding awaited
forgotten req_id w = lookup-erase req_id req_id w.pending ∙ rw (beq_refl req_id) refl

-- A ROOM_INFO that carries the identity of a request which is waited for, and has had no response, is
-- what that request's wait returns; any other wait returns what it would have returned without it, and
-- afterwards the request is not waited for.
pub handle_room_info-awaited :
    (w : World) (pkt : Packet) (req_id other : String)
    → lookup "req_id" pkt ≡ some (text req_id)
    → lookup req_id w.pending ≡ some []
    → (req_id == other) ≡ false
    → let w' = (handle_room_info pkt w).1 in
      ((awaited req_id w').0 ≡ ok (some pkt))
      × ((awaited other w').0 ≡ (awaited other w).0)
      × (lookup req_id (awaited req_id w').1.pending ≡ none)
unfolding handle_room_info
handle_room_info-awaited w pkt req_id other carried waited different =
    let handled : (handle_room_info pkt w).1 ≡ resolve_pending req_id pkt w =
      rw (text_or_lem "" "req_id" req_id pkt w carried) refl in
    let mine : lookup req_id (resolve_pending req_id pkt w).pending ≡ some (pkt ∷ []) =
      resolve_pending_lem req_id req_id pkt w [] waited ∙ rw (beq_refl req_id) refl in
    let theirs : lookup other (resolve_pending req_id pkt w).pending ≡ lookup other w.pending =
      resolve_pending_lem req_id other pkt w [] waited ∙ rw different refl in
    (
      ap (λ v. (awaited req_id v).0) handled
          ∙ awaited_lem req_id (resolve_pending req_id pkt w)
          ∙ ap (λ l. ok (first_of l)) mine,
      ap (λ v. (awaited other v).0) handled
          ∙ awaited_lem other (resolve_pending req_id pkt w)
          ∙ ap (λ l. ok (first_of l)) theirs
          ∙ sym (awaited_lem other w),
      forgotten req_id (handle_room_info pkt w).1,
    )
