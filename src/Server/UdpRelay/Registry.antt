-- ===== src/Server/UdpRelay/Registry.antt =====
-- server/udp_relay.py: the registry of websockets, and the forwarding of a packet of a call over it.
-- A websocket is a number.
use chat_terminal.Common.{
  ℕ, String, Option, none, some, List, [], ◌∷◌, string_eq, nat_beq, if◌then◌else◌,
}
use chat_terminal.Common.Dict.{Dict, lookup, insert, erase}
use chat_terminal.Shared.Protocol.{text, num, Packet}

-- An entry of `_ws_relay`: the websockets of the caller and of the callee, which may be None
pub record Parties : Type 0 where
  pub caller_ws : Option ℕ
  pub callee_ws : Option ℕ

unfoldable pub register_relay :
    String → Option ℕ → Option ℕ → Dict String Parties → Dict String Parties
register_relay session_id caller_ws callee_ws relay =
    insert session_id (record { caller_ws = caller_ws; callee_ws = callee_ws }) relay

unfoldable pub unregister_relay : String → Dict String Parties → Dict String Parties
unregister_relay session_id relay = erase session_id relay

-- `relay_pkt`, with the identity and the time that are drawn
unfoldable pub relay_pkt : String → ℕ → String → String → Packet
relay_pkt id now session_id data_b64 =
    ("version", text "1.0")
    ∷ ("type", text "CALL_RELAY")
    ∷ ("id", text id)
    ∷ ("timestamp", num now)
    ∷ ("session_id", text session_id)
    ∷ ("data", text data_b64)
    ∷ []

-- `target_ws is not None and target_ws is not sender_ws`
abbrev other_than : Option ℕ → Option ℕ → Option ℕ
other_than sender none = none
other_than none (some ws) = some ws
other_than (some s) (some ws) = if nat_beq ws s then none else some ws

abbrev or_else : Option ℕ → Option ℕ → Option ℕ
or_else (some ws) other = some ws
or_else none other = other

-- Whom `relay_packet` sends to: the first of the two that is not the sender. Without an entry it sends
-- nothing.
unfoldable pub target : Option ℕ → Option Parties → Option ℕ
target sender none = none
target sender (some p) = or_else (other_than sender p.caller_ws) (other_than sender p.callee_ws)

-- `relay_packet`: what is sent, and to which websocket; a websocket that raises is the same as one that
-- takes the packet
unfoldable pub relay_packet :
    (String → Option ℕ)
    → Dict String Parties
    → String
    → ℕ
    → String
    → String
    → String
    → List (ℕ × Packet)
unfolding target relay_pkt
relay_packet get relay id now session_id from_user data_b64 =
    elim (target (get from_user) (lookup session_id relay)) [
      | none ↦ []
      | some ws ↦ (ws, relay_pkt id now session_id data_b64) ∷ []
    ]
