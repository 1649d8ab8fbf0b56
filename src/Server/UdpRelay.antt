-- ===== src/Server/UdpRelay.antt =====
-- server/udp_relay.py: the raw UDP relay (`_UDPRelayProtocol`).
-- A datagram is a list of bytes, an address a value of a type with equality. What the transport
-- sends is returned. The transport is `some` between `connection_made` and the end.
pub mod Routes
pub mod Registry
mod Tests
use chat_terminal.Common.{
  ℕ, String, Bool, true, false, not, ◌&&◌, Option, none, some, List, [], ◌∷◌, Eq, bytes_eq,
  string_eq, nat_eq, ltb, length, take, drop, ◌==◌, if◌then◌else◌,
}
use chat_terminal.Common.Dict.{Dict, lookup, insert, erase, contains}

abbrev pub session_prefix_len : ℕ
session_prefix_len = 16

abbrev pub Bytes : Type 0
Bytes = List ℕ

pub record Endpoints (Addr : Type 0) : Type 0 where
  pub a : Option Addr
  pub b : Option Addr

pub record Relay (Addr : Type 0) : Type 0 where
  pub connected : Bool
  pub endpoints : Dict Bytes (Endpoints Addr)
  pub addr_to_session : Dict Addr Bytes

-- The datagrams that `sendto` is called with.
abbrev pub Sent : Type 0 → Type 0
Sent Addr = List (Bytes × Addr)

module _ {Addr : Type 0} ⦃e : Eq Addr⦄ where
  abbrev no_endpoints : Endpoints Addr
  no_endpoints = record { a = none; b = none }

  unfoldable pub start : Relay Addr
  start = record { connected = false; endpoints = []; addr_to_session = [] }

  unfoldable pub connection_made : Relay Addr → Relay Addr
  connection_made r = record r { connected = true }

  -- `endpoints.get("a")`, `endpoints.get("b")` of a session, which may have no entry yet
  unfoldable pub endpoints_of : Dict Bytes (Endpoints Addr) → Bytes → Endpoints Addr
  endpoints_of d session = elim (lookup session d) [ none ↦ no_endpoints | some p ↦ p ]

  -- `self._endpoints.setdefault(session_bytes, {})`
  unfoldable pub set_default : Dict Bytes (Endpoints Addr) → Bytes → Dict Bytes (Endpoints Addr)
  set_default d session = elim (lookup session d) [
    | none ↦ insert session no_endpoints d
    | some _ ↦ d
  ]

  -- `endpoints["a"] = addr` (or "b"), and `self._addr_to_session[addr] = session_bytes`
  unfoldable pub joined : Relay Addr → Bytes → Endpoints Addr → Addr → Relay Addr
  joined r session p addr = record r {
    endpoints = insert session p r.endpoints;
    addr_to_session = insert addr session r.addr_to_session;
  }

  -- A new sender becomes party A, then party B; a third is discarded.
  unfoldable pub register_party : Relay Addr → Bytes → Endpoints Addr → Addr → Relay Addr
  register_party r session p addr = elim p.a [
    | none ↦ joined r session (record p { a = some addr }) addr
    | some _ ↦ elim p.b [ none ↦ joined r session (record p { b = some addr }) addr | some _ ↦ r ]
  ]

  -- A known sender's datagram goes to the other endpoint, if both are there.
  unfoldable pub forward : Relay Addr → Endpoints Addr → Bytes → Addr → Sent Addr
  forward r p message addr = elim p.a [
    | none ↦ []
    | some a ↦ elim p.b [
      | none ↦ []
      | some b ↦ if r.connected then (message, if addr == a then b else a) ∷ [] else []
    ]
  ]

  unfoldable pub datagram_received : Relay Addr → Bytes → Addr → Relay Addr × Sent Addr
  unfolding register_party forward
  datagram_received r message addr =
      if ltb (length message) session_prefix_len
      then (r, [])
      else (let session = take session_prefix_len message in
          let p = endpoints_of r.endpoints session in
          let r' = record r { endpoints = set_default r.endpoints session } in
          if contains addr r'.addr_to_session
          then (r', forward r' p message addr)
          else (register_party r' session p addr, []))

  -- The datagrams that arrive, in order.
  unfoldable pub run : Relay Addr → List (Bytes × Addr) → Relay Addr
  run r [] = r
  run r ((message, addr) ∷ rest) = run (datagram_received r message addr).0 rest
