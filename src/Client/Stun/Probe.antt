-- ===== src/Client/Stun/Probe.antt =====
-- client/audio/nat.py: `get_public_address` and `try_direct_udp`, from what happens on their sockets
-- before the timeout.
use chat_terminal.Common.{Bool, true, false, Option, none, some, List, [], ◌∷◌}
use chat_terminal.Client.Stun.{
  Address, Printer, build_binding_request, parse_xor_mapped_address, datagram_received,
}
use chat_terminal.Client.FileCrypto.{Bytes}

-- What happens on a socket
pub data Event : Type 0 where
  datagram : Bytes → Event
  error lost : Event

-- `_StunProtocol`: the first event settles the response; an error or a lost connection settles it
-- without one.
unfoldable pub response : List Event → Option Bytes
response [] = none
response (datagram bytes ∷ events) = datagram_received none bytes
response (error ∷ events) = none
response (lost ∷ events) = none

-- What does not parse, and a loop that raises, are no address.
abbrev found : Option (Option Address) → Option Address
found none = none
found (some address) = address

-- `get_public_address`: the request that is sent, and the address; without a server address nothing is
-- sent.
unfoldable pub get_public_address :
    Printer → Bytes → Bool → List Event → Option Bytes × Option Address
unfolding build_binding_request response parse_xor_mapped_address
get_public_address p transaction_id false events = (none, none)
get_public_address p transaction_id true events = (
  build_binding_request transaction_id,
  elim (response events) [
    | none ↦ none
    | some bytes ↦ found (parse_xor_mapped_address p bytes transaction_id)
  ],
)

-- `try_direct_udp`: whether the first event is a datagram, whatever it holds and whoever has sent it
unfoldable pub try_direct_udp : List Event → Bool
unfolding response
try_direct_udp events = elim (response events) [ none ↦ false | some bytes ↦ true ]
