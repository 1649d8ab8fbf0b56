-- ===== src/Client/Stun/Tests.antt =====
-- Witnesses of the STUN client.
use chat_terminal.Common.{◌≡◌, refl, arith, some, [], ◌∷◌}
use chat_terminal.Server.Tcp.{pack32}
use chat_terminal.Client.Stun.{Printer, pack16, zip_xor, parse_xor_mapped_address}
use chat_terminal.Client.Stun.Search.{nothing, other, body}
use chat_terminal.Client.Stun.Attributes.{response, xor_value, parse_xor_mapped_address-response}
use chat_terminal.Client.Samples.{zeros, tally}

abbrev printer : Printer
printer = record { ntoa = tally; ntop = tally }

parse_xor_mapped_address-response_example :
    parse_xor_mapped_address printer
      (response 257 (zeros 12) (body ((32802, 83 ∷ []) ∷ []) (xor_value 2 0 0 1 4660)))
      (zeros 12)
    ≡ some (some ("//|||/|", 4660))
unfolding pack16 zip_xor pack32
parse_xor_mapped_address-response_example =
    parse_xor_mapped_address-response printer 257 (zeros 12) ((32802, 83 ∷ []) ∷ []) 2 0 0 1 4660
      refl (omega arith) (other (omega arith) (omega arith) refl refl nothing) (omega arith)
