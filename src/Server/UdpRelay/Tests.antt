-- ===== src/Server/UdpRelay/Tests.antt =====
-- Witnesses and runs of the UDP relay, with numbers for addresses.
use chat_terminal.Common.{
  ℕ, ◌≡◌, ◌≢◌, refl, true, some, List, [], ◌∷◌, ◌++◌, arith, subst, nat_eq, bytes_eq, take,
}
use chat_terminal.Common.Dict.{lookup, insert}
use chat_terminal.Server.UdpRelay.{
  Relay, Bytes, start, connection_made, endpoints_of, set_default, joined, datagram_received, run,
}
use chat_terminal.Server.UdpRelay.Routes.{
  Consistent, run-Consistent, forward_to_other, foreign_injects,
}

abbrev prefix : ℕ → Bytes
prefix n = n ∷ 0 ∷ 0 ∷ 0 ∷ 0 ∷ 0 ∷ 0 ∷ 0 ∷ 0 ∷ 0 ∷ 0 ∷ 0 ∷ 0 ∷ 0 ∷ 0 ∷ 0 ∷ []

abbrev calls : List (Bytes × ℕ)
calls =
    (prefix 1, 10)
    ∷ (prefix 2, 20)
    ∷ (prefix 1, 11)
    ∷ (prefix 2, 21)
    ∷ (prefix 1 ++ 5 ∷ [], 10)
    ∷ []

-- Two calls, each with its two parties: 10 and 11, 20 and 21.
abbrev paired : Relay ℕ
paired = record {
  connected = true;
  endpoints =
      (prefix 1, record { a = some 10; b = some 11 })
      ∷ (prefix 2, record { a = some 20; b = some 21 })
      ∷ [];
  addr_to_session = (10, prefix 1) ∷ (20, prefix 2) ∷ (11, prefix 1) ∷ (21, prefix 2) ∷ [];
}

calls_pair : run (connection_made start) calls ≡ paired
unfolding run connection_made start datagram_received joined endpoints_of set_default lookup insert
calls_pair = refl

run-Consistent_example : Consistent (run (connection_made start) calls)
run-Consistent_example = run-Consistent calls

paired-Consistent : Consistent paired
paired-Consistent = subst Consistent calls_pair (run-Consistent calls)

abbrev voice : Bytes
voice = prefix 1 ++ 7 ∷ []

forward_to_other_example :
    (other : ℕ) × ((datagram_received paired voice 11).1 ≡ (voice, other) ∷ [])
    × (other ≢ 11)
    × (lookup other paired.addr_to_session ≡ some (take 16 voice))
unfolding endpoints_of lookup
forward_to_other_example =
    forward_to_other paired voice 11 10 11 paired-Consistent refl (omega arith) refl refl refl

foreign_injects_example : (datagram_received paired voice 20).1 ≡ (voice, 10) ∷ []
unfolding endpoints_of lookup
foreign_injects_example =
    foreign_injects paired voice 20 10 11 (prefix 2) (λ p. cc) paired-Consistent refl (omega arith)
      refl refl refl
