-- ===== src/Server/UdpRelay/Routes.antt =====
-- Where the relay sends datagrams.
use chat_terminal.Common.{
  ◌≤◌, ◌<◌, ◌≡◌, ◌≢◌, ◌⊎◌, inl, inr, refl, true, none, some, List, [], ◌∷◌, arith, Eq, bytes_eq,
  Bool-cases, Option-cases, ltb, length, take, ◌==◌,
}
use chat_terminal.Common.Dict.{Dict, lookup, contains, insert, insert_cases}
use chat_terminal.Server.UdpRelay.{
  Relay, Endpoints, Bytes, Sent, session_prefix_len, start, connection_made, no_endpoints,
  endpoints_of, set_default, joined, register_party, forward, datagram_received, run,
}

abbrev session_of : Bytes → Bytes
session_of message = take session_prefix_len message

module _ {Addr : Type 0} ⦃e : Eq Addr⦄ where
  -- The two tables agree: the parties of a session are two addresses that are registered for it,
  -- and a registered address is a party of its session. Party B comes after party A.
  pub record IsConsistent (d : Dict Bytes (Endpoints Addr)) (known : Dict Addr Bytes) : Type 0 where
    pub a_known : (s : Bytes) (x : Addr) → (endpoints_of d s).a ≡ some x → lookup x known ≡ some s
    pub b_known : (s : Bytes) (x : Addr) → (endpoints_of d s).b ≡ some x → lookup x known ≡ some s
    pub is_party :
        (s : Bytes) (x : Addr)
        → lookup x known ≡ some s
        → ((endpoints_of d s).a ≡ some x) ⊎ ((endpoints_of d s).b ≡ some x)
    pub two_parties :
        (s : Bytes) (x : Addr) → (endpoints_of d s).a ≡ some x → (endpoints_of d s).b ≢ some x
    pub a_first : (s : Bytes) → (endpoints_of d s).a ≡ none → (endpoints_of d s).b ≡ none

  abbrev pub Consistent : Relay Addr → Type 0
  Consistent r = IsConsistent r.endpoints r.addr_to_session

  start-IsConsistent : Consistent start
  unfolding start lookup endpoints_of
  start-IsConsistent = record {
    a_known = λ s x h. cc;
    b_known = λ s x h. cc;
    is_party = λ s x h. cc;
    two_parties = λ s x h k. cc;
    a_first = λ s h. refl;
  }

  endpoints-insert :
      (d : Dict Bytes (Endpoints Addr)) (s t : Bytes) (p : Endpoints Addr)
      → ((s ≡ t) × (endpoints_of (insert s p d) t ≡ p))
        ⊎ ((s ≢ t) × (endpoints_of (insert s p d) t ≡ endpoints_of d t))
  unfolding endpoints_of
  endpoints-insert d s t p = ground (arith, insert_cases s t p d)

  -- `setdefault` changes no session's parties.
  endpoints-set_default :
      (d : Dict Bytes (Endpoints Addr)) (s t : Bytes)
      → endpoints_of (set_default d s) t ≡ endpoints_of d t
  unfolding set_default endpoints_of
  endpoints-set_default d s t = ground (arith, insert_cases s t no_endpoints d)

  set_default-IsConsistent :
      (d : Dict Bytes (Endpoints Addr)) (known : Dict Addr Bytes) (s : Bytes)
      → IsConsistent d known
      → IsConsistent (set_default d s) known
  set_default-IsConsistent d known s h = record {
    a_known = λ t x. rw (endpoints-set_default d s t) (h.a_known t x);
    b_known = λ t x. rw (endpoints-set_default d s t) (h.b_known t x);
    is_party = λ t x. rw (endpoints-set_default d s t) (h.is_party t x);
    two_parties = λ t x. rw (endpoints-set_default d s t) (h.two_parties t x);
    a_first = λ t. rw (endpoints-set_default d s t) (h.a_first t);
  }

  -- The new endpoints of a session in which `x` takes the first free place.
  data Joins (x : Addr) (p q : Endpoints Addr) : Type 0 where
    first : p.a ≡ none → p.b ≡ none → q.a ≡ some x → q.b ≡ none → Joins x p q
    second : (y : Addr) → p.a ≡ some y → p.b ≡ none → q.a ≡ some y → q.b ≡ some x → Joins x p q

  module _ (d : Dict Bytes (Endpoints Addr)) (known : Dict Addr Bytes) (s : Bytes)
      (q : Endpoints Addr) (x : Addr) where
    Joins-IsConsistent :
        Joins x (endpoints_of d s) q
        → lookup x known ≡ none
        → IsConsistent d known
        → IsConsistent (insert s q d) (insert x s known)
    Joins-IsConsistent (first pa pb qa qb) new h = record {
      a_known = λ t y k.
          ground (arith, endpoints-insert d s t q, insert_cases x y s known, h.a_known t y);
      b_known = λ t y k.
          ground (arith, endpoints-insert d s t q, insert_cases x y s known, h.b_known t y);
      is_party = λ t y k.
          ground (arith, endpoints-insert d s t q, insert_cases x y s known, h.is_party t y);
      two_parties = λ t y k. ground (arith, endpoints-insert d s t q, h.two_parties t y);
      a_first = λ t k. ground (arith, endpoints-insert d s t q, h.a_first t);
    }
    Joins-IsConsistent (second z pa pb qa qb) new h = record {
      a_known = λ t y k.
          ground (arith, endpoints-insert d s t q, insert_cases x y s known, h.a_known t y);
      b_known = λ t y k.
          ground (arith, endpoints-insert d s t q, insert_cases x y s known, h.b_known t y);
      is_party = λ t y k.
          ground (arith, endpoints-insert d s t q, insert_cases x y s known, h.is_party t y);
      two_parties =
          λ t y k. ground (arith, endpoints-insert d s t q, h.two_parties t y, h.a_known s z);
      a_first = λ t k. ground (arith, endpoints-insert d s t q, h.a_first t);
    }

  register-Consistent :
      (r : Relay Addr) (s : Bytes) (x : Addr)
      → lookup x r.addr_to_session ≡ none
      → Consistent r
      → Consistent (register_party r s (endpoints_of r.endpoints s) x)
  unfolding register_party joined
  register-Consistent r s x new h =
      let p = endpoints_of r.endpoints s in
      elim (Option-cases p.a) [
        | inl na ↦
            rw (na, register_party)
              (Joins-IsConsistent r.endpoints r.addr_to_session s _ x
                (first na (h.a_first s na) refl (h.a_first s na)) new h)
        | inr (y, ya) ↦ elim (Option-cases p.b) [
          | inl nb ↦
              rw (ya, nb, register_party)
                (Joins-IsConsistent r.endpoints r.addr_to_session s _ x (second y ya nb ya refl) new
                  h)
          | inr (z, zb) ↦ rw (ya, zb, register_party) h
        ]
      ]

  abbrev opened : Relay Addr → Bytes → Relay Addr
  opened r message = record r { endpoints = set_default r.endpoints (session_of message) }

  -- The three things that a datagram can do.
  received_cases :
      (P : Relay Addr × Sent Addr → Type 0) (r : Relay Addr) (message : Bytes) (addr : Addr)
      → (length message < session_prefix_len → P (r, []))
      → (lookup addr r.addr_to_session ≡ none
          → P (
            register_party
                (opened r message)
                (session_of message)
                (endpoints_of r.endpoints (session_of message))
                addr,
            [],
          ))
      → ((s : Bytes)
          → lookup addr r.addr_to_session ≡ some s
          → P (
            opened r message,
            forward (opened r message) (endpoints_of r.endpoints (session_of message)) message addr,
          ))
      → P (datagram_received r message addr)
  unfolding datagram_received
  received_cases P r message addr short new old =
      elim (Bool-cases (ltb (length message) session_prefix_len)) [
        | inl e ↦ rw (e, datagram_received) (short (ground arith))
        | inr e ↦ elim (Option-cases (lookup addr r.addr_to_session)) [
          | inl u ↦ rw (e, datagram_received, u, contains) (new u)
          | inr (s, k) ↦ rw (e, datagram_received, k, contains) (old s k)
        ]
      ]

  datagram-Consistent :
      (r : Relay Addr) (message : Bytes) (addr : Addr)
      → Consistent r
      → Consistent (datagram_received r message addr).0
  datagram-Consistent r message addr h =
      let h' = set_default-IsConsistent r.endpoints r.addr_to_session (session_of message) h in
      received_cases (λ o. Consistent o.0) r message addr (λ _. h)
        (λ new.
          rw (← endpoints-set_default r.endpoints (session_of message) (session_of message))
            (register-Consistent (opened r message) (session_of message) addr new h'))
        (λ s k. h')

  run_keeps : (r : Relay Addr) (ds : List (Bytes × Addr)) → Consistent r → Consistent (run r ds)
  unfolding run
  run_keeps r [] h = h
  run_keeps r ((message, addr) ∷ rest) h =
      run_keeps (datagram_received r message addr).0 rest (datagram-Consistent r message addr h)

  -- After any datagrams, from any senders, the relay's two tables agree: an address belongs to at
  -- most one session, the parties of a session are distinct, each is registered for it and nobody
  -- else is, and party B joins only after party A.
  pub run-Consistent : (ds : List (Bytes × Addr)) → Consistent (run (connection_made start) ds)
  unfolding connection_made
  run-Consistent ds = run_keeps (connection_made start) ds start-IsConsistent

  module _ (r : Relay Addr) (message : Bytes) (addr a b : Addr) where
    -- A datagram of one party of a session goes, unchanged, to the other party and to nobody else.
    -- The relay is connected and its tables agree, the datagram has the prefix of the sender's
    -- session, and both parties are there.
    pub forward_to_other :
        Consistent r
        → r.connected ≡ true
        → session_prefix_len ≤ length message
        → lookup addr r.addr_to_session ≡ some (take session_prefix_len message)
        → (endpoints_of r.endpoints (take session_prefix_len message)).a ≡ some a
        → (endpoints_of r.endpoints (take session_prefix_len message)).b ≡ some b
        → (other : Addr) × ((datagram_received r message addr).1 ≡ (message, other) ∷ [])
          × (other ≢ addr)
          × (lookup other r.addr_to_session ≡ some (take session_prefix_len message))
    unfolding datagram_received
    forward_to_other h up long known ea eb = elim (Bool-cases (addr == a)) [
      | inl e1 ↦ (
        b,
        ground (arith, e.decides addr a),
        λ p. h.two_parties (session_of message) a ea (ground (arith, e.decides addr a)),
        h.b_known (session_of message) b eb,
      )
      | inr e1 ↦ (
        a,
        ground (arith, e.decides addr a),
        ground (arith, e.decides addr a),
        h.a_known (session_of message) a ea,
      )
    ]

    -- An unknown sender's datagram for a session that has both its parties changes nothing and is
    -- not forwarded.
    pub stranger_discarded :
        lookup addr r.addr_to_session ≡ none
        → (endpoints_of r.endpoints (take session_prefix_len message)).a ≡ some a
        → (endpoints_of r.endpoints (take session_prefix_len message)).b ≡ some b
        → datagram_received r message addr ≡ (r, [])
    unfolding datagram_received set_default endpoints_of
    stranger_discarded new ea eb = ground arith

    -- A sender that is registered for another session is not checked against the prefix that it
    -- sends: the datagram is forwarded to party A of the session that the prefix names. The relay
    -- is connected, its tables agree, and that session has both its parties.
    pub foreign_injects :
        (own : Bytes)
        → own ≢ take session_prefix_len message
        → Consistent r
        → r.connected ≡ true
        → session_prefix_len ≤ length message
        → lookup addr r.addr_to_session ≡ some own
        → (endpoints_of r.endpoints (take session_prefix_len message)).a ≡ some a
        → (endpoints_of r.endpoints (take session_prefix_len message)).b ≡ some b
        → (datagram_received r message addr).1 ≡ (message, a) ∷ []
    unfolding datagram_received
    foreign_injects own ne h up long known ea eb =
        ground (arith, h.a_known (take session_prefix_len message) a ea, e.decides addr a)
