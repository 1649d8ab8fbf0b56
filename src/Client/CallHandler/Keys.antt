-- ===== src/Client/CallHandler/Keys.antt =====
-- The two sides of a call of client/handlers/call.py come to one key.
use chat_terminal.Common.{
  ℕ, suc, ◌≡◌, arith, refl, ap, ◌∙◌, String, false, some, string_eq, nat_beq, inl, inr,
}
use chat_terminal.Common.Dict.{lookup}
use chat_terminal.Common.Exec.{ok}
use chat_terminal.Shared.Protocol.{Json, text, num, Packet, truthy}
use chat_terminal.Shared.Text.{is_empty}
use chat_terminal.Server.Ws.Fields.{get_or_null}
use chat_terminal.Client.World.{World, Env, Audio-cases, draw, emit}
use chat_terminal.Client.FileCrypto.{Bytes}
use chat_terminal.Client.Envelope.{Suite}
use chat_terminal.Client.Envelope.RoundTrip.{GoodSuite}
use chat_terminal.Client.Reading.{text_or_lem, truthy_text_lem, get_or_null_lem}
use chat_terminal.Client.CallHandler.{
  derive_call_key, public_b64, invite, accept, start_audio_stream, hkdf_info,
}
use chat_terminal.Client.CallHandler.Incoming.{set_peer, port_of, handle_accept}

-- A key is derived from a peer's public key that decodes, if the exchange succeeds.
pub derive_call_key_lem :
    (suite : Suite) (utf8 : String → Bytes) (private peer secret : Bytes) (told session_id : String)
    → suite.b64decode told ≡ some peer
    → suite.exchange private peer ≡ some secret
    → derive_call_key suite utf8 private told session_id
      ≡ some (suite.hkdf (utf8 session_id) hkdf_info secret)
unfolding derive_call_key
derive_call_key_lem suite utf8 private peer secret told session_id decoded shared =
    ground (arith, decoded, shared)

-- What `accept` leaves as the key
accept_key :
    (env : Env) (w : World) (session_id told : String) (key : Bytes)
    → is_empty told ≡ false
    → derive_call_key env.suite env.utf8 (env.ephemeral w.drawn) told session_id ≡ some key
    → (accept env session_id (some told) w).1.call.call_key ≡ some key
unfolding accept draw emit start_audio_stream
accept_key env w session_id told key there derived = elim (Audio-cases env.audio) [
  | inl away ↦ rw (there, derived, away) refl
  | inr (inl off) ↦ rw (there, derived, off) refl
  | inr (inr on) ↦ rw (there, derived, on) refl
]

-- The packet that tells the caller of the acceptance
pub record Accepted (pkt : Packet) (session_id told : String) : Type 0 where
  pub address : String
  pub port : ℕ
  pub session : lookup "session_id" pkt ≡ some (text session_id)
  pub public : lookup "ephemeral_pubkey" pkt ≡ some (text told)
  pub ip : lookup "callee_ip" pkt ≡ some (text address)
  pub udp_port : lookup "callee_udp_port" pkt ≡ some (num port)
  pub some_ip : is_empty address ≡ false
  pub some_port : nat_beq port 0 ≡ false

port_of_lem :
    (env : Env) (n : ℕ) (other : Json) (w : World)
    → nat_beq n 0 ≡ false
    → port_of env (num n) other w ≡ (ok n, w)
unfolding port_of truthy
port_of_lem env n other w h = rw (h, port_of) refl

set_peer_lem :
    (env : Env) (w : World) (pkt : Packet) (session_id told : String)
    → (a : Accepted pkt session_id told)
    → set_peer env "callee_ip" "callee_udp_port" pkt w
      ≡ (ok tt, record w { call = record w.call { peer_ip = a.address; peer_port = a.port } })
unfolding set_peer
set_peer_lem env w pkt session_id told a =
    rw
      (
        truthy_text_lem "callee_ip" a.address pkt w a.ip a.some_ip,
        get_or_null_lem "callee_udp_port" (num a.port) pkt a.udp_port,
        port_of_lem env a.port (get_or_null "local_port" pkt)
            (record w { call = record w.call { peer_ip = a.address } }) a.some_port,
      )
      refl

handle_accept_key :
    (env : Env) (w : World) (pkt : Packet) (session_id told : String) (private key : Bytes)
    → Accepted pkt session_id told
    → is_empty told ≡ false
    → w.call.ephemeral_private ≡ some private
    → derive_call_key env.suite env.utf8 private told session_id ≡ some key
    → (handle_accept env pkt w).1.call.call_key ≡ some key
unfolding handle_accept start_audio_stream draw
handle_accept_key env w pkt session_id told private key a there mine derived =
    let session = text_or_lem "" "session_id" session_id pkt w a.session in
    let peer = set_peer_lem env w pkt session_id told a in
    let public = get_or_null_lem "ephemeral_pubkey" (text told) pkt a.public in
    elim (Audio-cases env.audio) [
      | inl away ↦ rw (session, peer, mine, public, there, derived, away) refl
      | inr (inl off) ↦ rw (session, peer, mine, public, there, derived, off) refl
      | inr (inr on) ↦ rw (session, peer, mine, public, there, derived, on) refl
    ]

invite_key :
    (env : Env) (w : World) (to_user : String)
    → (invite env to_user w).1.call.ephemeral_private ≡ some (env.ephemeral (suc w.drawn))
unfolding invite draw emit
invite_key env w to_user = refl

-- A caller invites with a fresh private key. The callee, who is told the public key of it, accepts; the
-- caller, who still has the private key, is told of it with the callee's public key. Then both have one key for the
-- call, which is derived from the secret of the exchange and the session. The two use the same
-- suite, in which base64 is read back, is not empty for these keys, and both sides of an exchange, which
-- succeeds, agree; and the packet has an address and a port for the callee.
pub handle_accept-accept :
    (alice bob : Env) (w v u : World) (pkt : Packet) (callee session_id : String) (secret : Bytes)
    → GoodSuite alice.suite
    → bob.suite ≡ alice.suite
    → bob.utf8 ≡ alice.utf8
    → let alice_key = alice.ephemeral (suc w.drawn) in
      let bob_key = bob.ephemeral v.drawn in
      is_empty (public_b64 alice alice_key) ≡ false
      → is_empty (public_b64 alice bob_key) ≡ false
      → alice.suite.exchange alice_key (alice.suite.public_key bob_key) ≡ some secret
      → u.call.ephemeral_private ≡ (invite alice callee w).1.call.ephemeral_private
      → Accepted pkt session_id (public_b64 alice bob_key)
      → let key = alice.suite.hkdf (alice.utf8 session_id) hkdf_info secret in
        ((accept bob session_id (some (public_b64 alice alice_key)) v).1.call.call_key ≡ some key)
        × ((handle_accept alice pkt u).1.call.call_key ≡ some key)
handle_accept-accept alice bob w v u pkt callee session_id secret good same_suite same_utf8 some_a
      some_b shared kept accepted =
    let suite = alice.suite in
    let a = alice.ephemeral (suc w.drawn) in
    let b = bob.ephemeral v.drawn in
    let at_alice =
      derive_call_key_lem suite alice.utf8 a (suite.public_key b) secret (public_b64 alice b)
        session_id (good.b64 (suite.public_key b)) shared in
    let at_bob =
      derive_call_key_lem suite alice.utf8 b (suite.public_key a) secret (public_b64 alice a)
        session_id (good.b64 (suite.public_key a)) (good.agree b a ∙ shared) in
    let derived =
      ap (λ s. derive_call_key s bob.utf8 b (public_b64 alice a) session_id) same_suite
      ∙ ap (λ f. derive_call_key suite f b (public_b64 alice a) session_id) same_utf8
      ∙ at_bob in
    (
      accept_key bob v session_id (public_b64 alice a)
          (suite.hkdf (alice.utf8 session_id) hkdf_info secret) some_a derived,
      handle_accept_key alice u pkt session_id (public_b64 alice b) a
          (suite.hkdf (alice.utf8 session_id) hkdf_info secret) accepted some_b
          (kept ∙ invite_key alice w callee) at_alice,
    )
