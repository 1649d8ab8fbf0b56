-- ===== src/EndToEnd/Message.antt =====
-- A direct message, from the line in one client to the table of the other, by way of the server.
use chat_terminal.Common.{
  ℕ, suc, String, true, false, Option, some, List, [], ◌∷◌, ◌++◌, ◌≡◌, refl, sym, ap, ◌∙◌, subst,
  string_eq,
}
use chat_terminal.Common.Dict.{lookup, insert, update}
use chat_terminal.Common.Exec.{ok}
use chat_terminal.Shared.Protocol.{Json, obj, text, Fields, Packet, message, make_packet, msg_type}
use chat_terminal.Shared.Text.{is_empty, strip}
use chat_terminal.Shared.Words.{starts_with}
use chat_terminal.Server.World as Server
use chat_terminal.Server.RateLimiter
use chat_terminal.Server.Router
use chat_terminal.Server.Ws.{Conn, next, on_raw}
use chat_terminal.Server.Ws.Fields.{to_packet, stamp}
use chat_terminal.Server.Ws.Messages.{on_message}
use chat_terminal.Server.Ws.Forwarding.{forwarded, admitted, on_message-online, on_raw-message}
use chat_terminal.Client.FileCrypto.{Bytes}
use chat_terminal.Client.World.{Env}
use chat_terminal.Client.MessageHandler.{to_fields}
use chat_terminal.Client.MessageHandler.Delivery.{Exchange, sent_packet, to_packet-to_fields}
use chat_terminal.Client.Db.Messages.{new_message, save, unread_count}
use chat_terminal.Client.App.{App, Host, env, is_room_chat, open_chat, is_open}
use chat_terminal.Client.App.Commands.{submit}
use chat_terminal.Client.App.Router.{on_server_message}
use chat_terminal.Client.App.Arrival.{read_here, submitted, arrived}

-- The packet that was sent last
abbrev pub last_sent : List Packet → Packet
last_sent [] = []
last_sent (pkt ∷ []) = pkt
last_sent (pkt ∷ later ∷ rest) = last_sent (later ∷ rest)

last_sent-append : (pkts : List Packet) (pkt : Packet) → last_sent (pkts ++ pkt ∷ []) ≡ pkt
last_sent-append [] pkt = refl
last_sent-append (p ∷ []) pkt = refl
last_sent-append (p ∷ q ∷ pkts) pkt = last_sent-append (q ∷ pkts) pkt

-- What a client sends is of type MESSAGE, names its recipient and its identity, and already has the
-- sender that the server stamps.
sent-fields :
    (sender : Env) (drawn : ℕ) (mid to_user : String) (payload : Packet)
    → let pkt = sent_packet sender drawn mid to_user payload in
      (msg_type pkt ≡ some message)
      × (lookup "to" pkt ≡ some (text to_user))
      × (lookup "id" pkt ≡ some (text mid))
      × (stamp sender.me pkt ≡ pkt)
unfolding msg_type make_packet update insert lookup stamp
sent-fields sender drawn mid to_user payload = (refl, refl, refl, refl)

-- What the server does with such a packet, between two users whose sockets work
relayed :
    (sender : Env) (drawn : ℕ) (mid to_user raw : String) (payload : Packet) (host : Server.Env)
    (c : Conn) (fs : Fields) (ws : Server.Ws) (w : Server.World)
    → to_packet fs ≡ sent_packet sender drawn mid to_user payload
    → host.loads raw ≡ some (obj fs)
    → is_empty sender.me ≡ false
    → is_empty to_user ≡ false
    → (RateLimiter.allow w.limiter sender.me host.clock).1 ≡ true
    → Router.get to_user w ≡ some ws
    → host.up ws ≡ true
    → host.up c.ws ≡ true
    → on_raw host c (some sender.me) raw w ≡ (
      ok (next (some sender.me)),
      forwarded host c.ws ws mid (to_packet fs) (admitted host sender.me w),
    )
unfolding Router.get
relayed sender drawn mid to_user raw payload host c fs ws w same parsed named named' allowed online
      ws_up up =
    let (is_message, to, id, stamped) = sent-fields sender drawn mid to_user payload in
    let pkt = sent_packet sender drawn mid to_user payload in
    let w' = admitted host sender.me w in
    let done =
      on_message-online host c.ws ws sender.me to_user mid pkt w' named' to id online ws_up up in
    let forward : on_message host c.ws sender.me (to_packet fs) w'
        ≡ (ok tt, forwarded host c.ws ws mid (to_packet fs) w') =
      subst (λ p. on_message host c.ws sender.me p w' ≡ (ok tt, forwarded host c.ws ws mid p w'))
        (sym same) (done ∙ ap (λ p. (ok tt, forwarded host c.ws ws mid p w')) stamped) in
    on_raw-message host c sender.me raw fs w (forwarded host c.ws ws mid (to_packet fs) w') named
      allowed parsed (ap msg_type same ∙ is_message) forward

-- A line that is submitted in a chat reaches the other user. The client sends exactly one packet; when
-- the server reads its text on the sender's connection, it puts that packet, unchanged, onto the other
-- user's socket, and a receipt "delivered" onto the sender's; and the other client, given the packet,
-- stores the plaintext under the message's identity, as read if the chat with the sender is open, and
-- counts its unread messages of the sender as its database does. The conditions are: the line is
-- neither empty nor a command; the chat is with the other user, whose name is not empty and no key of a
-- room; both users are past the login, with unlocked keys, and `Exchange` holds for them; the text
-- that the server reads parses to the packet that the client has sent last; the server's rate limiter
-- admits it, the recipient is registered, and both sockets work.
pub on_server_message-on_raw-submit :
    (alice_host bob_host : Host) (loads : String → Option Json) (a b : App) (key64 : String)
    (alice_key bob_key secret : Bytes) (host : Server.Env) (c : Conn) (raw : String)
    (ws : Server.Ws) (w : Server.World)
    → is_empty (strip a.buf) ≡ false
    → starts_with "/" (strip a.buf) ≡ false
    → open_chat a ≡ some b.username
    → is_empty b.username ≡ false
    → is_room_chat b.username ≡ false
    → a.logged_in ≡ true
    → b.logged_in ≡ true
    → a.crypto_ctx ≡ some alice_key
    → Exchange (env alice_host a) (env bob_host b) a.world (strip a.buf) key64 bob_key secret
    → host.loads raw ≡ some (obj (to_fields (last_sent (submit alice_host a).1.world.outbox)))
    → (RateLimiter.allow w.limiter a.username host.clock).1 ≡ true
    → Router.get b.username w ≡ some ws
    → host.up ws ≡ true
    → host.up c.ws ≡ true
    → let mid = alice_host.base.uuid a.world.drawn in
      let row = new_message mid a.username b.username (strip a.buf) alice_host.base.now true in
      let pkt = last_sent (submit alice_host a).1.world.outbox in
      let b' = (on_server_message bob_host loads pkt b).1 in
      ((submit alice_host a).1.world.outbox ≡ a.world.outbox ++ pkt ∷ [])
      × (on_raw host c (some a.username) raw w ≡ (
        ok (next (some a.username)),
        forwarded host c.ws ws mid pkt (admitted host a.username w),
      ))
      × (b'.world.messages
          ≡ read_here (is_open a.username b) a.username b.username (save row b.world.messages))
      × (lookup a.username b'.unread ≡ some (unread_count a.username b'.username b'.world.messages))
on_server_message-on_raw-submit alice_host bob_host loads a b key64 alice_key bob_key secret host c
      raw ws w there plain chat named direct ready logged_in unlocked x parsed allowed online ws_up
      up =
    let alice = env alice_host a in
    let drawn = suc (suc (suc a.world.drawn)) in
    let mid = alice.uuid a.world.drawn in
    let (payload, sent, sealed, opened) =
      submitted alice_host (env bob_host b) a key64 alice_key bob_key secret there plain chat direct
        ready unlocked x in
    let p = sent_packet alice drawn mid b.username payload in
    let last : last_sent (submit alice_host a).1.world.outbox ≡ p =
      ap last_sent sent ∙ last_sent-append a.world.outbox p in
    let (rows, counts) =
      arrived bob_host loads b alice drawn mid (strip a.buf) payload bob_key logged_in x.identified
        x.named x.late x.unlocked sealed opened in
    let passed =
      relayed alice drawn mid b.username raw payload host c (to_fields p) ws w
        (to_packet-to_fields p) (parsed ∙ ap (λ q. some (obj (to_fields q))) last) x.named named
        allowed online ws_up up in
    let relays =
      passed
      ∙ ap
          (λ q. (
            ok (next (some a.username)),
            forwarded host c.ws ws mid q (admitted host a.username w),
          ))
          (to_packet-to_fields p) in
    subst
      (λ q.
        let b' = (on_server_message bob_host loads q b).1 in
        ((submit alice_host a).1.world.outbox ≡ a.world.outbox ++ q ∷ [])
        × (on_raw host c (some a.username) raw w ≡ (
          ok (next (some a.username)),
          forwarded host c.ws ws mid q (admitted host a.username w),
        ))
        × (b'.world.messages
            ≡ read_here (is_open a.username b) a.username b.username (
                save (new_message mid a.username b.username (strip a.buf) alice.now true)
                  b.world.messages))
        × (lookup a.username b'.unread
            ≡ some (unread_count a.username b'.username b'.world.messages)))
      (sym last) (sent, relays, rows, counts)
