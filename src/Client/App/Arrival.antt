-- ===== src/Client/App/Arrival.antt =====
-- A line of client/app.py's `_submit` that arrives in the application of the user it was for.
use chat_terminal.Common.{
  ℕ, suc, String, Bool, true, false, Option, some, List, [], ◌∷◌, ◌++◌, ◌≡◌, refl, sym, ap, ◌∙◌,
  subst, string_eq, none, nat_beq, if◌then◌else◌,
}
use chat_terminal.Common.Dict.{lookup, insert, update}
use chat_terminal.Common.Exec.{ok, skip}
use chat_terminal.Shared.Protocol.{Json, text, Packet, MsgType, make_packet, msg_type}
use chat_terminal.Shared.Text.{is_empty, strip}
use chat_terminal.Shared.Words.{starts_with}
use chat_terminal.Client.FileCrypto.{Bytes}
use chat_terminal.Client.World.{World, Env, Message}
use chat_terminal.Client.Reading.{text_or_lem}
use chat_terminal.Client.MessageHandler as Direct
use chat_terminal.Client.MessageHandler.Delivery.{
  Exchange, sent_packet, exchanged, send_lem, incoming_lem,
}
use chat_terminal.Client.Db.Contacts.{add_contact}
use chat_terminal.Client.Db.Messages.{new_message, save, mark_read, unread_count}
use chat_terminal.Client.App.{
  App, Act, Host, env, is_room_chat, open_chat, is_open, refresh_contacts, send_pkt, load_messages,
}
use chat_terminal.Client.App.Commands.{submit}
use chat_terminal.Client.App.Callbacks.{add, announced, called_back, on_new_message}
use chat_terminal.Client.App.Synced.{if_ready, on_message}
use chat_terminal.Client.App.Router.{route, on_server_message}
use chat_terminal.Client.Envelope.{decrypt_message}
use chat_terminal.Client.App.Unread.{on_new_message-counted}
use chat_terminal.Client.App.Sending.{submit-Settled}

-- The rows after a message of a user has been announced, in a chat that is open or not
abbrev pub read_here : Bool → String → String → List Message → List Message
read_here true peer me rows = mark_read peer me rows
read_here false peer me rows = rows

announced-messages :
    (host : Host) (pkt : Packet) (sender : String) (here : Bool) (a : App)
    → let (r, a') = announced host pkt sender here a in
      (r ≡ ok tt) × (a'.world.messages ≡ read_here here sender a.username a.world.messages)
unfolding announced send_pkt load_messages
announced-messages host pkt sender true a = (refl, refl)
announced-messages host pkt sender false a = (refl, refl)

on_new_message-messages :
    (host : Host) (pkt : Packet) (sender : String) (a : App)
    → lookup "from" pkt ≡ some (text sender)
    → let (r, a') = on_new_message host pkt a in
      (r ≡ ok tt)
      × (a'.world.messages ≡ read_here (is_open sender a) sender a.username a.world.messages)
unfolding on_new_message add refresh_contacts
on_new_message-messages host pkt sender a named =
    let (fine, rows) = announced-messages host pkt sender (is_open sender a) (add host sender a) in
    rw (text_or_lem "" "from" sender pkt a.world named, fine) (refl, rows)

-- What the packet is once it has been read
abbrev shown_packet : Env → ℕ → String → String → Packet → String → Packet
shown_packet sender drawn mid to_user payload plaintext =
    insert "_plaintext" (text plaintext) (sent_packet sender drawn mid to_user payload)

-- The application when its handler has read a message
abbrev received : Host → App → World → Packet → App
received host b w pkt = record b { world = record w { shown = b.world.shown ++ pkt ∷ [] } }

on_message_lem :
    (host : Host) (pkt pkt' : Packet) (b : App) (w : World)
    → Direct.handle_incoming (env host b) pkt (record b.world { shown = [] })
      ≡ (ok tt, record w { shown = pkt' ∷ [] })
    → (on_new_message host pkt' (received host b w pkt')).0 ≡ ok tt
    → on_message host pkt b ≡ (ok tt, (on_new_message host pkt' (received host b w pkt')).1)
unfolding on_message called_back
on_message_lem host pkt pkt' b w incoming fine = rw (incoming, fine) refl

ready_lem : (action : Act (Unit {0})) (b : App) → b.logged_in ≡ true → if_ready action b ≡ action b
ready_lem action b logged_in =
    subst (λ r. (if r then action else skip) b ≡ action b) (sym logged_in) refl

on_server_message-message :
    (host : Host) (loads : String → Option Json) (pkt : Packet) (b b' : App)
    → msg_type pkt ≡ some MsgType.message
    → b.logged_in ≡ true
    → on_message host pkt b ≡ (ok tt, b')
    → on_server_message host loads pkt b ≡ (ok tt, record b' { dirty = true })
unfolding on_server_message
on_server_message-message host loads pkt b b' is_message logged_in read =
    let routed : route host loads pkt b ≡ (ok tt, b') =
      rw (is_message, route) (ready_lem (on_message host pkt) b logged_in ∙ read) in
    rw (routed, on_server_message) refl

module _ (host : Host) (loads : String → Option Json) (b : App) (sender : Env) (drawn : ℕ)
    (mid plaintext : String) (payload : Packet) (my_key : Bytes) (logged_in : b.logged_in ≡ true)
    (some_id : is_empty mid ≡ false) (named : is_empty sender.me ≡ false)
    (late : nat_beq sender.now 0 ≡ false) (unlocked : b.crypto_ctx ≡ some my_key)
    (sealed : Direct.is_sealed payload ≡ true)
    (opened : decrypt_message host.base.suite payload my_key ≡ some plaintext) where
  abbrev pub arriving : Packet
  arriving = sent_packet sender drawn mid b.username payload

  abbrev pub stored : List Message
  stored = save (new_message mid sender.me b.username plaintext sender.now true) b.world.messages

  -- The application of the user that the message is for stores it, and counts as its database does.
  pub arrived :
      let b' = (on_server_message host loads arriving b).1 in
      (b'.world.messages ≡ read_here (is_open sender.me b) sender.me b.username stored)
      × (lookup sender.me b'.unread ≡ some (unread_count sender.me b'.username b'.world.messages))
  unfolding msg_type make_packet update insert lookup
  arrived =
      let w = record b.world {
        shown = [];
        messages = stored;
        contacts = add_contact host.base.now sender.me none b.world.contacts;
      } in
      let pkt = shown_packet sender drawn mid b.username payload plaintext in
      let b' = received host b w pkt in
      let incoming =
        incoming_lem sender (env host b) (record b.world { shown = [] }) drawn mid b.username
          plaintext payload my_key some_id named late unlocked sealed opened in
      let (fine, rows) = on_new_message-messages host pkt sender.me b' refl in
      let counts = on_new_message-counted host pkt sender.me b' refl in
      let whole =
        on_server_message-message host loads arriving b (on_new_message host pkt b').1 refl
          logged_in (on_message_lem host arriving pkt b w incoming fine) in
      subst
        (λ o.
          (o.1.world.messages ≡ read_here (is_open sender.me b) sender.me b.username stored)
          × (lookup sender.me o.1.unread
              ≡ some (unread_count sender.me o.1.username o.1.world.messages)))
        (sym whole) (rows, counts)

-- A line that is submitted leaves as one packet, which the user that it is for can read.
pub submitted :
    (alice_host : Host) (bob : Env) (a : App) (key64 : String) (alice_key bob_key secret : Bytes)
    → is_empty (strip a.buf) ≡ false
    → starts_with "/" (strip a.buf) ≡ false
    → open_chat a ≡ some bob.me
    → is_room_chat bob.me ≡ false
    → a.logged_in ≡ true
    → a.crypto_ctx ≡ some alice_key
    → Exchange (env alice_host a) bob a.world (strip a.buf) key64 bob_key secret
    → (payload : Packet) × ((submit alice_host a).1.world.outbox
        ≡ a.world.outbox
          ++ sent_packet
              (env alice_host a)
              (suc (suc (suc a.world.drawn)))
              (alice_host.base.uuid a.world.drawn)
              bob.me
              payload
            ∷ [])
      × (Direct.is_sealed payload ≡ true)
      × (decrypt_message bob.suite payload bob_key ≡ some (strip a.buf))
submitted alice_host bob a key64 alice_key bob_key secret there plain chat direct ready unlocked x =
    let alice = env alice_host a in
    let (payload, chosen, sealed, opened) =
      exchanged alice bob a.world (strip a.buf) key64 alice_key bob_key secret unlocked x in
    let (fine, world, ends) = submit-Settled alice_host a bob.me there plain chat direct ready in
    let sent =
      send_lem alice a.world bob.me (strip a.buf) payload (suc (suc (suc a.world.drawn))) chosen in
    (payload, ap (λ w. w.outbox) world ∙ sent, sealed, opened)
