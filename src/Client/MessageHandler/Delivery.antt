-- ===== src/Client/MessageHandler/Delivery.antt =====
-- Messages of client/handlers/message.py, from the sender's call to the recipient's table.
use chat_terminal.Common.{
  ℕ, suc, ◌≡◌, refl, sym, ap, ◌∙◌, subst, String, true, false, none, some, [], ◌∷◌, ◌++◌, arith,
  string_eq, ◌==◌, nat_beq, length, List, Bool, map, if◌then◌else◌,
}
use chat_terminal.Common.Dict.{lookup, insert, lookup-insert, update}
use chat_terminal.Common.Exec.{ok, raise}
use chat_terminal.Server.World.{update_rows}
use chat_terminal.Client.Reading.{truthy_text_lem}
use chat_terminal.Shared.Protocol.{
  Json, bool, text, obj, Packet, message, make_packet, truthy, value,
}
use chat_terminal.Shared.Text.{is_empty}
use chat_terminal.Server.Ws.Fields.{to_packet, get_or_null}
use chat_terminal.Client.World.{
  World, Env, Exec, Message, draw, emit, show, text_or, truthy_text, timestamp_or_now,
}
use chat_terminal.Client.FileCrypto.{Bytes}
use chat_terminal.Client.Envelope.{
  Suite, encrypt_message, decrypt_message, decoded_field, envelope, hkdf_salt, hkdf_info,
}
use chat_terminal.Client.Envelope.RoundTrip.{
  GoodSuite, encrypt_message_lem, decrypt_message-encrypt_message,
}
use chat_terminal.Client.Db.Messages.{new_message, save, edit_message, delete_message}
use chat_terminal.Client.Db.Contacts.{get_public_key, add_contact}
use chat_terminal.Client.MessageHandler.{
  to_fields, encrypted_payload, payload_for, message_kwargs, send, payload_of, is_sealed,
  plaintext_or, handle_incoming, handle_edit, handle_delete, edited,
}

pub to_packet-to_fields : (d : Packet) → to_packet (to_fields d) ≡ d
unfolding to_packet
to_packet-to_fields [] = refl
to_packet-to_fields ((k, v) ∷ d) = ap (λ r. (k, v) ∷ r) (to_packet-to_fields d)

-- The mark on an encrypted payload is not read.
abbrev marked : Packet → Packet
marked payload = insert "encrypted" (bool true) payload

decoded_field-marked :
    (suite : Suite) (k : String) (payload : Packet)
    → ("encrypted" == k) ≡ false
    → decoded_field suite k (marked payload) ≡ decoded_field suite k payload
unfolding decoded_field
decoded_field-marked suite k payload other =
    let same : lookup k (marked payload) ≡ lookup k payload =
      lookup-insert "encrypted" k (bool true) payload ∙ rw other refl in
    rw (same, decoded_field) refl

decrypt_message-marked :
    (suite : Suite) (payload : Packet) (key : Bytes)
    → decrypt_message suite (marked payload) key ≡ decrypt_message suite payload key
unfolding decrypt_message
decrypt_message-marked suite payload key =
    rw
      (
        decoded_field-marked suite "ephemeral_pubkey" payload refl,
        decoded_field-marked suite "ciphertext" payload refl,
        decoded_field-marked suite "nonce" payload refl,
        decoded_field-marked suite "auth_tag" payload refl,
      )
      refl

is_sealed-marked : (payload : Packet) → is_sealed (marked payload) ≡ is_sealed payload
unfolding is_sealed get_or_null
is_sealed-marked payload =
    let same : lookup "ephemeral_pubkey" (marked payload) ≡ lookup "ephemeral_pubkey" payload =
      lookup-insert "encrypted" "ephemeral_pubkey" (bool true) payload in
    ground (arith, same)

module _ (env : Env) (w : World) (to_user plaintext key64 : String) (my_key key secret : Bytes)
    (unlocked : env.private_key ≡ some my_key)
    (known : get_public_key to_user w.contacts ≡ some key64) (there : is_empty key64 ≡ false)
    (decoded : env.suite.b64decode key64 ≡ some key) where
  payload_for_lem :
      (payload : Packet)
      → encrypt_message env.suite (env.ephemeral w.drawn) (env.nonce (suc w.drawn)) plaintext key
        ≡ some payload
      → payload_for env to_user plaintext w
        ≡ (ok (marked payload), record w { drawn = suc (suc w.drawn) })
  unfolding payload_for encrypted_payload draw
  payload_for_lem payload enc = rw (unlocked, known, there, decoded, enc) refl

-- A packet that carries a message
abbrev pub sent_packet : Env → ℕ → String → String → Packet → Packet
sent_packet env drawn mid to_user payload =
    make_packet message (env.uuid drawn) env.now (message_kwargs env mid to_user payload)

pub send_lem :
    (env : Env) (w : World) (to_user plaintext : String) (payload : Packet) (drawn : ℕ)
    → payload_for env to_user plaintext (record w { drawn = suc w.drawn })
      ≡ (ok payload, record w { drawn = drawn })
    → (send env to_user plaintext w).1.outbox
      ≡ w.outbox ++ sent_packet env drawn (env.uuid w.drawn) to_user payload ∷ []
unfolding send draw emit
send_lem env w to_user plaintext payload drawn h = rw (h, send) refl

plaintext_or_lem :
    (env : Env) (w : World) (failed : Exec String) (payload : Packet) (my_key : Bytes)
    (plaintext : String)
    → env.private_key ≡ some my_key
    → is_sealed payload ≡ true
    → decrypt_message env.suite payload my_key ≡ some plaintext
    → plaintext_or failed env payload w ≡ (ok plaintext, w)
unfolding plaintext_or
plaintext_or_lem env w failed payload my_key plaintext unlocked sealed decrypted =
    rw (sealed, unlocked, decrypted, plaintext_or) refl

-- What the recipient stores of a packet whose payload it can read
pub incoming_lem :
    (sender env : Env) (w : World) (drawn : ℕ) (mid to_user plaintext : String) (payload : Packet)
    (my_key : Bytes)
    → is_empty mid ≡ false
    → is_empty sender.me ≡ false
    → nat_beq sender.now 0 ≡ false
    → env.private_key ≡ some my_key
    → is_sealed payload ≡ true
    → decrypt_message env.suite payload my_key ≡ some plaintext
    → let pkt = sent_packet sender drawn mid to_user payload in
      handle_incoming env pkt w ≡ (
        ok tt,
        record w {
          messages = save (new_message mid sender.me env.me plaintext sender.now true) w.messages;
          contacts = add_contact env.now sender.me none w.contacts;
          shown = w.shown ++ insert "_plaintext" (text plaintext) pkt ∷ [];
        },
      )
unfolding handle_incoming text_or payload_of truthy_text timestamp_or_now draw show make_packet
    value update insert lookup truthy
incoming_lem sender env w drawn mid to_user plaintext payload my_key some_id named late unlocked
      sealed decrypted =
    let back = to_packet-to_fields payload in
    let opened : decrypt_message env.suite (to_packet (to_fields payload)) my_key ≡ some plaintext =
      ap (λ p. decrypt_message env.suite p my_key) back ∙ decrypted in
    rw (some_id, late, named, back, sealed, unlocked, opened, handle_incoming) refl

is_sealed-envelope :
    (suite : Suite) (ephemeral_public nonce sealed : Bytes)
    → is_empty (suite.b64encode ephemeral_public) ≡ false
    → is_sealed (envelope suite ephemeral_public nonce sealed) ≡ true
unfolding is_sealed get_or_null envelope lookup truthy
is_sealed-envelope suite ephemeral_public nonce sealed h = rw h refl

-- What two users and the suite of both rely on for one message
pub record Exchange (alice bob : Env) (w : World) (plaintext key64 : String)
    (bob_key secret : Bytes) : Type 0 where
  pub good : GoodSuite alice.suite
  pub same_suite : bob.suite ≡ alice.suite
  pub unlocked : bob.private_key ≡ some bob_key
  pub known : get_public_key bob.me w.contacts ≡ some key64
  pub there : is_empty key64 ≡ false
  pub decoded : alice.suite.b64decode key64 ≡ some (alice.suite.public_key bob_key)
  pub nonce_12 : length (alice.nonce (suc (suc w.drawn))) ≡ 12
  pub shared :
      alice.suite.exchange (alice.ephemeral (suc w.drawn)) (alice.suite.public_key bob_key)
      ≡ some secret
  pub utf8 : alice.suite.utf8_decode (alice.suite.utf8_encode plaintext) ≡ some plaintext
  pub encoded :
      is_empty (alice.suite.b64encode (alice.suite.public_key (alice.ephemeral (suc w.drawn))))
      ≡ false
  pub named : is_empty alice.me ≡ false
  pub identified : is_empty (alice.uuid w.drawn) ≡ false
  pub late : nat_beq alice.now 0 ≡ false

-- What `send` puts into the packet of such a message, and that the recipient can read it
pub exchanged :
    (alice bob : Env) (w : World) (plaintext key64 : String) (alice_key bob_key secret : Bytes)
    → alice.private_key ≡ some alice_key
    → Exchange alice bob w plaintext key64 bob_key secret
    → (payload : Packet) × (payload_for alice bob.me plaintext (record w { drawn = suc w.drawn })
        ≡ (ok payload, record w { drawn = suc (suc (suc w.drawn)) }))
      × (is_sealed payload ≡ true)
      × (decrypt_message bob.suite payload bob_key ≡ some plaintext)
exchanged alice bob w plaintext key64 alice_key bob_key secret ready x =
    let suite = alice.suite in
    let w' = record w { drawn = suc w.drawn } in
    let ephemeral = alice.ephemeral (suc w.drawn) in
    let nonce = alice.nonce (suc (suc w.drawn)) in
    let key = suite.public_key bob_key in
    let (payload, enc, dec) =
      decrypt_message-encrypt_message suite x.good ephemeral bob_key nonce secret plaintext
        x.nonce_12 x.shared x.utf8 in
    let whole =
      sym (encrypt_message_lem suite ephemeral nonce key secret plaintext x.shared) ∙ enc in
    let body =
      suite.aead.encrypt (suite.hkdf hkdf_salt hkdf_info secret) nonce
        (suite.utf8_encode plaintext) in
    let same : envelope suite (suite.public_key ephemeral) nonce body ≡ payload = cc whole in
    let sealed : is_sealed payload ≡ true =
      ap is_sealed (sym same)
      ∙ is_sealed-envelope suite (suite.public_key ephemeral) nonce body x.encoded in
    let opened : decrypt_message bob.suite (marked payload) bob_key ≡ some plaintext =
      subst (λ s. decrypt_message s (marked payload) bob_key ≡ some plaintext) (sym x.same_suite)
        (decrypt_message-marked suite payload bob_key ∙ dec) in
    (
      marked payload,
      payload_for_lem alice w' bob.me plaintext key64 alice_key key secret ready x.known x.there
          x.decoded payload enc,
      is_sealed-marked payload ∙ sealed,
      opened,
    )

-- A message that is sent with the sender's private key unlocked, to a user whose public key is stored
-- and who has unlocked the private key, leaves as one packet; when that packet arrives, with the
-- sender that it names, the recipient stores the plaintext under the message's identity, between
-- these two users, with the sender's time and as delivered. What is relied on is `Exchange`: the
-- same good cryptographic suite, a key exchange and UTF-8 that succeed, nonces of 12 bytes, a sender
-- with a name, identities that are not empty, and a time that is not zero.
pub handle_incoming-send :
    (alice bob : Env) (w v : World) (plaintext key64 : String) (alice_key bob_key secret : Bytes)
    → alice.private_key ≡ some alice_key
    → Exchange alice bob w plaintext key64 bob_key secret
    → (pkt : Packet) × ((send alice bob.me plaintext w).1.outbox ≡ w.outbox ++ pkt ∷ [])
      × ((handle_incoming bob pkt v).1.messages
          ≡ save
              (new_message (alice.uuid w.drawn) alice.me bob.me plaintext alice.now true)
              v.messages)
handle_incoming-send alice bob w v plaintext key64 alice_key bob_key secret ready x =
    let (payload, chosen, sealed, opened) =
      exchanged alice bob w plaintext key64 alice_key bob_key secret ready x in
    let drawn = suc (suc (suc w.drawn)) in
    (
      sent_packet alice drawn (alice.uuid w.drawn) bob.me payload,
      send_lem alice w bob.me plaintext payload drawn chosen,
      ap (λ r. r.1.messages)
          (incoming_lem alice bob v drawn (alice.uuid w.drawn) bob.me plaintext payload bob_key
            x.identified x.named x.late x.unlocked sealed opened),
    )

module _ (k : String) (v : Json) (pkt : Packet) (other : ("from" == k) ≡ false) where
  not_from : lookup k (insert "from" v pkt) ≡ lookup k pkt
  not_from = lookup-insert "from" k v pkt ∙ rw other refl

payload_of_lem :
    (pkt payload : Packet) (w : World)
    → lookup "payload" pkt ≡ some (obj (to_fields payload))
    → payload_of pkt w ≡ (ok payload, w)
unfolding payload_of
payload_of_lem pkt payload w h =
    rw (payload_of, h) (ap (λ d. (ok d, w)) (to_packet-to_fields payload))

edited_lem :
    (env : Env) (pkt payload : Packet) (id plaintext : String) (w : World)
    → payload_of pkt w ≡ (ok payload, w)
    → plaintext_or raise env payload w ≡ (ok plaintext, w)
    → edited env pkt (some id) w
      ≡ (ok tt, record w { messages = edit_message id plaintext w.messages })
unfolding edited
edited_lem env pkt payload id plaintext w body read = rw (body, read) refl

update_rows-map :
    {A : Type 0} (p : A → Bool) (f : A → A) (rows : List A)
    → update_rows p f rows ≡ map (λ x. if p x then f x else x) rows
update_rows-map p f [] = refl
update_rows-map p f (x ∷ rows) =
    ap (λ rest. (if p x then f x else x) ∷ rest) (update_rows-map p f rows)

-- An edit and a deletion are carried out for whoever sent them: when the packet, whatever sender it
-- names, has the identity of a message, the edit replaces the text of that message by what the payload
-- says and marks it as edited, and the deletion marks it as deleted. For the edit, the payload is read
-- without raising, as the plaintext. Nothing but the table of messages changes, and of it only the rows
-- with that identity.
pub handle_edit-stranger :
    (env : Env) (w : World) (pkt payload : Packet) (stranger msg_id plaintext : String)
    → lookup "msg_id" pkt ≡ some (text msg_id)
    → is_empty msg_id ≡ false
    → lookup "payload" pkt ≡ some (obj (to_fields payload))
    → plaintext_or raise env payload w ≡ (ok plaintext, w)
    → let forged = insert "from" (text stranger) pkt in
      let replace = λ (m : Message). record m { plaintext = plaintext; edited = true } in
      let strike = λ (m : Message). record m { deleted = true } in
      let change =
        λ (f : Message → Message). map (λ m. if m.id == msg_id then f m else m) w.messages in
      (handle_edit env forged w ≡ (ok tt, record w { messages = change replace }))
      × (handle_delete forged w ≡ (ok tt, record w { messages = change strike }))
unfolding handle_edit handle_delete edit_message delete_message
handle_edit-stranger env w pkt payload stranger msg_id plaintext with_id there with_payload read =
    let v = text stranger in
    let found =
      truthy_text_lem "msg_id" msg_id (insert "from" v pkt) w
        (not_from "msg_id" v pkt refl ∙ with_id) there in
    let body : payload_of (insert "from" v pkt) w ≡ (ok payload, w) =
      payload_of_lem (insert "from" v pkt) payload w
        (not_from "payload" v pkt refl ∙ with_payload) in
    let named : Message → Bool = λ m. m.id == msg_id in
    (
      rw
          (
            found,
            edited_lem env (insert "from" v pkt) payload msg_id plaintext w body read,
            update_rows-map named (λ m. record m { plaintext = plaintext; edited = true })
                w.messages,
          )
          refl,
      rw (found, update_rows-map named (λ m. record m { deleted = true }) w.messages) refl,
    )
