-- ===== src/Client/App/Unread.antt =====
-- client/app.py: the counts of unread messages, and the database.
use chat_terminal.Common.{
  ℕ, String, Bool, true, false, ◌||◌, some, List, [], ◌∷◌, ◌≡◌, refl, sym, ap, ◌∙◌, inl, inr,
  string_eq, ◌==◌, beq_refl, if◌then◌else◌, length, where_rows, arith, Bool-cases, Option-cases,
}
use chat_terminal.Common.Dict.{Dict, lookup, insert, contains, lookup-insert}
use chat_terminal.Common.Exec.{ok, modify, ◌>>◌}
use chat_terminal.Shared.Protocol.{text, Packet, MsgType}
use chat_terminal.Server.Ws.Fields.{get_or_null}
use chat_terminal.Shared.Text.{is_empty}
use chat_terminal.Server.World.{update_rows}
use chat_terminal.Client.World.{Message}
use chat_terminal.Client.Reading.{text_or_lem}
use chat_terminal.Client.Db.Messages.{unread_from, mark_read, unread_count}
use chat_terminal.Client.App.{
  App, Host, Entry, entry_name, counted, refresh_contacts, is_open, set_unread, first_count,
  load_messages, roster, request_public_key, set_notice, send_pkt,
}
use chat_terminal.Client.App.Commands.{open_dm}
use chat_terminal.Client.App.Rooms.{open_at}
use chat_terminal.Client.App.Callbacks.{add, read_all, announced, on_new_message}

-- An update that makes every row that it finds one that it would not find leaves none to be found.
none_left :
    {A : Type 0} (p : A → Bool) (f : A → A) (rows : List A)
    → ((x : A) → p (f x) ≡ false)
    → length (where_rows p (update_rows p f rows)) ≡ 0
none_left p f [] gone = refl
none_left p f (x ∷ rows) gone = elim (Bool-cases (p x)) [
  | inl found ↦ rw (found, gone x) (none_left p f rows gone)
  | inr other ↦ rw (other, other) (none_left p f rows gone)
]

-- What has been read is not counted.
unread_count-mark_read :
    (peer me : String) (rows : List Message) → unread_count peer me (mark_read peer me rows) ≡ 0
unfolding unread_count mark_read
unread_count-mark_read peer me rows =
    none_left (unread_from peer me) (λ m. record m { read_status = true }) rows (λ m. ground arith)

-- A count that is there stays when another is put where there is none.
lookup-first :
    (chat k : String) (n v : ℕ) (unread : Dict String ℕ)
    → lookup chat unread ≡ some n
    → lookup chat (if contains k unread then unread else insert k v unread) ≡ some n
lookup-first chat k n v unread known = elim (Option-cases (lookup k unread)) [
  | inr (m, there) ↦ ground (arith, there, known)
  | inl missing ↦
      ground (arith, missing, known, lookup-insert k chat v unread, string_eq.decides k chat)
]

lookup-counted :
    (a : App) (entries : List Entry) (unread : Dict String ℕ) (chat : String) (n : ℕ)
    → lookup chat unread ≡ some n
    → lookup chat (counted a entries unread) ≡ some n
unfolding counted
lookup-counted a [] unread chat n known = known
lookup-counted a (e ∷ entries) unread chat n known =
    lookup-counted a entries
      (if contains (entry_name e) unread
        then unread
        else insert (entry_name e) (first_count a e) unread)
      chat n (lookup-first chat (entry_name e) n (first_count a e) unread known)

-- A count that has just been set is what the sidebar shows.
refreshed :
    (chat : String) (n : ℕ) (a : App)
    → lookup chat (refresh_contacts (set_unread chat n a)).unread ≡ some n
unfolding refresh_contacts
refreshed chat n a =
    let a' = set_unread chat n a in
    lookup-counted a' (roster a') a'.unread chat n
      (lookup-insert chat chat n a.unread ∙ rw (beq_refl chat) refl)

-- Asking for a key does not raise.
asked : (host : Host) (target : String) (a : App) → (request_public_key host target a).0 ≡ ok tt
unfolding request_public_key
asked host target a = elim (Bool-cases (is_empty target || target == a.username)) [
  | inl none_to_ask ↦ rw (none_to_ask) refl
  | inr another ↦ rw (another) refl
]

-- After `/dm` with another user, the chat is open, the database holds no unread message of that user, and
-- the sidebar counts none.
pub open_dm-read :
    (host : Host) (target : String) (a : App)
    → (target == a.username) ≡ false
    → let a' = (open_dm host target a).1 in
      (a'.current_chat ≡ some target)
      × (unread_count target a'.username a'.world.messages ≡ 0)
      × (lookup target a'.unread ≡ some 0)
unfolding open_dm refresh_contacts set_notice
open_dm-read host target a other =
    let b = (request_public_key host target (add host target a)).1 in
    rw (other, asked host target (add host target a))
      (
        refl,
        unread_count-mark_read target b.username b.world.messages,
        refreshed target 0 (read_all target (load_messages (open_at target b))),
      )

abbrev announced_with : Host → Packet → String → App → App
announced_with host pkt sender b =
    (send_pkt host MsgType.read (("to", text sender) ∷ ("msg_id", get_or_null "id" pkt) ∷ [])
      (read_all sender (load_messages b))).1

-- The sidebar's count after a message, whether or not its chat is open
announced_lem :
    (host : Host) (pkt : Packet) (sender : String) (here : Bool) (b : App)
    → let a' = (announced host pkt sender here >> modify refresh_contacts) b in
      lookup sender a'.1.unread ≡ some (unread_count sender a'.1.username a'.1.world.messages)
unfolding announced refresh_contacts
announced_lem host pkt sender true b =
    let c = announced_with host pkt sender b in
    refreshed sender 0 c ∙ ap some (sym (unread_count-mark_read sender b.username b.world.messages))
announced_lem host pkt sender false b =
    refreshed sender (unread_count sender b.username b.world.messages) b

-- After a message of a sender has been announced, the count that the sidebar shows for the sender is the
-- number of unread messages in the database, whether or not the chat with the sender is open.
pub on_new_message-counted :
    (host : Host) (pkt : Packet) (sender : String) (a : App)
    → lookup "from" pkt ≡ some (text sender)
    → let a' = (on_new_message host pkt a).1 in
      lookup sender a'.unread ≡ some (unread_count sender a'.username a'.world.messages)
unfolding on_new_message refresh_contacts
on_new_message-counted host pkt sender a named =
    let b = add host sender a in
    rw (text_or_lem "" "from" sender pkt a.world named)
      (announced_lem host pkt sender (is_open sender b) b)
