-- ===== src/Client/App/Names.antt =====
-- client/app.py: the names of chats, and the user's own.
use Prim.Native.Char.{Char, code}
use Prim.Native.String.{count}
use Prim.Native.String.append
use Prim.Native.String.count as counting
use chat_terminal.Common.{
  suc, beq_ne, String, Bool, true, false, not, List, [], ◌∷◌, ◌≡◌, refl, sym, ap, ◌∙◌, string_eq,
  ◌==◌, where_rows, exists_row, Bool-cases, inl, inr, nat_eq, beq_refl, arith,
}
use chat_terminal.Common.Exec.{Outcome, ok, raised, continue, modify, ◌>>◌}
use chat_terminal.Shared.Protocol.{Packet}
use chat_terminal.Shared.Text.{is_empty, str_append}
use chat_terminal.Shared.Words.{starts_with, str_drop}
use chat_terminal.Client.World.{Contact}
use chat_terminal.Client.App.{App, Host, room_key, is_room_chat, room_id_from_key, refresh_contacts}
use chat_terminal.Client.App.Synced.{for_field}
use chat_terminal.Client.App.Router.{on_online_list, online, remove_self}

starts_with-append : (p s : String) → starts_with p (str_append p s) ≡ true
unfolding starts_with
starts_with-append String.[] s = refl
starts_with-append (String.◌∷◌ c p) s =
    rw (append.cons c p s, beq_refl (code c)) (starts_with-append p s)

str_drop-append : (p s : String) → str_drop (count p) (str_append p s) ≡ s
unfolding str_drop
str_drop-append String.[] s = append.nil s
str_drop-append (String.◌∷◌ c p) s =
    rw (counting.cons c p, append.cons c p s, str_drop-append p s) refl

not_empty : (c : Char) (s : String) → is_empty (String.◌∷◌ c s) ≡ false
not_empty c s = beq_ne (String.◌∷◌ c s) "" (λ e.
    let size : suc (count s) ≡ 0 = sym (counting.cons c s) ∙ ap count e in omega (arith, size))

-- The key of a room is told from a user's name, and gives the room's identity back.
pub room_id_from_key-room_key :
    (room_id : String)
    → (is_room_chat (room_key room_id) ≡ true) × (room_id_from_key (room_key room_id) ≡ room_id)
unfolding room_key is_room_chat room_id_from_key
room_id_from_key-room_key room_id =
    let prefixed = starts_with-append "room:" room_id in
    let there : is_empty (str_append "room:" room_id) ≡ false =
      ap is_empty (append.cons "r" "oom:" room_id) ∙ not_empty "r" (str_append "oom:" room_id) in
    (rw (there, prefixed) refl, rw (prefixed) (str_drop-append "room:" room_id))

where_rows-none :
    {A : Type 0} (p : A → Bool) (rows : List A)
    → exists_row p (where_rows (λ x. not (p x)) rows) ≡ false
where_rows-none p [] = refl
where_rows-none p (x ∷ rows) = elim (Bool-cases (p x)) [
  | inl found ↦ rw (found) (where_rows-none p rows)
  | inr other ↦ rw (other, other) (where_rows-none p rows)
]

abbrev named : String → Contact → Bool
named name c = c.username == name

-- The end of the branch, with what the loop over the names has come to
finished :
    (me : String) (r : Outcome (Unit {0})) (a : App)
    → is_empty me ≡ false
    → let done = continue r (λ _. modify (remove_self me) >> modify refresh_contacts) a in
      done.0 ≡ ok tt → exists_row (named me) done.1.world.contacts ≡ false
unfolding remove_self refresh_contacts
finished me (ok _) a known whole = rw (known) (where_rows-none (named me) a.world.contacts)
finished me raised a known whole = cc

-- When a list of online users has been taken in without a raise, by a user with a name, no contact has the
-- user's own name, whatever the list and the contacts were.
pub on_online_list-others :
    (host : Host) (pkt : Packet) (a : App)
    → is_empty a.username ≡ false
    → (on_online_list host pkt a).0 ≡ ok tt
    → exists_row (named a.username) (on_online_list host pkt a).1.world.contacts ≡ false
unfolding on_online_list
on_online_list-others host pkt a known whole =
    let (r, b) = for_field "users" (online host a.username) pkt a in
    finished a.username r b known whole
