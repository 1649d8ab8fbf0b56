-- ===== src/Client/App/Keys.antt =====
-- client/app.py: the keys, and the line that is typed.
use Prim.Native.String.{count}
use chat_terminal.Common.{
  ℕ, ◌+◌, ◌-◌, min, String, Bool, true, false, ◌&&◌, ◌||◌, Option, none, some, [], ◌∷◌, string_eq,
  if◌then◌else◌, nat_beq, leb,
}
use chat_terminal.Common.Exec.{modify, ◌>>◌, skip}
use chat_terminal.Shared.Protocol.{text, Packet, typing}
use chat_terminal.Shared.Text.{str_append}
use chat_terminal.Shared.Words.{str_take, str_drop, chr}
use chat_terminal.Client.App.{App, Act, Host, send_pkt, is_room_chat, room_id_from_key, open_chat}
use chat_terminal.Client.App.Commands.{submit}

-- The codes of curses
abbrev pub key_enter : ℕ
key_enter = 343

abbrev pub key_backspace : ℕ
key_backspace = 263

abbrev pub key_left : ℕ
key_left = 260

abbrev pub key_right : ℕ
key_right = 261

abbrev pub key_home : ℕ
key_home = 262

abbrev pub key_end : ℕ
key_end = 360

abbrev pub is_enter : ℕ → Bool
is_enter key = nat_beq key key_enter || nat_beq key 10 || nat_beq key 13

abbrev pub is_backspace : ℕ → Bool
is_backspace key = nat_beq key key_backspace || nat_beq key 127 || nat_beq key 8

abbrev pub is_printable : ℕ → Bool
is_printable key = leb 32 key && leb key 126

unfoldable pub backspace : App → App
unfolding str_take str_drop
backspace a = if nat_beq a.cursor 0 then record a { dirty = true } else record a {
  buf = str_append (str_take (a.cursor - 1) a.buf) (str_drop a.cursor a.buf);
  cursor = a.cursor - 1;
  dirty = true;
}

abbrev pub move_to : ℕ → App → App
move_to position a = record a { cursor = position; dirty = true }

-- The character of a key is put in before the cursor.
unfoldable pub typed : ℕ → App → App
unfolding str_take str_drop chr
typed key a = record a {
  buf = str_append (str_take a.cursor a.buf) (String.◌∷◌ (chr key) (str_drop a.cursor a.buf));
  cursor = a.cursor + 1;
  dirty = true;
}

-- Whom the typing indicator goes to
unfoldable pub typing_fields : String → String → Packet
unfolding is_room_chat room_id_from_key
typing_fields me chat =
    if is_room_chat chat
    then ("room_id", text (room_id_from_key chat)) ∷ ("from", text me) ∷ []
    else ("to", text chat) ∷ ("from", text me) ∷ []

-- The typing indicator, with a chat open or not, and with the handlers or not
unfoldable pub show_typing : Host → String → Option String → Bool → Act (Unit {0})
unfolding typing_fields send_pkt
show_typing host me (some chat) true = send_pkt host typing (typing_fields me chat)
show_typing host me (some chat) false = skip
show_typing host me none _ = skip

abbrev pub indicate : Host → Act (Unit {0})
indicate host a = show_typing host a.username (open_chat a) a.logged_in a

-- `_handle_key`
unfoldable pub handle_key : Host → ℕ → Act (Unit {0})
unfolding submit backspace typed show_typing open_chat
handle_key host key =
    if nat_beq key 3
    then modify (λ a. record a { running = false })
    else if is_enter key
    then submit host
    else if is_backspace key
    then modify backspace
    else if nat_beq key key_left
    then modify (λ a. move_to (a.cursor - 1) a)
    else if nat_beq key key_right
    then modify (λ a. move_to (min (count a.buf) (a.cursor + 1)) a)
    else if nat_beq key key_home
    then modify (move_to 0)
    else if nat_beq key key_end
    then modify (λ a. move_to (count a.buf) a)
    else if is_printable key
    then modify (typed key) >> indicate host
    else skip
