-- ===== src/Client/Screens/Windows.antt =====
-- client/ui/screen.py, client/ui/status_bar.py, client/ui/sidebar.py and client/ui/chat_view.py: the
-- sizes of the windows and the lines in them, without attributes.
use Prim.Native.Char.{char}
use Prim.Native.String.{count}
use chat_terminal.Common.{
  ℕ, ◌-◌, String, Bool, true, false, Option, none, some, List, [], ◌∷◌, ◌++◌, if◌then◌else◌,
  nat_beq, ltb, length, drop, map, string_eq, ◌==◌, ◌≡◌, refl,
}
use chat_terminal.Common.Dict.{Dict, lookup}
use chat_terminal.Shared.Text.{is_empty, str_append}
use chat_terminal.Shared.Words.{str_take, repeated, concat}
use chat_terminal.Client.World.{Message}
use chat_terminal.Client.App.{Entry, room, contact, entry_name}
use chat_terminal.Client.Screens.{trunc}

-- `max(a, b)`
abbrev max : ℕ → ℕ → ℕ
max a b = if ltb a b then b else a

abbrev sidebar_w : ℕ
sidebar_w = 22

-- `_rebuild`: the height of the two middle windows and the width of the chat
unfoldable pub mid_h : ℕ → ℕ
mid_h h = max (h - 2) 1

unfoldable pub chat_w : ℕ → ℕ
chat_w w = max (w - sidebar_w - 1) 1

-- The line of the status bar, in a window that is wide enough for its right part
unfoldable pub status_line : (ℕ → String) → String → Option String → ℕ → ℕ → String
unfolding trunc repeated
status_line decimal status chat unread w =
    let name = elim chat as (λ _. String) [
      | none ↦ ""
      | some c ↦ if is_empty c then "" else str_append "  ›  " c
    ] in
    let dot = if status == "online" then "●" else "○" in
    let badge = if nat_beq unread 0 then "" else concat (" [" ∷ decimal unread ∷ " unread]" ∷ []) in
    let right = concat (" " ∷ dot ∷ " " ∷ status ∷ badge ∷ " " ∷ []) in
    let title = trunc (str_append " ChatterTerminal v1.0" name) (w - count right - 1) in
    concat (title ∷ repeated (char 32 tt) (w - count title - count right) ∷ right ∷ [])

abbrev dot_of : Entry → String
dot_of (room key name) = "#"
dot_of (contact c) = if c.status == "online" then "●" else "○"

abbrev label_of : Entry → String
label_of (room key name) = str_append "#" name
label_of (contact c) = c.username

-- The line of an entry of the sidebar with its count of unread messages, in a window of more than five columns
unfoldable pub entry_line : (ℕ → String) → Dict String ℕ → ℕ → Entry → String
unfolding trunc
entry_line decimal unread w e =
    let line = concat (" " ∷ dot_of e ∷ " " ∷ trunc (label_of e) (w - 5) ∷ []) in
    let badge : ℕ = elim (lookup (entry_name e) unread) [ none ↦ 0 | some n ↦ n ] in
    if nat_beq badge 0
    then line
    else (let shown = concat ("[" ∷ decimal badge ∷ "]" ∷ []) in
        str_append (trunc line (w - count shown - 1)) shown)

-- The receipt behind a message of the user
abbrev receipt : Message → String
receipt m = if m.read_status then " read" else if m.delivered then " sent" else ""

-- The header of a message: who, when, which
unfoldable pub header : (ℕ → String) → String → Message → String
unfolding trunc str_take
header fmt_time self_user m =
    let edited = if m.edited then " edited" else "" in
    if m.from_user == self_user
    then concat
        ("  You  " ∷ fmt_time m.timestamp ∷ "  " ∷ str_take 8 m.id ∷ receipt m ∷ edited ∷ [])
    else concat (
        "  "
        ∷ trunc m.from_user 16
        ∷ "  "
        ∷ fmt_time m.timestamp
        ∷ "  "
        ∷ str_take 8 m.id
        ∷ edited
        ∷ [])

-- A line of the user's own message stands at the right.
abbrev body_line : Bool → ℕ → String → String
body_line true w line = concat (" " ∷ repeated (char 32 tt) (w - 2 - count line) ∷ line ∷ [])
body_line false w line = str_append "  " line

-- `textwrap.wrap(text, max_w) or [""]`
abbrev wrapped : (ℕ → String → List String) → ℕ → String → List String
wrapped wrap w plaintext = elim (wrap (max (w - 4) 10) plaintext) [
  | [] ↦ "" ∷ []
  | line ∷ lines ↦ line ∷ lines
]

-- The lines of all messages that are not deleted
unfoldable pub rendered :
    (ℕ → String) → (ℕ → String → List String) → String → ℕ → List Message → List String
unfolding header
rendered fmt_time wrap self_user w [] = []
rendered fmt_time wrap self_user w (m ∷ messages) =
    let rest = rendered fmt_time wrap self_user w messages in
    if m.deleted
    then rest
    else ""
        ∷ header fmt_time self_user m
        ∷ map (body_line (m.from_user == self_user) w) (wrapped wrap w m.plaintext)
      ++ rest

-- The last lines that fit into the window, and the row of the first of them
unfoldable pub visible : ℕ → List String → ℕ × List String
visible h lines = (h - length lines, drop (length lines - h) lines)

-- `render` of the chat, with a chat open and messages in it
unfoldable pub chat_lines :
    (ℕ → String) → (ℕ → String → List String) → String → ℕ → ℕ → List Message → ℕ × List String
unfolding rendered visible
chat_lines fmt_time wrap self_user h w messages =
    visible h (rendered fmt_time wrap self_user w messages)

-- Two rows of a window are taken, the lines of the newest messages.
newest_lines : visible 2 ("a" ∷ "b" ∷ "c" ∷ []) ≡ (0, "b" ∷ "c" ∷ [])
unfolding visible
newest_lines = refl
