-- ===== src/Client/Screens.antt =====
-- The screens of client/ui: what the input bar and the sidebar show, and how the overlays read their
-- keys. Where and in which colours curses draws is left out.
pub mod InputBar
pub mod Windows
mod Tests
use Prim.Native.Char.{char}
use Prim.Native.String.{count}
use chat_terminal.Common.{
  ℕ, zero, suc, ◌+◌, ◌-◌, ◌/◌, String, Bool, true, false, not, ◌&&◌, ◌||◌, Option, none, some, List,
  [], ◌∷◌, ◌++◌, if◌then◌else◌, nat_beq, ltb, leb, length, drop, string_eq, ◌==◌,
}
use chat_terminal.Shared.Text.{is_empty, str_append, strip}
use chat_terminal.Shared.Words.{str_take, str_drop, chr, repeated}
use chat_terminal.Client.App.Keys.{is_enter, is_backspace, is_printable}

-- shared/utils.py: `trunc`, for a width of one and more
unfoldable pub trunc : String → ℕ → String
unfolding str_take
trunc s n = if leb (count s) n then s else str_append (str_take (n - 1) s) "…"

-- client/ui/input_bar.py: the text to the right of a window of this width
unfoldable pub right_text : String → ℕ → String
unfolding str_take
right_text hint w =
    str_take (w / 3) (if is_empty hint then "  [Enter] send  [^C] quit" else str_append "  " hint)

-- The room for the line: the prompt has two characters.
unfoldable pub room_for_line : String → ℕ → ℕ
unfolding right_text
room_for_line hint w = w - 2 - count (right_text hint w) - 1

-- The first character of the line that is shown
unfoldable pub first_shown : ℕ → ℕ → ℕ
first_shown avail cursor = (cursor + 1) - avail

-- What is shown of the line, and the column of the cursor
unfoldable pub shown_line : ℕ → String → ℕ → String × ℕ
unfolding first_shown str_take str_drop
shown_line avail buf cursor =
    if ltb 0 avail
    then (
      str_take avail (str_drop (first_shown avail cursor) buf),
      2 + (cursor - first_shown avail cursor),
    )
    else (String.[], 2)

-- `render` of the input bar: the text, and the column of the cursor
unfoldable pub render_input : String → ℕ → String → ℕ → String × ℕ
unfolding shown_line room_for_line right_text repeated
render_input buf cursor hint w =
    let right = right_text hint w in
    let (visible, column) = shown_line (room_for_line hint w) buf cursor in
    let line = str_append "> " visible in
    let blanks = repeated (char 32 tt) (w - count line - count right) in
    (str_append line (str_append blanks right), column)

-- client/ui/auth_screen.py: a key ends an input with an answer, or the input goes on.
pub data Step : Type 0 where
  ends : Option String → Step
  goes_on : String → Step

-- A key of `_get_line`
unfoldable pub line_key : String → ℕ → Step
unfolding str_take chr
line_key buf key =
    if is_enter key
    then ends (some buf)
    else if is_backspace key
    then goes_on (str_take (count buf - 1) buf)
    else if is_printable key
    then goes_on (str_append buf (String.◌∷◌ (chr key) String.[]))
    else goes_on buf

abbrev pub is_one_of : ℕ → List ℕ → Bool
is_one_of key [] = false
is_one_of key (k ∷ ks) = nat_beq key k || is_one_of key ks

-- A key of `unlock`: `none` is another account, and "" no password
unfoldable pub unlock_key : String → ℕ → Step
unfolding line_key
unlock_key buf key =
    if is_one_of key (27 ∷ 113 ∷ 81 ∷ 3 ∷ [])
    then ends none
    else if is_one_of key (115 ∷ 83 ∷ [])
    then ends (some "")
    else if is_one_of key (110 ∷ 78 ∷ [])
    then ends none
    else line_key buf key

-- The loop of either, over the keys that are pressed: the answer and the keys that are left, or nothing
-- if the keys end before the input does
unfoldable pub read_keys : (String → ℕ → Step) → String → List ℕ → Option (Option String × List ℕ)
read_keys step buf [] = none
read_keys step buf (key ∷ keys) = elim (step buf key) [
  | ends answer ↦ some (answer, keys)
  | goes_on longer ↦ read_keys step longer keys
]

unfoldable pub get_line : List ℕ → Option (Option String × List ℕ)
unfolding read_keys line_key
get_line keys = read_keys line_key "" keys

unfoldable pub unlock : List ℕ → Option (Option String × List ℕ)
unfolding read_keys unlock_key
unlock keys = read_keys unlock_key "" keys

-- The wait for the mode in `show`: to register or not, or nothing to quit
unfoldable pub choose_mode : List ℕ → Option (Option Bool × List ℕ)
choose_mode [] = none
choose_mode (key ∷ keys) =
    let rest = choose_mode keys in
    if is_one_of key (108 ∷ 76 ∷ [])
    then some (some false, keys)
    else if is_one_of key (114 ∷ 82 ∷ [])
    then some (some true, keys)
    else if is_one_of key (113 ∷ 81 ∷ 3 ∷ 27 ∷ [])
    then some (none, keys)
    else rest

pub data Form : Type 0 where
  quit : Form
  filled : Bool → String → String → Form

-- The two lines of the form. A form with an empty field is shown again: `again` is what that gives.
abbrev filled_form : Bool → String → String → Option Form → Option Form
filled_form registering username password again =
    if is_empty username || is_empty password
    then again
    else some (filled registering username password)

abbrev line_of : Option String → String
line_of none = ""
line_of (some s) = s

-- `show`, with fuel for the forms that are shown; as many as there are keys are enough, and one more.
unfoldable pub show : ℕ → List ℕ → Option Form
unfolding choose_mode get_line strip
show zero keys = none
show (suc fuel) keys = elim (choose_mode keys) [
  | none ↦ none
  | some (none, rest) ↦ some quit
  | some (some registering, rest) ↦ elim (get_line rest) [
    | none ↦ none
    | some (name, left) ↦ elim (get_line left) [
      | none ↦ none
      | some (password, others) ↦
          filled_form registering (strip (line_of name)) (line_of password) (show fuel others)
    ]
  ]
]

-- client/ui/verify_screen.py: `show`, from the keys that are pressed
unfoldable pub verify : List ℕ → Option Bool
verify [] = none
verify (key ∷ keys) =
    let rest = verify keys in
    if nat_beq key 99 || nat_beq key 67
    then some true
    else if nat_beq key 27
    then some false
    else rest
