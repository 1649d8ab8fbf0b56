-- ===== src/Client/Screens/Tests.antt =====
-- A witness of the input bar.
use Prim.Native.String.{count}
use chat_terminal.Common.{◌≡◌, ◌<◌, ◌≤◌, ◌+◌, ◌-◌, ℕ, arith}
use Prim.Native.Char.{char}
use chat_terminal.Shared.Text.{str_append}
use chat_terminal.Shared.Words.{str_take, str_drop, repeated}
use chat_terminal.Client.Screens.{room_for_line, right_text, render_input}
use chat_terminal.Client.Screens.InputBar.{render_input-width}

-- A window of 20 columns, and a line that is longer than its room of 11
render_input-width_example :
    let (bar, column) = render_input "a line that is too long" 20 "" 20 in
    (first blanks : ℕ) × (bar
      ≡ str_append
          (str_append "> " (str_take 11 (str_drop first "a line that is too long")))
          (str_append (repeated (char 32 tt) blanks) (right_text "" 20)))
    × (count bar ≡ 20)
    × (first ≤ 20)
    × (20 < first + 11)
    × (column ≡ 2 + (20 - first))
    × (column < 20)
unfolding room_for_line right_text
render_input-width_example = render_input-width "a line that is too long" "" 20 20 (omega arith)
