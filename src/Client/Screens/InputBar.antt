-- ===== src/Client/Screens/InputBar.antt =====
-- client/ui/input_bar.py: the cursor and the width of the bar.
use Prim.Native.Char.{Char, char}
use Prim.Native.String.{count}
use Prim.Native.String.append
use Prim.Native.String.count as counting
use chat_terminal.Common.{
  ℕ, zero, suc, ◌+◌, ◌-◌, ◌≤◌, ◌<◌, String, ◌≡◌, refl, ap, ◌∙◌, arith, lt→ltb,
}
use chat_terminal.Shared.Text.{str_append}
use chat_terminal.Shared.Words.{str_take, str_drop, repeated}
use chat_terminal.Client.Screens.{right_text, room_for_line, first_shown, shown_line, render_input}

count-append : (s t : String) → count (str_append s t) ≡ count s + count t
count-append String.[] t = rw (append.nil t) (omega arith)
count-append (String.◌∷◌ c s) t =
    rw (append.cons c s t, counting.cons c (str_append s t), counting.cons c s, count-append s t)
      (omega arith)

count-repeated : (c : Char) (n : ℕ) → count (repeated c n) ≡ n
unfolding repeated
count-repeated c zero = refl
count-repeated c (suc n) = counting.cons c (repeated c n) ∙ ap suc (count-repeated c n)

count-take : (n : ℕ) (s : String) → count (str_take n s) ≤ n
unfolding str_take
count-take zero s = omega arith
count-take (suc n) String.[] = omega arith
count-take (suc n) (String.◌∷◌ c s) =
    rw (counting.cons c (str_take n s)) ground (arith, count-take n s)

room_lem : (hint : String) (w : ℕ) → room_for_line hint w ≡ w - 2 - count (right_text hint w) - 1
unfolding room_for_line
room_lem hint w = refl

first_lem : (avail cursor : ℕ) → first_shown avail cursor ≡ cursor + 1 - avail
unfolding first_shown
first_lem avail cursor = refl

abbrev visible : String → ℕ → ℕ → String
visible buf avail cursor = str_take avail (str_drop (first_shown avail cursor) buf)

shown_line_lem :
    (buf : String) (avail cursor : ℕ)
    → 0 < avail
    → shown_line avail buf cursor
      ≡ (visible buf avail cursor, 2 + (cursor - first_shown avail cursor))
unfolding shown_line
shown_line_lem buf avail cursor room = rw (lt→ltb 0 avail room) refl

-- The three parts of the bar, in a window of this width
bar_width :
    (seen right : String) (w : ℕ)
    → 2 + count seen + count right ≤ w
    → let line = str_append "> " seen in
      count
        (str_append line (str_append (repeated (char 32 tt) (w - count line - count right)) right))
      ≡ w
bar_width seen right w fits =
    let line = str_append "> " seen in
    let blanks = w - count line - count right in
    let size : count line ≡ 2 + count seen = count-append "> " seen in
    count-append line (str_append (repeated (char 32 tt) blanks) right)
    ∙ ap (λ n. count line + n) (count-append (repeated (char 32 tt) blanks) right)
    ∙ ap (λ n. count line + (n + count right)) (count-repeated (char 32 tt) blanks)
    ∙ ground (arith, size, fits)

-- In a window with room for the line, the bar is a prompt of two characters, a stretch of the typed line
-- that begins at some place and is as long as the room or goes to the line's end, blanks, and the hint on
-- the right; it is exactly as wide as the window. The place is not behind the cursor, and the cursor is
-- within the room from there on; the column in which the cursor is drawn, inside the window, is where the
-- stretch shows that place of the line.
pub render_input-width :
    (buf hint : String) (cursor w : ℕ)
    → 0 < room_for_line hint w
    → let room = room_for_line hint w in
      let (bar, column) = render_input buf cursor hint w in
      (first blanks : ℕ) × (bar
        ≡ str_append
            (str_append "> " (str_take room (str_drop first buf)))
            (str_append (repeated (char 32 tt) blanks) (right_text hint w)))
      × (count bar ≡ w)
      × (first ≤ cursor)
      × (cursor < first + room)
      × (column ≡ 2 + (cursor - first))
      × (column < w)
unfolding render_input
render_input-width buf hint cursor w room =
    let avail = room_for_line hint w in
    let seen = visible buf avail cursor in
    let right = right_text hint w in
    let first = first_shown avail cursor in
    let size : count seen ≤ avail = count-take avail (str_drop first buf) in
    let start = first_lem avail cursor in
    let whole = room_lem hint w in
    rw (shown_line_lem buf avail cursor room) (
      first,
      w - count (str_append "> " seen) - count right,
      refl,
      bar_width seen right w (ground (arith, size, whole, room)),
      ground (arith, start, room),
      ground (arith, start, room),
      refl,
      ground (arith, start, whole, room),
    )
