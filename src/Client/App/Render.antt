-- ===== src/Client/App/Render.antt =====
-- client/app.py, `_render`: what the windows are given. And a turn of `_ui_loop`.
use chat_terminal.Common.{
  true, false, none, some, nat_beq, ℕ, ◌+◌, ◌-◌, String, Option, List, [], ◌∷◌, if◌then◌else◌, ltb,
  ◌&&◌, not, string_eq, ◌==◌,
}
use chat_terminal.Common.Dict.{Dict}
use chat_terminal.Common.Exec.{gets, modify, pure, ◌>>=◌, ◌>>◌}
use chat_terminal.Client.App.Keys.{handle_key}
use chat_terminal.Shared.Text.{is_empty}
use chat_terminal.Shared.Words.{concat}
use chat_terminal.Client.World.{Message}
use chat_terminal.Client.App.{App, Act, Host, Entry}

-- The arguments of the five windows
pub record Frame : Type 0 where
  pub title : String
  pub status : String
  pub chat : Option String
  pub total_unread : ℕ
  pub contacts : List Entry
  pub unread : Dict String ℕ
  pub messages : List Message
  pub line : String
  pub cursor : ℕ
  pub hint : String

unfoldable pub sum_values : Dict String ℕ → ℕ
sum_values [] = 0
sum_values ((_, n) ∷ rest) = n + sum_values rest

-- A notice of more than four seconds goes.
unfoldable pub expire : Host → App → App
expire host a =
    if not (is_empty a.notice) && ltb 4 (host.base.now - a.notice_ts)
    then record a { notice = "" }
    else a

abbrev display_status : Host → App → String
display_status host a =
    if a.conn_status == "reconnecting"
    then concat ("reconnecting (#" ∷ host.decimal a.reconnect_att ∷ ")" ∷ [])
    else a.conn_status

unfoldable pub frame : Host → App → Frame
unfolding sum_values
frame host a = record {
  title = if is_empty a.username then "…" else a.username;
  status = display_status host a;
  chat = a.current_chat;
  total_unread = sum_values a.unread;
  contacts = a.contacts;
  unread = a.unread;
  messages = a.messages;
  line = a.buf;
  cursor = a.cursor;
  hint = a.notice;
}

-- `_render`
unfoldable pub render : Host → App → App × Frame
unfolding expire frame
render host a = (expire host a, frame host (expire host a))

abbrev drawn : Host → App → App
drawn host a = record (expire host a) { dirty = false }

-- `curses.KEY_RESIZE`
abbrev key_resize : ℕ
key_resize = 410

-- `if self._dirty:`
unfoldable pub redraw : Host → Act (Option Frame)
unfolding render
redraw host = do
  dirty ← gets (λ a. a.dirty)
  if dirty
      then (do shown ← gets (λ a. (render host a).1); modify (drawn host); pure (some shown))
      else pure none

-- A turn of `_ui_loop` with the key that is there, if there is one: what is drawn, if anything is
unfoldable pub turn : Host → Option ℕ → Act (Option Frame)
unfolding handle_key render
turn host key = elim key [
  | none ↦ redraw host
  | some k ↦
      if nat_beq k key_resize
      then modify (λ a. record a { dirty = true }) >> pure none
      else handle_key host k >> redraw host
]
