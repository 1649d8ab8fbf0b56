-- ===== src/Client/App/Sending.antt =====
-- client/app.py: what becomes of a line that is typed into a chat, and of a contact of one's own name.
use Prim.Native.String.{count}
use chat_terminal.Common.{
  String, true, false, some, ◌≡◌, refl, sym, subst, ◌⊎◌, inl, inr, string_eq,
}
use chat_terminal.Common.Exec.{Outcome, ok, raised}
use chat_terminal.Shared.Text.{is_empty, strip}
use chat_terminal.Shared.Words.{starts_with}
use chat_terminal.Client.World.{World}
use chat_terminal.Client.MessageHandler as Direct
use chat_terminal.Client.App.{
  App, Host, env, is_room_chat, open_chat, history_of, shown_messages, set_notice,
}
use chat_terminal.Client.App.Commands.{submit, after_direct}

-- Both ends of a line that has been submitted to a user: it is on its way and the chat is read again, or
-- it stands in the input again.
abbrev pub Settled :
    Host → String → App → Outcome String × World → Outcome (Unit {0}) × App → Type 0
Settled host chat a sent done =
    (done.0 ≡ ok tt)
    × (done.1.world ≡ sent.1)
    × (((id : String) × (sent.0 ≡ ok id)
          × (done.1.buf ≡ "")
          × (done.1.messages ≡ history_of chat done.1))
        ⊎ ((sent.0 ≡ raised)
            × (done.1.buf ≡ strip a.buf)
            × (done.1.cursor ≡ count (strip a.buf))
            × (done.1.messages ≡ a.messages)))

loaded : (chat : String) (b : App) → open_chat b ≡ some chat → shown_messages b ≡ history_of chat b
unfolding shown_messages
loaded chat b opened = rw (shown_messages, opened) refl

after_direct-Settled :
    (host : Host) (chat : String) (a : App) (r : Outcome String) (w : World)
    → open_chat a ≡ some chat
    → Settled host chat a
        (r, w)
        (after_direct host
          (strip a.buf)
          r
          (record a { world = w; buf = ""; cursor = 0; dirty = true }))
unfolding after_direct open_chat set_notice history_of
after_direct-Settled host chat a (ok id) w opened = (
  refl,
  refl,
  inl (
    id,
    refl,
    refl,
    loaded chat (record a { world = w; buf = ""; cursor = 0; dirty = true }) opened,
  ),
)
after_direct-Settled host chat a raised w opened = (refl, refl, inr (refl, refl, refl, refl))

-- A line that is neither empty nor a command, submitted in a chat with a user after the login, never
-- raises; either the message handler has sent it and the chat shows what the database holds, or the
-- handler has raised and the line stands in the input again, with the cursor at its end.
pub submit-Settled :
    (host : Host) (a : App) (chat : String)
    → is_empty (strip a.buf) ≡ false
    → starts_with "/" (strip a.buf) ≡ false
    → open_chat a ≡ some chat
    → is_room_chat chat ≡ false
    → a.logged_in ≡ true
    → Settled host chat a (Direct.send (env host a) chat (strip a.buf) a.world) (submit host a)
unfolding submit open_chat
submit-Settled host a chat there plain opened direct ready =
    let sent = Direct.send (env host a) chat (strip a.buf) a.world in
    let emptied = record a { world = sent.1; buf = ""; cursor = 0; dirty = true } in
    let steps : submit host a ≡ after_direct host (strip a.buf) sent.0 emptied =
      rw (there, plain, opened, ready, direct) refl in
    subst (Settled host chat a sent) (sym steps)
      (after_direct-Settled host chat a sent.0 sent.1 opened)
