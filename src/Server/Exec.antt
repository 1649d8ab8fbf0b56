-- ===== src/Server/Exec.antt =====
-- The coroutines of the server: they change the world, and return or raise.
pub mod Sends
pub use chat_terminal.Common.Exec.{
  Outcome, ok, raised, Coroutine, pure, raise, gets, or_raise, modify, continue, ◌>>=◌, ◌>>◌, skip,
  try_else,
}
use chat_terminal.Common.{
  ℕ, suc, String, Bool, true, false, Option, none, some, List, [], ◌∷◌, ◌++◌, if◌then◌else◌,
}
use chat_terminal.Shared.Protocol.{Packet, MsgType, make_packet}
use chat_terminal.Server.World.{World, Env, Ws}

abbrev pub Exec : Type 0 → Type 0
Exec A = Coroutine World A

-- `new_id()`
unfoldable pub new_id : Env → Exec String
new_id env w = (ok (env.uuid w.drawn), record w { drawn = suc w.drawn })

-- `await ws.send(text)`
unfoldable pub send : Env → Ws → String → Exec (Unit {0})
send env ws text w =
    if env.up ws then (ok tt, record w { wire = w.wire ++ (ws, text) ∷ [] }) else (raised, w)

-- `await ws.send(make_packet(type, **kwargs))`
unfoldable pub reply : Env → Ws → MsgType → Packet → Exec (Unit {0})
unfolding new_id send
reply env ws t kwargs = do
  id ← new_id env
  send env ws (env.dumps (make_packet t id env.now kwargs))
