-- ===== src/Server/Ws/Presence.antt =====
-- The registry when a connection of server/ws_server.py ends: its `finally` and the broadcast.
use chat_terminal.Common.{
  ℕ, suc, String, ◌≡◌, refl, false, none, some, List, [], ◌∷◌, arith, string_eq, ◌==◌, beq_refl,
  Bool-cases, Option-cases, inl, inr,
}
use chat_terminal.Common.Dict.{Dict, lookup, erase, lookup-erase}
use chat_terminal.Shared.Text.{is_empty}
use chat_terminal.Server.RateLimiter.{RateLimiter}
use chat_terminal.Server.RateLimiter
use chat_terminal.Shared.Protocol.{status, text, make_packet}
use chat_terminal.Server.World.{World, Env, Ws}
use chat_terminal.Server.Exec.{ok, modify, send, new_id}
use chat_terminal.Server.Exec.Sends.{sent, try_send-up, try_send-down}
use chat_terminal.Server.Router
use chat_terminal.Server.Ws.{Conn, finish, peer, reset}
use chat_terminal.Server.Ws.Login.{broadcast, broadcast_status}

-- Every registration in `d` is one of `e`.
abbrev pub Within : Dict String Ws → Dict String Ws → Type 0
Within d e = (v : String) (ws : Ws) → lookup v d ≡ some ws → lookup v e ≡ some ws

-- Only the registry, the rate limiter, the wire and the counter of drawn ids differ, and nobody is
-- registered anew.
abbrev pub OnlyPresence : World → World → Type 0
OnlyPresence w w' =
    (limiter : RateLimiter) × (conns : Dict String Ws) × (wire : List (Ws × String)) × (n : ℕ) × (w'
      ≡ record w { connections = conns; limiter = limiter; wire = wire; drawn = n })
    × Within conns w.connections

erase-Within : (u : String) (d : Dict String Ws) → Within (erase u d) d
erase-Within u d v ws h = ground (arith, lookup-erase u v d, h)

Within-none :
    (v : String) (d e : Dict String Ws) → Within d e → lookup v e ≡ none → lookup v d ≡ none
Within-none v d e inside h = elim (Option-cases (lookup v d)) [
  | inl gone ↦ gone
  | inr (ws, found) ↦ let p = inside v ws found in cc
]

module _ (env : Env) (username pkt : String) where
  -- One round, and so the whole loop, only unregisters.
  broadcast-Within :
      (peers : List (String × Ws)) (w : World)
      → (conns : Dict String Ws) × (wire : List (Ws × String)) × (broadcast env username pkt peers w
          ≡ (ok tt, record w { connections = conns; wire = wire }))
        × Within conns w.connections
  unfolding broadcast send Router.unregister
  broadcast-Within [] w = (w.connections, w.wire, refl, λ v ws h. h)
  broadcast-Within ((uname, ws) ∷ rest) w = elim (Bool-cases (uname == username)) [
    | inl e ↦ rw e (broadcast-Within rest w)
    | inr e ↦ elim (Bool-cases (env.up ws)) [
      | inl up ↦
          rw (e, try_send-up env ws pkt w (modify (Router.unregister uname)) up)
            (broadcast-Within rest (sent env ws pkt w))
      | inr down ↦
          let (conns, wire, p, inside) =
            broadcast-Within rest (record w { connections = erase uname w.connections }) in
          rw (e, try_send-down env ws pkt w (modify (Router.unregister uname)) down)
            (conns, wire, p, λ v s h. erase-Within uname w.connections v s (inside v s h))
    ]
  ]

-- When the connection of a user with a name that is not empty ends, the name is no longer
-- registered, whichever connection it stood for, nobody is registered anew or under another
-- connection, and no table, no call and no file changes.
pub finish_unregisters :
    (env : Env) (c : Conn) (username : String) (w : World)
    → is_empty username ≡ false
    → (Router.get username (finish env c (some username) w).1 ≡ none)
      × OnlyPresence w (finish env c (some username) w).1
unfolding finish broadcast_status Router.get Router.unregister reset new_id
finish_unregisters env c username w named =
    let gone = erase username w.connections in
    let pkt = env.dumps (
      make_packet status (env.uuid w.drawn) env.now
        (("user", text username) ∷ ("status", text "offline") ∷ [])) in
    let w' : World = record w {
      connections = gone;
      limiter = RateLimiter.reset w.limiter username;
      drawn = suc w.drawn;
    } in
    let (conns, wire, p, inside) = broadcast-Within env username pkt gone w' in
    rw (named, p)
      (
        Within-none username conns gone inside
            (rw (lookup-erase username username w.connections, beq_refl username) refl),
        (
          RateLimiter.reset (RateLimiter.reset w.limiter username) (peer c),
          conns,
          wire,
          suc w.drawn,
          refl,
          λ v ws h. erase-Within username w.connections v ws (inside v ws h),
        ),
      )
