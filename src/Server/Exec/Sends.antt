-- ===== src/Server/Exec/Sends.antt =====
-- A send that is guarded by `try`: it reaches the wire, or the handler runs.
use chat_terminal.Common.{
  suc, String, ◌≡◌, refl, ap, true, false, [], ◌∷◌, ◌++◌, arith, if◌then◌else◌, Bool-cases, inl,
  inr,
}
use chat_terminal.Shared.Protocol.{Packet, MsgType, make_packet}
use chat_terminal.Server.World.{World, Env, Ws}
use chat_terminal.Server.Exec.{Exec, Outcome, ok, raised, send, reply, new_id, try_else, ◌>>◌, pure}

module _ (env : Env) (ws : Ws) (text : String) (w : World) where
  abbrev pub sent : World
  sent = record w { wire = w.wire ++ (ws, text) ∷ [] }

  pub send-up : env.up ws ≡ true → send env ws text w ≡ (ok tt, sent)
  unfolding send
  send-up e = rw e refl

  pub send-down : env.up ws ≡ false → send env ws text w ≡ (raised, w)
  unfolding send
  send-down e = rw e refl

  module _ (k : Exec (Unit {0})) where
    pub try_send-up : env.up ws ≡ true → try_else (send env ws text) k w ≡ (ok tt, sent)
    try_send-up e = ap (λ r. try_else (λ _. r) k w) (send-up e)

    pub try_send-down : env.up ws ≡ false → try_else (send env ws text) k w ≡ k w
    try_send-down e = ap (λ r. try_else (λ _. r) k w) (send-down e)

  module _ {A : Type 0} (a : A) (k : Exec A) where
    pub try_send_then-up :
        env.up ws ≡ true → try_else (do send env ws text; pure a) k w ≡ (ok a, sent)
    unfolding send
    try_send_then-up e = ground (arith, e)

    pub try_send_then-down : env.up ws ≡ false → try_else (do send env ws text; pure a) k w ≡ k w
    unfolding send
    try_send_then-down e = ground (arith, e)

-- What an answer leaves: one packet with a fresh id on this socket, or, if the socket does not work, a
-- raise and nothing on the wire
abbrev pub replied : Env → Ws → MsgType → Packet → World → Outcome (Unit {0}) × World
replied env ws t kwargs w =
    if env.up ws
    then (
      ok tt,
      record w {
        drawn = suc w.drawn;
        wire = w.wire ++ (ws, env.dumps (make_packet t (env.uuid w.drawn) env.now kwargs)) ∷ [];
      },
    )
    else (raised, record w { drawn = suc w.drawn })

pub reply-replied :
    (env : Env) (ws : Ws) (t : MsgType) (kwargs : Packet) (w : World)
    → reply env ws t kwargs w ≡ replied env ws t kwargs w
unfolding reply send new_id
reply-replied env ws t kwargs w = elim (Bool-cases (env.up ws)) [
  | inl up ↦ rw up refl
  | inr down ↦ rw down refl
]
