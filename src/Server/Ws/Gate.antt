-- ===== src/Server/Ws/Gate.antt =====
-- The authentication gate of server/ws_server.py: what a connection without a user can do.
use chat_terminal.Common.{
  String, ◌≡◌, refl, Bool, true, false, Option, none, some, [], ◌∷◌, Bool-cases, inl, inr,
  if◌then◌else◌,
}
use chat_terminal.Shared.Protocol.{
  obj, Fields, MsgType, auth_register, auth_login, auth_logout, Packet, msg_type, error, text,
}
use chat_terminal.Server.RateLimiter.{RateLimiter}
use chat_terminal.Server.RateLimiter
use chat_terminal.Server.World.{World, Env, Ws}
use chat_terminal.Server.Exec.{Outcome, ok, raised, ◌>>◌, pure, reply}
use chat_terminal.Server.Exec.Sends.{replied, reply-replied}
use chat_terminal.Server.Ws.{
  Conn, Flow, next, dispatch, unauthorized, require_auth, on_json, allow, rate_key, on_raw,
}
use chat_terminal.Server.Ws.Fields.{to_packet}

-- The refusal of a packet: an error for this reason, and the loop of the connection goes on without a
-- user, unless the answer could not be sent and the loop has raised.
abbrev pub refused : Env → Ws → String → World → Outcome Flow × World
refused env ws reason w =
    let (r, w') = replied env ws error (("error", text reason) ∷ []) w in
    (if env.up ws then ok (next none) else raised, w')

-- The packets that the server answers before the gate.
abbrev pub is_public : Option MsgType → Bool
is_public (some auth_register) = true
is_public (some auth_login) = true
is_public (some auth_logout) = true
is_public _ = false

dispatch_gate :
    (env : Env) (c : Conn) (t : Option MsgType) (pkt : Packet)
    → is_public t ≡ false
    → dispatch env c none t pkt ≡ unauthorized env c
unfolding dispatch require_auth
dispatch_gate env c none pkt h = refl
dispatch_gate env c (some auth_register) pkt h = cc
dispatch_gate env c (some auth_login) pkt h = cc
dispatch_gate env c (some auth_logout) pkt h = cc
dispatch_gate env c (some _) pkt h = refl

refusal :
    (env : Env) (c : Conn) (reason : String) (w : World)
    → (reply env c.ws error (("error", text reason) ∷ []) >> pure (next none)) w
      ≡ refused env c.ws reason w
refusal env c reason w = elim (Bool-cases (env.up c.ws)) [
  | inl up ↦ rw (reply-replied env c.ws error (("error", text reason) ∷ []) w, up) refl
  | inr down ↦ rw (reply-replied env c.ws error (("error", text reason) ∷ []) w, down) refl
]

-- The reason why a packet is refused: the rate limit comes first.
abbrev pub reason_for : Bool → String
reason_for allowed = if allowed then "UNAUTHORIZED" else "RATE_LIMITED"

module _ (env : Env) (c : Conn) (w : World) where
  -- A packet of any type but AUTH_REGISTER, AUTH_LOGIN and AUTH_LOGOUT, on a connection that is
  -- not logged in, changes nothing but the rate limiter's state and the counter of drawn ids, and
  -- is answered by one error to that connection: RATE_LIMITED if the limiter refuses it, and
  -- UNAUTHORIZED otherwise. The connection stays without a user. If the answer cannot be sent,
  -- nothing is on the wire and the handler raises.
  pub unauthenticated_packet :
      (raw : String) (fs : Fields)
      → env.loads raw ≡ some (obj fs)
      → is_public (msg_type (to_packet fs)) ≡ false
      → let (limiter, allowed) = RateLimiter.allow w.limiter (rate_key c none) env.clock in
        on_raw env c none raw w
        ≡ refused env c.ws (reason_for allowed) (record w { limiter = limiter })
  unfolding on_raw allow on_json unauthorized
  unauthenticated_packet raw fs parsed private =
      let limiter = (RateLimiter.allow w.limiter (rate_key c none) env.clock).0 in
      let w' = record w { limiter = limiter } in
      elim (Bool-cases (RateLimiter.allow w.limiter (rate_key c none) env.clock).1) [
        | inl e ↦
            rw (e, parsed, dispatch_gate env c (msg_type (to_packet fs)) (to_packet fs) private)
              (refusal env c "UNAUTHORIZED" w')
        | inr e ↦ rw e (refusal env c "RATE_LIMITED" w')
      ]
