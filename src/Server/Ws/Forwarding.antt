-- ===== src/Server/Ws/Forwarding.antt =====
-- server/ws_server.py: a direct message between two users who are connected.
use chat_terminal.Common.{suc, String, ◌≡◌, refl, true, false, some, [], ◌∷◌, ◌++◌, ◌∙◌, string_eq}
use chat_terminal.Common.Dict.{lookup}
use chat_terminal.Shared.Protocol.{
  text, obj, Fields, Packet, message, delivery, make_packet, msg_type,
}
use chat_terminal.Shared.Text.{is_empty}
use chat_terminal.Server.World.{World, Env, Ws}
use chat_terminal.Server.RateLimiter
use chat_terminal.Server.Exec.{ok}
use chat_terminal.Server.Router
use chat_terminal.Server.Ws.{
  Conn, next, dispatch, require_auth, on_authed, on_json, allow, rate_key, on_raw,
}
use chat_terminal.Server.Ws.Fields.{to_packet, stamp}
use chat_terminal.Server.Ws.Delivery.{receipt, deliver-up, packet_key}
use chat_terminal.Server.Ws.Messages.{on_message}

-- What the server puts onto the wire for a direct message: the packet, and the sender's receipt
abbrev pub forwarded : Env → Ws → Ws → String → Packet → World → World
forwarded env ws target_ws id pkt w = record w {
  drawn = suc w.drawn;
  wire =
      (w.wire ++ (target_ws, env.dumps pkt) ∷ [])
      ++ (
        ws,
        env.dumps (
            make_packet delivery (env.uuid w.drawn) env.now
              (("msg_id", text id) ∷ ("status", text "delivered") ∷ [])),
      )
        ∷ [];
}

module _ (env : Env) (ws target_ws : Ws) (username target id : String) (pkt : Packet) (w : World)
    (named : is_empty target ≡ false) (to_target : lookup "to" pkt ≡ some (text target))
    (with_id : lookup "id" pkt ≡ some (text id)) (online : Router.get target w ≡ some target_ws)
    (target_up : env.up target_ws ≡ true) (up : env.up ws ≡ true) where
  pub on_message-online :
      on_message env ws username pkt w
      ≡ (ok tt, forwarded env ws target_ws id (stamp username pkt) w)
  unfolding stamp
  on_message-online =
      let raw = env.dumps (stamp username pkt) in
      let done =
        receipt env ws username target id pkt w to_target named with_id "delivered"
          (record w { wire = w.wire ++ (target_ws, raw) ∷ [] })
          (deliver-up env (packet_key env ws username target id pkt w to_target named with_id)
            target raw w target_ws (online, target_up)) in
      done ∙ rw up refl

dispatch-message :
    (env : Env) (c : Conn) (username : String) (pkt : Packet) (w w' : World)
    → msg_type pkt ≡ some message
    → on_message env c.ws username pkt w ≡ (ok tt, w')
    → dispatch env c (some username) (msg_type pkt) pkt w ≡ (ok (next (some username)), w')
unfolding dispatch require_auth on_authed
dispatch-message env c username pkt w w' is_message done = rw (is_message, dispatch, done) refl

on_json-message :
    (env : Env) (c : Conn) (username : String) (fs : Fields) (w w' : World)
    → msg_type (to_packet fs) ≡ some message
    → on_message env c.ws username (to_packet fs) w ≡ (ok tt, w')
    → on_json env c (some username) (some (obj fs)) w ≡ (ok (next (some username)), w')
unfolding on_json
on_json-message env c username fs w w' is_message done =
    dispatch-message env c username (to_packet fs) w w' is_message done

-- The world when a packet has been admitted
abbrev pub admitted : Env → String → World → World
admitted env username w = record w { limiter = (RateLimiter.allow w.limiter username env.clock).0 }

-- A text that is an admitted MESSAGE of a user who is logged in
pub on_raw-message :
    (env : Env) (c : Conn) (username raw : String) (fs : Fields) (w w' : World)
    → is_empty username ≡ false
    → (RateLimiter.allow w.limiter username env.clock).1 ≡ true
    → env.loads raw ≡ some (obj fs)
    → msg_type (to_packet fs) ≡ some message
    → on_message env c.ws username (to_packet fs) (admitted env username w) ≡ (ok tt, w')
    → on_raw env c (some username) raw w ≡ (ok (next (some username)), w')
unfolding on_raw allow rate_key
on_raw-message env c username raw fs w w' named allowed parsed is_message done =
    let json : on_json env c (some username) (env.loads raw) (admitted env username w)
        ≡ (ok (next (some username)), w') =
      rw (parsed)
        (on_json-message env c username fs (admitted env username w) w' is_message done) in
    rw (named, allowed, json) refl
