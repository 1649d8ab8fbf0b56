-- ===== src/Client/CallHandler/Lifecycle.antt =====
-- How calls of client/handlers/call.py end, and what happens to their audio streams.
use chat_terminal.Common.{
  ℕ, suc, ◌≡◌, ◌<◌, refl, sym, ap, subst, ◌∙◌, arith, String, Bool, true, false, not, Option, none,
  some, List, [], ◌∷◌, string_eq, ◌==◌, nat_beq, exists_row, where_rows, Option-cases, inl, inr,
  if◌then◌else◌,
}
use chat_terminal.Common.Dict.{lookup}
use chat_terminal.Shared.Protocol.{text, Packet}
use chat_terminal.Client.World.{audio_works, World, Env, CallState, Stream, draw, emit, show}
use chat_terminal.Client.CallHandler.{start_audio_stream, stop_audio_stream, end, hang_up}
use chat_terminal.Client.CallHandler.Incoming.{is_active, handle_end}
use chat_terminal.Client.Reading.{text_or_lem}

-- No call, no key and no stream
pub record IsIdle (c : CallState) : Type 0 where
  pub no_session : c.active_session ≡ none
  pub no_stream : c.audio_stream ≡ none
  pub no_key : c.call_key ≡ none
  pub no_private : c.ephemeral_private ≡ none
  pub no_start : c.call_start_ts ≡ 0

module _ (c : CallState) where
  stopped : (stop_audio_stream c).audio_stream ≡ none
  unfolding stop_audio_stream
  stopped = elim (Option-cases c.audio_stream) [
    | inl e ↦ ground (arith, e)
    | inr (s, e) ↦ ground (arith, e)
  ]

  same_session : (stop_audio_stream c).active_session ≡ c.active_session
  unfolding stop_audio_stream
  same_session = elim (Option-cases c.audio_stream) [
    | inl e ↦ ground (arith, e)
    | inr (s, e) ↦ ground (arith, e)
  ]

-- Ending a call leaves no session, no stream and no key.
pub end-IsIdle :
    (env : Env) (session_id : String) (w : World) → IsIdle (end env session_id w).1.call
unfolding end emit draw
end-IsIdle env session_id w = record {
  no_session = refl;
  no_stream = stopped w.call;
  no_key = refl;
  no_private = refl;
  no_start = refl;
}

after_end : (env : Env) (w : World) (session_id : String) → CallState
after_end env w session_id =
    let c = stop_audio_stream w.call in if is_active session_id c then hang_up c else c

handle_end_lem :
    (env : Env) (w : World) (pkt : Packet) (session_id : String)
    → lookup "session_id" pkt ≡ some (text session_id)
    → (handle_end env pkt w).1.call ≡ after_end env w session_id
unfolding handle_end show after_end
handle_end_lem env w pkt session_id h = rw (text_or_lem "" "session_id" session_id pkt w h) refl

same_active :
    (c : CallState) (session_id : String)
    → is_active session_id (stop_audio_stream c) ≡ is_active session_id c
same_active c session_id =
    ap (λ (a : Option String). elim a as (λ _. Bool) [ none ↦ false | some s ↦ s == session_id ])
      (same_session c)

-- A CALL_END for the session of the call leaves no session, no stream and no key.
pub handle_end-IsIdle :
    (env : Env) (w : World) (pkt : Packet) (session_id : String)
    → lookup "session_id" pkt ≡ some (text session_id)
    → is_active session_id w.call ≡ true
    → IsIdle (handle_end env pkt w).1.call
unfolding after_end
handle_end-IsIdle env w pkt session_id h mine =
    let c = w.call in
    let left : (handle_end env pkt w).1.call ≡ hang_up (stop_audio_stream c) =
      handle_end_lem env w pkt session_id h ∙ rw (same_active c session_id ∙ mine) refl in
    subst IsIdle (sym left) (record {
      no_session = refl;
      no_stream = stopped c;
      no_key = refl;
      no_private = refl;
      no_start = refl;
    })

-- A CALL_END for another session than that of the call stops the audio stream of the call, which
-- goes on under the same session without one.
pub handle_end-foreign :
    (env : Env) (w : World) (pkt : Packet) (session_id : String)
    → lookup "session_id" pkt ≡ some (text session_id)
    → is_active session_id w.call ≡ false
    → ((handle_end env pkt w).1.call.audio_stream ≡ none)
      × ((handle_end env pkt w).1.call.active_session ≡ w.call.active_session)
unfolding after_end
handle_end-foreign env w pkt session_id h other =
    let c = w.call in
    let left : (handle_end env pkt w).1.call ≡ stop_audio_stream c =
      handle_end_lem env w pkt session_id h ∙ rw (same_active c session_id ∙ other) refl in
    (ap (λ k. k.audio_stream) left ∙ stopped c, ap (λ k. k.active_session) left ∙ same_session c)

-- A stream that starts while the user is muted, as with push-to-talk, is not muted.
pub start_audio_stream-unmuted :
    (env : Env) (w : World)
    → w.call.muted ≡ true
    → env.audio ≡ audio_works
    → (s : Stream) × ((start_audio_stream env w).1.call.audio_stream ≡ some s)
      × (s.muted ≡ false)
      × ((start_audio_stream env w).1.call.muted ≡ true)
unfolding start_audio_stream draw
start_audio_stream-unmuted env w muted starts = elim (Option-cases w.call.call_key) [
  | inl e ↦
      rw (e, starts) (record { number = _; key = _; muted = false; fed = [] }, refl, refl, muted)
  | inr (k, e) ↦
      rw (e, starts) (record { number = _; key = _; muted = false; fed = [] }, refl, refl, muted)
]

kept :
    (m k : ℕ) (rows : List ℕ)
    → nat_beq m k ≡ false
    → exists_row (nat_beq m) rows ≡ true
    → exists_row (nat_beq m) (where_rows (λ n. not (nat_beq n k)) rows) ≡ true
kept m k [] other h = absurd (cc h)
kept m k (n ∷ rows) other h = ground (arith, other, h, kept m k rows other)

-- A stream that is running when another one starts is stopped no more, also when the call ends: it is still
-- running when the handler has none, if the numbers of streams are new.
pub start_audio_stream-leaks :
    (env : Env) (w : World) (s : Stream)
    → w.call.audio_stream ≡ some s
    → exists_row (nat_beq s.number) w.call.running ≡ true
    → s.number < w.drawn
    → env.audio ≡ audio_works
    → let c = stop_audio_stream (start_audio_stream env w).1.call in
      (c.audio_stream ≡ none) × (exists_row (nat_beq s.number) c.running ≡ true)
unfolding start_audio_stream stop_audio_stream draw
start_audio_stream-leaks env w s there running fresh starts = elim (Option-cases w.call.call_key) [
  | inl e ↦
      rw (e, starts)
        (
          refl,
          kept s.number (suc w.drawn) (suc w.drawn ∷ w.call.running) (ground (arith, fresh))
              (ground (arith, running)),
        )
  | inr (k, e) ↦
      rw (e, starts)
        (
          refl,
          kept s.number w.drawn (w.drawn ∷ w.call.running) (ground (arith, fresh))
              (ground (arith, running)),
        )
]
