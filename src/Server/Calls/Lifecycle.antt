-- ===== src/Server/Calls/Lifecycle.antt =====
-- The life of a call session of server/call_manager.py, as a state machine over its operations.
use chat_terminal.Common.{
  String, ◌≡◌, ◌≢◌, ◌⊎◌, refl, sym, Bool, true, false, Option, none, some, List, [], ◌∷◌, ◌++◌,
  arith, string_eq, ◌==◌, beq_refl, beq_ne, exists_row, Bool-cases, Option-cases, inl, inr,
}
use chat_terminal.Common.Dict.{lookup, insert, erase, lookup-insert, lookup-erase}
use chat_terminal.Shared.Protocol.{Json, Packet, MsgType, call_decline, call_end}
use chat_terminal.Server.World.{World, Env, Ws, Call, CallStatus, PeerInfo, pending, active}
use chat_terminal.Server.Exec.{ok, ◌>>◌, pure, new_id}
use chat_terminal.Server.Exec.Sends.{try_send_then-up, try_send_then-down}
use chat_terminal.Server.Router
use chat_terminal.Server.Calls.{
  invite, accept, accept_session, decline, end_call, relay_audio, get_session, send_to, create_call,
  update_status, db_end_call, close_session, pop_session, is_pending, other_party,
}

pub data Op : Type 0 where
  invites : String → String → PeerInfo → Op
  accepts : PeerInfo → Op
  declines : Op
  ends : String → Op
  relays : String → Json → Op

-- The operation, on a session
abbrev pub perform : Env → String → Op → World → World
perform env id (invites caller callee info) w = (invite env id caller callee info w).1
perform env id (accepts info) w = (accept env id info w).1
perform env id declines w = (decline env id w).1
perform env id (ends from_user) w = (end_call env id from_user w).1
perform env id (relays from_user audio) w = (relay_audio env id from_user audio w).1

abbrev pub status_in : Option Call → Option CallStatus
status_in none = none
status_in (some call) = some call.status

-- The state of a session: none, or the status of its entry
abbrev pub status_of : String → World → Option CallStatus
status_of id w = status_in (lookup id w.calls)

-- Whether an operation may leave the state as it is: an invitation whose callee is away, an `accept`
-- of what does not ring, and audio.
abbrev pub may_keep : Op → Option CallStatus → Bool
may_keep (invites _ _ _) s = true
may_keep (accepts _) (some pending) = false
may_keep (accepts _) _ = true
may_keep declines s = false
may_keep (ends _) s = false
may_keep (relays _ _) s = true

-- The steps of a session's state that an operation on it may take.
pub data CallStep : Op → Option CallStatus → Option CallStatus → Type 0 where
  kept : (op : Op) (s : Option CallStatus) → may_keep op s ≡ true → CallStep op s s
  rings :
      (caller callee : String) (info : PeerInfo) (s : Option CallStatus)
      → CallStep (invites caller callee info) s (some pending)
  answered : (info : PeerInfo) → CallStep (accepts info) (some pending) (some active)
  declined : (s : Option CallStatus) → CallStep declines s none
  hung_up : (from_user : String) (s : Option CallStatus) → CallStep (ends from_user) s none

-- Whoever is sent to, only the wire changes.
send_to_cases :
    (env : Env) (u : String) (p : Packet) (w : World)
    → (b : Bool) × (wire : List (Ws × String)) × (send_to env u p w
        ≡ (ok b, record w { wire = wire }))
unfolding send_to Router.get
send_to_cases env u p w = elim (Option-cases (lookup u w.connections)) [
  | inl e ↦ (false, w.wire, rw e refl)
  | inr (ws, e) ↦ elim (Bool-cases (env.up ws)) [
    | inl up ↦ (
      true,
      w.wire ++ (ws, env.dumps p) ∷ [],
      rw (e, try_send_then-up env ws (env.dumps p) w true (pure false) up) refl,
    )
    | inr down ↦ (
      false,
      w.wire,
      rw (e, try_send_then-down env ws (env.dumps p) w true (pure false) down) refl,
    )
  ]
]

after_send :
    {A : Type 0} (a : A) (env : Env) (u : String) (p : Packet) (w : World)
    → ((do send_to env u p; pure a) w).1.calls ≡ w.calls
after_send a env u p w = let (b, wire, e) = send_to_cases env u p w in rw e refl

after_send_ok :
    {A : Type 0} (a : A) (env : Env) (u : String) (p : Packet) (w : World)
    → ((do send_to env u p; pure a) w).0 ≡ ok a
after_send_ok a env u p w = let (b, wire, e) = send_to_cases env u p w in rw e refl

module _ (env : Env) (id : String) where
  pub accept_ok :
      (info : PeerInfo) (call : Call) (w : World) → (accept_session env id info call w).0 ≡ ok true
  unfolding accept_session update_status new_id
  accept_ok info call w = after_send_ok true env call.caller _ _

  close_calls :
      (t : MsgType) (other : String) (w : World)
      → (close_session env id t other w).1.calls ≡ w.calls
  unfolding close_session db_end_call new_id
  close_calls t other w = after_send tt env other _ _

  pub accept_calls :
      (info : PeerInfo) (call : Call) (w : World)
      → (accept_session env id info call w).1.calls
        ≡ insert id (record call { status = active; callee_info = some info }) w.calls
  unfolding accept_session update_status new_id
  accept_calls info call w = after_send true env call.caller _ _

  decline_calls : (w : World) → (decline env id w).1.calls ≡ erase id w.calls
  unfolding decline pop_session get_session
  decline_calls w = elim (Option-cases (lookup id w.calls)) [
    | inl e ↦ rw e refl
    | inr (call, e) ↦
        rw e (close_calls call_decline call.caller (record w { calls = erase id w.calls }))
  ]

  end_call_calls :
      (from_user : String) (w : World) → (end_call env id from_user w).1.calls ≡ erase id w.calls
  unfolding end_call pop_session get_session
  end_call_calls from_user w = elim (Option-cases (lookup id w.calls)) [
    | inl e ↦ rw e refl
    | inr (call, e) ↦
        rw e (
          close_calls call_end (other_party call from_user) (record w { calls = erase id w.calls }))
  ]

  relay_calls :
      (from_user : String) (audio : Json) (w : World)
      → (relay_audio env id from_user audio w).1.calls ≡ w.calls
  unfolding relay_audio get_session new_id
  relay_calls from_user audio w = elim (Option-cases (lookup id w.calls)) [
    | inl e ↦ rw e refl
    | inr (call, e) ↦ rw e (after_send tt env (other_party call from_user) _ _)
  ]

  invite_calls :
      (caller callee : String) (info : PeerInfo) (w : World)
      → ((invite env id caller callee info w).1.calls ≡ w.calls)
        ⊎ ((call : Call) × ((invite env id caller callee info w).1.calls ≡ insert id call w.calls)
            × (call.status ≡ pending))
  unfolding invite create_call Router.get new_id
  invite_calls caller callee info w = elim (Option-cases (lookup callee w.connections)) [
    | inl e ↦ rw e (inl refl)
    | inr (ws, e) ↦ elim (Bool-cases (exists_row (λ r. r.id == id) w.call_sessions)) [
      | inl taken ↦ rw (e, taken) (inr (_, refl, refl))
      | inr fresh ↦ rw (e, fresh) (inr (_, after_send true env callee _ _, refl))
    ]
  ]

  accepted_calls :
      (info : PeerInfo) (w : World)
      → (((accept env id info w).1.calls ≡ w.calls)
          × (may_keep (accepts info) (status_of id w) ≡ true))
        ⊎ ((call : Call) × (lookup id w.calls ≡ some call)
            × (call.status ≡ pending)
            × ((accept env id info w).1.calls
                ≡ insert id (record call { status = active; callee_info = some info }) w.calls))
  unfolding accept get_session
  accepted_calls info w = elim (Option-cases (lookup id w.calls)) [
    | inl e ↦ rw e (inl (refl, refl))
    | inr (call, e) ↦ elim (Bool-cases (is_pending call.status)) [
      | inl p ↦ rw (e, p) (inr (call, refl, ground arith, accept_calls info call w))
      | inr p ↦ rw (e, p) (inl (refl, ground (arith, p)))
    ]
  ]

-- An operation on a session takes one step of the state machine: an invitation makes it ring or
-- leaves it as it is, `accept` makes a ringing session active and leaves any other as it is, a
-- decline or an end removes it, and audio changes nothing. Every other session stays exactly as it
-- was.
pub perform-CallStep :
    (env : Env) (id other : String) (op : Op) (w : World)
    → CallStep op (status_of id w) (status_of id (perform env id op w))
      × (other ≢ id → lookup other (perform env id op w).calls ≡ lookup other w.calls)
perform-CallStep env id other (invites caller callee info) w =
    elim (invite_calls env id caller callee info w) [
      | inl e ↦ rw e (kept (invites caller callee info) (status_of id w) refl, λ _. refl)
      | inr (call, e, p) ↦
          rw
            (
              e,
              lookup-insert id id call w.calls,
              lookup-insert id other call w.calls,
              beq_refl id,
              p,
            )
            (
              rings caller callee info (status_of id w),
              λ n. rw (beq_ne id other (λ q. n (sym q))) refl,
            )
    ]
perform-CallStep env id other (accepts info) w = elim (accepted_calls env id info w) [
  | inl (e, k) ↦ rw e (kept (accepts info) (status_of id w) k, λ _. refl)
  | inr (call, found, p, e) ↦
      let call' : Call = record call { status = active; callee_info = some info } in
      rw
        (
          e,
          lookup-insert id id call' w.calls,
          lookup-insert id other call' w.calls,
          beq_refl id,
          found,
          p,
        )
        (answered info, λ n. rw (beq_ne id other (λ q. n (sym q))) refl)
]
perform-CallStep env id other declines w =
    rw
      (
        decline_calls env id w,
        lookup-erase id id w.calls,
        lookup-erase id other w.calls,
        beq_refl id,
      )
      (declined (status_of id w), λ n. rw (beq_ne id other (λ q. n (sym q))) refl)
perform-CallStep env id other (ends from_user) w =
    rw
      (
        end_call_calls env id from_user w,
        lookup-erase id id w.calls,
        lookup-erase id other w.calls,
        beq_refl id,
      )
      (hung_up from_user (status_of id w), λ n. rw (beq_ne id other (λ q. n (sym q))) refl)
perform-CallStep env id other (relays from_user audio) w =
    rw (relay_calls env id from_user audio w)
      (kept (relays from_user audio) (status_of id w) refl, λ _. refl)
