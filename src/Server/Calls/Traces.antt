-- ===== src/Server/Calls/Traces.antt =====
-- Sequences of operations of server/call_manager.py, each with its own environment and session.
use mathlib.Core.Bool.{false≢true}
use chat_terminal.Common.{
  String, ◌≡◌, ◌≢◌, refl, sym, ◌∙◌, Bool, true, false, ◌&&◌, Option, none, some, List, [], ◌∷◌,
  arith, string_eq, eq_iff, subst, ◌==◌, beq_refl, exists_row, Bool-cases, Option-cases, inl, inr,
}
use chat_terminal.Common.Dict.{lookup, lookup-insert}
use chat_terminal.Server.World.{World, Env, Ws, Call, CallStatus, PeerInfo, pending, active}
use chat_terminal.Server.Exec.{ok, raised}
use chat_terminal.Server.Router
use chat_terminal.Server.Calls.{
  invite, accept, accept_session, get_session, create_call, is_pending,
}
use chat_terminal.Server.Calls.Lifecycle.{
  Op, invites, perform, status_of, CallStep, kept, rings, answered, declined, hung_up,
  perform-CallStep, accept_ok, accept_calls,
}

abbrev pub Event : Type 0
Event = Env × String × Op

abbrev pub run : List Event → World → World
run [] w = w
run ((env, id, op) ∷ rest) w = run rest (perform env id op w)

abbrev is_invites : Op → Bool
is_invites (invites _ _ _) = true
is_invites _ = false

abbrev pub invites_to : String → Event → Bool
invites_to id (env, i, op) = i == id && is_invites op

absent_step :
    {op : Op} {s t : Option CallStatus}
    → CallStep op s t
    → s ≡ none
    → is_invites op ≡ false
    → t ≡ none
absent_step (kept op s k) e n = e
absent_step (rings caller callee info s) e n = cc
absent_step (answered info) e n = cc
absent_step (declined s) e n = refl
absent_step (hung_up from_user s) e n = refl

absent_perform :
    (id : String) (env : Env) (i : String) (op : Op) (w : World)
    → status_of id w ≡ none
    → invites_to id (env, i, op) ≡ false
    → status_of id (perform env i op w) ≡ none
absent_perform id env i op w e n = elim (Bool-cases (i == id)) [
  | inl same ↦
      let p : i ≡ id = (eq_iff i id).0 same in
      subst (λ j. status_of j (perform env i op w) ≡ none) p
        (absent_step (perform-CallStep env i i op w).0 (subst (λ j. status_of j w ≡ none) (sym p) e)
          (ground (arith, same, n)))
  | inr other ↦
      let q : lookup id (perform env i op w).calls ≡ lookup id w.calls =
        (perform-CallStep env i id op w).1
          (λ p. false≢true (sym other ∙ (eq_iff i id).1 (sym p))) in
      rw q e
]

-- A session that is over stays over: without a new invitation under its id no sequence of
-- operations, on this or on other sessions, brings it back.
pub closed_until_invited :
    (id : String) (events : List Event) (w : World)
    → status_of id w ≡ none
    → exists_row (invites_to id) events ≡ false
    → status_of id (run events w) ≡ none
closed_until_invited id [] w e n = e
closed_until_invited id ((env, i, op) ∷ rest) w e n =
    closed_until_invited id rest (perform env i op w)
      (absent_perform id env i op w e (ground (arith, n))) (ground (arith, n))

accept_active :
    (env : Env) (id : String) (info : PeerInfo) (w : World) (call : Call)
    → lookup id w.calls ≡ some call
    → is_pending call.status ≡ false
    → accept env id info w ≡ (ok false, w)
unfolding accept get_session
accept_active env id info w call e p = rw (e, p) refl

-- `accept` succeeds exactly on a session that rings; on any other it changes nothing. After it has
-- succeeded, a second `accept` of the session is refused and changes nothing.
pub accept_once :
    (env env' : Env) (id : String) (info info' : PeerInfo) (w : World)
    → (status_of id w ≡ some pending
        → ((accept env id info w).0 ≡ ok true)
          × (accept env' id info' (accept env id info w).1 ≡ (ok false, (accept env id info w).1)))
      × (status_of id w ≢ some pending → accept env id info w ≡ (ok false, w))
unfolding accept get_session
accept_once env env' id info info' w = elim (Option-cases (lookup id w.calls)) [
  | inl e ↦ rw e ((λ p. cc), λ _. refl)
  | inr (call, e) ↦ elim (Bool-cases (is_pending call.status)) [
    | inl p ↦
        let call' : Call = record call { status = active; callee_info = some info } in
        rw (e, p)
          (
            (λ _. (
              accept_ok env id info call w,
              accept_active env' id info' (accept_session env id info call w).1 call'
                  (rw
                    (
                      accept_calls env id info call w,
                      lookup-insert id id call' w.calls,
                      beq_refl id,
                    )
                    refl)
                  refl,
            )),
            λ n. ground (arith, n, p),
          )
    | inr p ↦ rw (e, p) ((λ h. ground (arith, h, p)), λ _. refl)
  ]
]

-- An invitation under an id that the table of calls knows raises, if the callee is online; the
-- session under that id is then already replaced by a pending one with the new caller and callee.
pub invite_reused :
    (env : Env) (id caller callee : String) (info : PeerInfo) (w : World) (ws : Ws)
    → Router.get callee w ≡ some ws
    → exists_row (λ r. r.id == id) w.call_sessions ≡ true
    → (call : Call) × ((invite env id caller callee info w).0 ≡ raised)
      × (lookup id (invite env id caller callee info w).1.calls ≡ some call)
      × (call.caller ≡ caller)
      × (call.callee ≡ callee)
      × (call.status ≡ pending)
unfolding invite create_call Router.get
invite_reused env id caller callee info w ws online taken =
    let call : Call = record {
      id = id;
      caller = caller;
      callee = callee;
      status = pending;
      caller_info = info;
      callee_info = none;
      created_at = env.now;
    } in
    rw (online, taken)
      (call, refl, rw (lookup-insert id id call w.calls, beq_refl id) refl, refl, refl, refl)
