-- ===== src/Server/Calls.antt =====
-- server/call_manager.py and server/db/calls.py: call sessions and their signalling.
pub mod Tests
pub mod Lifecycle
pub mod Traces
use chat_terminal.Common.{
  ℕ, String, Bool, true, false, Option, none, some, List, [], ◌∷◌, ◌++◌, string_eq, ◌==◌,
  exists_row, if◌then◌else◌,
}
use chat_terminal.Common.Dict.{lookup, insert, erase}
use chat_terminal.Shared.Protocol.{
  Json, text, Packet, MsgType, call_invite, call_accept, call_decline, call_end, call_relay, value,
  header,
}
use chat_terminal.Server.World.{
  World, Env, Ws, Call, CallRow, CallStatus, PeerInfo, pending, active, ended, update_rows,
}
use chat_terminal.Server.Exec.{
  Exec, ◌>>=◌, ◌>>◌, pure, raise, gets, modify, skip, try_else, new_id, send,
}
use chat_terminal.Server.Router

unfoldable pub get_session : String → World → Option Call
get_session session_id w = lookup session_id w.calls

-- `_send`
unfoldable pub send_to : Env → String → Packet → Exec Bool
unfolding send Router.get
send_to env username packet = do
  ws ← gets (Router.get username)
  elim ws [
    | none ↦ pure false
    | some target ↦ try_else (do send env target (env.dumps packet); pure true) (pure false)
  ]

-- `INSERT INTO call_sessions`: an id that is there raises.
unfoldable pub create_call : String → String → String → ℕ → Exec (Unit {0})
create_call id caller callee started_at = do
  taken ← gets (λ w. exists_row (λ r. r.id == id) w.call_sessions)
  if taken
      then raise
      else modify (λ w. record w {
        call_sessions =
            w.call_sessions
            ++ record {
              id = id;
              caller = caller;
              callee = callee;
              started_at = started_at;
              ended_at = none;
              relay_used = false;
              status = pending;
            }
              ∷ [];
      })

-- `update_call(id, status="active")`
unfoldable pub update_status : String → CallStatus → Exec (Unit {0})
update_status id status = modify λ w. record w {
  call_sessions = update_rows (λ r. r.id == id) (λ r. record r { status = status }) w.call_sessions;
}

unfoldable pub db_end_call : String → ℕ → Exec (Unit {0})
db_end_call id ended_at = modify λ w. record w {
  call_sessions =
      update_rows (λ r. r.id == id)
        (λ r. record r { ended_at = some ended_at; relay_used = false; status = ended })
        w.call_sessions;
}

unfoldable pub invite : Env → String → String → String → PeerInfo → Exec Bool
unfolding send_to create_call new_id value Router.get
invite env session_id caller callee info = do
  ws ← gets (Router.get callee)
  elim ws [
    | none ↦ pure false
    | some _ ↦ do
      modify (λ w. record w {
        calls =
            insert session_id
              (record {
                id = session_id;
                caller = caller;
                callee = callee;
                status = pending;
                caller_info = info;
                callee_info = none;
                created_at = env.now;
              })
              w.calls;
      })
      create_call session_id caller callee env.now
      id ← new_id env
      send_to env callee (
          header (value call_invite) id env.now
          ++ ("session_id", text session_id)
            ∷ ("from", text caller)
            ∷ ("caller", text caller)
            ∷ ("to", text callee)
            ∷ ("caller_ip", text info.ip)
            ∷ ("local_port", info.udp_port)
            ∷ ("caller_udp_port", info.udp_port)
            ∷ ("ephemeral_pubkey", info.pubkey)
            ∷ ("caller_pubkey", info.pubkey)
            ∷ [])
      pure true
  ]

abbrev pub is_pending : CallStatus → Bool
is_pending pending = true
is_pending _ = false

unfoldable pub accept_session : Env → String → PeerInfo → Call → Exec Bool
unfolding send_to update_status new_id value
accept_session env session_id info session = do
  modify (λ w. record w {
    calls = insert session_id (record session { status = active; callee_info = some info }) w.calls;
  })
  update_status session_id active
  id ← new_id env
  send_to env session.caller (
      header (value call_accept) id env.now
      ++ ("session_id", text session_id)
        ∷ ("from", text session.callee)
        ∷ ("to", text session.caller)
        ∷ ("callee_ip", text info.ip)
        ∷ ("local_port", info.udp_port)
        ∷ ("callee_udp_port", info.udp_port)
        ∷ ("ephemeral_pubkey", info.pubkey)
        ∷ ("callee_pubkey", info.pubkey)
        ∷ [])
  pure true

unfoldable pub accept : Env → String → PeerInfo → Exec Bool
unfolding accept_session get_session
accept env session_id info = do
  found ← gets (get_session session_id)
  elim found [
    | none ↦ pure false
    | some session ↦
        if is_pending session.status then accept_session env session_id info session else pure false
  ]

-- `self._sessions.pop(session_id, None)`
unfoldable pub pop_session : String → Exec (Option Call)
unfolding get_session
pop_session session_id = do
  found ← gets (get_session session_id)
  modify (λ w. record w { calls = erase session_id w.calls })
  pure found

-- What `decline` and `end_call` do with the session that they have removed
unfoldable pub close_session : Env → String → MsgType → String → Exec (Unit {0})
unfolding send_to db_end_call new_id value
close_session env session_id t other = do
  db_end_call session_id env.now
  id ← new_id env
  send_to env other (header (value t) id env.now ++ ("session_id", text session_id) ∷ [])
  skip

unfoldable pub decline : Env → String → Exec (Unit {0})
unfolding pop_session close_session
decline env session_id = do
  found ← pop_session session_id
  elim found [
    | none ↦ skip
    | some session ↦ close_session env session_id call_decline session.caller
  ]

-- "the other party": the caller, unless the caller itself asks
unfoldable pub other_party : Call → String → String
other_party session from_user =
    if from_user == session.caller then session.callee else session.caller

unfoldable pub end_call : Env → String → String → Exec (Unit {0})
unfolding pop_session close_session other_party
end_call env session_id from_user = do
  found ← pop_session session_id
  elim found [
    | none ↦ skip
    | some session ↦ close_session env session_id call_end (other_party session from_user)
  ]

unfoldable pub relay_audio : Env → String → String → Json → Exec (Unit {0})
unfolding send_to new_id value other_party get_session
relay_audio env session_id from_user data_b64 = do
  found ← gets (get_session session_id)
  elim found [
    | none ↦ skip
    | some session ↦ do
      id ← new_id env
      send_to env (other_party session from_user) (
          header (value call_relay) id env.now
          ++ ("session_id", text session_id) ∷ ("from", text from_user) ∷ ("data", data_b64) ∷ [])
      skip
  ]
