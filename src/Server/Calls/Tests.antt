-- ===== src/Server/Calls/Tests.antt =====
-- Witnesses of the call sessions.
use chat_terminal.Common.{String, ◌≡◌, ◌≢◌, refl, false, none, some, List, [], ◌∷◌, string_eq}
use chat_terminal.Common.Dict.{lookup}
use chat_terminal.Shared.Protocol.{num, text}
use chat_terminal.Server.World.{World, Call, PeerInfo, pending}
use chat_terminal.Server.World.Samples.{env, world}
use chat_terminal.Server.Exec.{raised}
use chat_terminal.Server.Router
use chat_terminal.Server.Calls.{invite}
use chat_terminal.Server.Calls.Lifecycle.{
  invites, accepts, ends, perform, status_of, CallStep, perform-CallStep,
}
use chat_terminal.Server.Calls.Traces.{Event, run, closed_until_invited, invite_reused}

abbrev info : PeerInfo
info = record { ip = "10.0.0.1"; udp_port = num 4000; pubkey = text "k" }

abbrev ringing_call : Call
ringing_call = record {
  id = "s1";
  caller = "bob";
  callee = "alice";
  status = pending;
  caller_info = info;
  callee_info = none;
  created_at = 900;
}

-- Bob is calling Alice.
abbrev ringing : World
ringing = record world {
  calls = ("s1", ringing_call) ∷ [];
  call_sessions =
      record {
        id = "s1";
        caller = "bob";
        callee = "alice";
        started_at = 900;
        ended_at = none;
        relay_used = false;
        status = pending;
      }
      ∷ [];
}

perform-CallStep_example :
    CallStep
      (accepts info)
      (status_of "s1" ringing)
      (status_of "s1" (perform env "s1" (accepts info) ringing))
    × (◌≢◌ {A = String} "s2" "s1"
        → lookup "s2" (perform env "s1" (accepts info) ringing).calls ≡ lookup "s2" ringing.calls)
perform-CallStep_example = perform-CallStep env "s1" "s2" (accepts info) ringing

abbrev after_the_end : List Event
after_the_end =
    (env, "s1", accepts info)
    ∷ (env, "s2", invites "bob" "alice" info)
    ∷ (env, "s1", ends "bob")
    ∷ []

no_call : status_of "s1" world ≡ none
unfolding lookup
no_call = refl

closed_until_invited_example : status_of "s1" (run after_the_end world) ≡ none
closed_until_invited_example = closed_until_invited "s1" after_the_end world no_call refl

alice_online : Router.get "alice" ringing ≡ some 1
unfolding Router.get lookup
alice_online = refl

-- Mallory takes over Bob's session.
invite_reused_example :
    (call : Call) × ((invite env "s1" "mallory" "alice" info ringing).0 ≡ raised)
    × (lookup "s1" (invite env "s1" "mallory" "alice" info ringing).1.calls ≡ some call)
    × (call.caller ≡ "mallory")
    × (call.callee ≡ "alice")
    × (call.status ≡ pending)
invite_reused_example = invite_reused env "s1" "mallory" "alice" info ringing 1 alice_online refl
