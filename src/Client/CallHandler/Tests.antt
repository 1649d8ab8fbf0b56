-- ===== src/Client/CallHandler/Tests.antt =====
-- Witnesses of calls.
use chat_terminal.Common.{◌≡◌, refl, some, [], ◌∷◌}
use chat_terminal.Common.Dict.{lookup}
use chat_terminal.Shared.Protocol.{text, num, Packet}
use chat_terminal.Client.CallHandler.{accept, invite, public_b64}
use chat_terminal.Client.CallHandler.Incoming.{handle_accept, handle_end}
use chat_terminal.Client.CallHandler.Keys.{Accepted, handle_accept-accept}
use chat_terminal.Client.CallHandler.Lifecycle.{IsIdle, handle_end-IsIdle}
use chat_terminal.Client.Fixtures.{suite-GoodSuite, user, empty, calling}

abbrev accepted : Packet
accepted =
    ("session_id", text "s")
    ∷ ("callee_ip", text "10.0.0.2")
    ∷ ("callee_udp_port", num 40000)
    ∷ ("ephemeral_pubkey", text (public_b64 (user "alice") (8 ∷ [])))
    ∷ []

accepted-Accepted : Accepted accepted "s" (public_b64 (user "alice") (8 ∷ []))
unfolding lookup
accepted-Accepted = record {
  address = "10.0.0.2";
  port = 40000;
  session = refl;
  public = refl;
  ip = refl;
  udp_port = refl;
  some_ip = refl;
  some_port = refl;
}

handle_accept-accept_example :
    ((accept (user "bob") "s" (some (public_b64 (user "alice") (9 ∷ []))) empty).1.call.call_key
      ≡ some (17 ∷ []))
    × ((handle_accept (user "alice") accepted (invite (user "alice") "bob" empty).1).1.call.call_key
        ≡ some (17 ∷ []))
handle_accept-accept_example =
    handle_accept-accept (user "alice") (user "bob") empty empty
      (invite (user "alice") "bob" empty).1 accepted "bob" "s" (17 ∷ []) suite-GoodSuite refl refl
      refl refl refl refl accepted-Accepted

handle_end-IsIdle_example :
    IsIdle (handle_end (user "alice") (("session_id", text "s") ∷ []) calling).1.call
unfolding lookup
handle_end-IsIdle_example =
    handle_end-IsIdle (user "alice") calling (("session_id", text "s") ∷ []) "s" refl refl
