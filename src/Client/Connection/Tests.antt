-- ===== src/Client/Connection/Tests.antt =====
-- A witness of the connection.
use chat_terminal.Common.{◌≡◌, refl, ℕ, true, false, [], ◌∷◌, ◌++◌}
use chat_terminal.Client.Connection.{Client, send, sender_turn, opened}
use chat_terminal.Client.Connection.Order.{
  Subsequence, Run, begin, sends, turns, opens, run-Subsequence,
}

abbrev client : Client ℕ
client = record {
  send_q = [];
  connected = false;
  running = true;
  attempt = 0;
  delay_idx = 0;
  wire = [];
}

-- The first of two packets is taken before there is a connection.
abbrev after : Client ℕ
after = sender_turn true (opened (sender_turn true (send 8 (send 7 client))))

run : Run client after (7 ∷ 8 ∷ [])
run = turns true (opens (turns true (sends 8 (sends 7 begin))))

run-Subsequence_example : Subsequence (after.wire ++ after.send_q) (7 ∷ 8 ∷ [])
run-Subsequence_example = run-Subsequence refl refl run

first_lost : after.wire ≡ 8 ∷ []
unfolding sender_turn send opened
first_lost = refl
