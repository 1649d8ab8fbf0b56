-- ===== src/Client/JitterBuffer/Tests.antt =====
-- Witnesses and runs of the jitter buffer.
use chat_terminal.Common.{◌≡◌, refl, true, false, some, List, [], ◌∷◌, arith, nat_eq}
use chat_terminal.Common.Dict.{lookup, insert, erase}
use chat_terminal.Client.JitterBuffer.{JitterBuffer, init, push, pop, unblock}
use chat_terminal.Client.JitterBuffer.Order.{Op, pushes, pops, delivered}
use chat_terminal.Client.JitterBuffer.Stall.{IsStalled, stalled_forever}

abbrev fresh : JitterBuffer
fresh = record { max_size = 2; buffer = []; next_seq = 0; initialised = false; popped = false }

init-fresh : init 2 ≡ some fresh
unfolding init
init-fresh = refl

abbrev swapped : List Op
swapped = pushes 6 (60 ∷ []) ∷ pushes 5 (50 ∷ []) ∷ pops ∷ pops ∷ pops ∷ []

swapped_delivered : delivered fresh swapped ≡ (5, 50 ∷ []) ∷ (6, 60 ∷ []) ∷ []
unfolding delivered push pop unblock lookup insert erase
swapped_delivered = refl

-- The frame 8 came late, after 9; then 10 is lost.
abbrev blocked : JitterBuffer
blocked = record {
  max_size = 2;
  buffer = (8, 80 ∷ []) ∷ [];
  next_seq = 10;
  initialised = true;
  popped = true;
}

blocked_reached : (let b = (pop (push fresh 9 (90 ∷ []))).0 in push b 8 (80 ∷ [])) ≡ blocked
unfolding push pop lookup insert erase
blocked_reached = refl

blocked-IsStalled : IsStalled 8 (80 ∷ []) blocked
unfolding lookup
blocked-IsStalled = record {
  on = refl;
  popping = refl;
  missing = refl;
  stored = refl;
  behind = omega arith;
}

abbrev ten_lost : List Op
ten_lost = pushes 11 (11 ∷ []) ∷ pops ∷ pushes 12 (12 ∷ []) ∷ pops ∷ pushes 13 (13 ∷ []) ∷ pops ∷ []

stalled_forever_example : delivered blocked ten_lost ≡ []
stalled_forever_example =
    stalled_forever 8 (80 ∷ []) blocked ten_lost blocked-IsStalled
      ((λ p. omega arith), ((λ p. omega arith), ((λ p. omega arith), tt)))
