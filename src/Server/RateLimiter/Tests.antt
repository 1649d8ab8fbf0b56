-- ===== src/Server/RateLimiter/Tests.antt =====
-- Witnesses and runs of the rate limiter, with two requests for each ten ticks.
use chat_terminal.Common.{
  ◌+◌, ◌-◌, ◌*◌, ◌≤◌, ◌≡◌, refl, true, some, List, [], ◌∷◌, arith, string_eq,
}
use chat_terminal.Common.Dict.{lookup, insert}
use chat_terminal.Server.RateLimiter.{RateLimiter, init, refill, allow}
use chat_terminal.Server.RateLimiter.Bounds.{Request, admitted, admitted_bound, allow_after_wait}

abbrev two_per_ten : RateLimiter
two_per_ten = record { rate = 2; per = 10; buckets = [] }

abbrev burst : List Request
burst = ("a", 100) ∷ ("a", 100) ∷ ("b", 100) ∷ ("a", 100) ∷ ("a", 105) ∷ ("a", 106) ∷ []

-- Two at once, none for the third, and one more when its token is back.
burst-admitted : admitted "a" two_per_ten burst ≡ 3
unfolding admitted allow refill lookup insert
burst-admitted = refl

init_two : init 2 10 ≡ some two_per_ten
unfolding init
init_two = refl

admitted_bound_example : admitted "a" two_per_ten burst * 10 ≤ 2 * 10 + (106 - 100) * 2
admitted_bound_example = admitted_bound "a" two_per_ten 100 burst (omega arith) (omega arith)

abbrev spent : RateLimiter
spent = record two_per_ten { buckets = ("a", record { tokens = 0; last = 100 }) ∷ [] }

allow_after_wait_example : (allow spent "a" 105).1 ≡ true
unfolding lookup
allow_after_wait_example =
    allow_after_wait spent "a" 105 (record { tokens = 0; last = 100 }) (omega arith) refl
      (omega arith)
