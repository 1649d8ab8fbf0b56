-- ===== src/Server/RateLimiter.antt =====
-- server/rate_limiter.py: a token bucket for each key.
-- The source counts tokens in floats. Here a token is `per` units, so that the refill rate
-- `rate / per` is exact: a bucket holds `rate * per` units and gains `rate` units for each tick
-- of the monotonic clock. Rounding of floats is not modelled.
pub mod Bounds
mod Tests
use chat_terminal.Common.{
  ℕ, ◌+◌, ◌-◌, ◌*◌, min, String, Bool, true, false, Option, none, some, [], ltb, nat_beq, ◌||◌,
  string_eq, if◌then◌else◌,
}
use chat_terminal.Common.Dict.{Dict, lookup, insert, erase}

pub record Bucket : Type 0 where
  pub tokens : ℕ
  pub last : ℕ

pub record RateLimiter : Type 0 where
  pub rate : ℕ
  pub per : ℕ
  pub buckets : Dict String Bucket

-- `__init__`; `none` stands for the ValueError.
pub init : ℕ → ℕ → Option RateLimiter
init rate per =
    if nat_beq rate 0 || nat_beq per 0
    then none
    else some (record { rate = rate; per = per; buckets = [] })

-- `min(rate, tokens + elapsed * (rate / per))`
pub refill : RateLimiter → Bucket → ℕ → ℕ
refill l b now = min (l.rate * l.per) (b.tokens + (now - b.last) * l.rate)

put : RateLimiter → String → ℕ → ℕ → RateLimiter
put l key tokens now = record l {
  buckets = insert key (record { tokens = tokens; last = now }) l.buckets;
}

-- `allow(key)` when the monotonic clock reads `now`.
unfoldable pub allow : RateLimiter → String → ℕ → RateLimiter × Bool
unfolding put
allow l key now = elim (lookup key l.buckets) [
  | none ↦ (put l key (l.rate * l.per - l.per) now, true)
  | some b ↦
      let tokens = refill l b now in
      if ltb tokens l.per
      then (put l key tokens now, false)
      else (put l key (tokens - l.per) now, true)
]

unfoldable pub reset : RateLimiter → String → RateLimiter
reset l key = record l { buckets = erase key l.buckets }
