-- ===== src/Server/RateLimiter/Bounds.antt =====
-- How many requests of a key get through.
use native.Mathlib.Nat.{mul-le-mul_right, add-mul}
use chat_terminal.Common.{
  ℕ, suc, ◌+◌, ◌-◌, ◌*◌, ◌≤◌, ◌<◌, String, ◌≡◌, refl, Bool, true, false, none, some, List, [], ◌∷◌,
  arith, ltb, if◌then◌else◌, ◌==◌, eq_iff, string_eq, Option-cases, Bool-cases, inl, inr, ◌≢◌,
  beq_refl, beq_ne, ap, sym, beq_ne,
}
use chat_terminal.Common.Dict.{lookup, lookup-insert, lookup-erase}
use chat_terminal.Server.RateLimiter.{RateLimiter, Bucket, refill, put, allow, reset}

-- A request in time: the key and the clock's reading.
abbrev pub Request : Type 0
Request = String × ℕ

-- The clock never goes back.
abbrev pub InOrder : ℕ → List Request → Type 0
InOrder t [] = Unit
InOrder t ((_, now) ∷ rest) = (t ≤ now) × InOrder now rest

-- The last reading.
abbrev pub end : ℕ → List Request → ℕ
end t [] = t
end t ((_, now) ∷ rest) = end now rest

-- How many of the requests of `key` are allowed.
unfoldable pub admitted : String → RateLimiter → List Request → ℕ
admitted key l [] = 0
admitted key l ((k, now) ∷ rest) =
    let (l', allowed) = allow l k now in
    let later = admitted key l' rest in
    if k == key then (if allowed then suc later else later) else later

-- What the key may spend at `t`: its refilled tokens, or a full bucket if it has none yet.
abbrev credit : RateLimiter → String → ℕ → ℕ
credit l key t = elim (lookup key l.buckets) [ none ↦ l.rate * l.per | some b ↦ refill l b t ]

allow_config :
    (l : RateLimiter) (k : String) (now : ℕ)
    → ((allow l k now).0.rate ≡ l.rate) × ((allow l k now).0.per ≡ l.per)
unfolding allow
allow_config l k now = ground arith

abbrev cost : Bool → ℕ → ℕ
cost a per = if a then per else 0

refill_now :
    (l : RateLimiter) (tokens now : ℕ)
    → tokens ≤ l.rate * l.per
    → refill l (record { tokens = tokens; last = now }) now ≡ tokens
unfolding refill
refill_now l tokens now h = grind arith

refill_le : (l : RateLimiter) (b : Bucket) (now : ℕ) → refill l b now ≤ l.rate * l.per
unfolding refill
refill_le l b now = omega arith

-- Waiting from `t` to `now` never gains more than the refill of that time.
gain : (last t now r : ℕ) → t ≤ now → (now - last) * r ≤ (t - last) * r + (now - t) * r
gain last t now r h = grind (arith, λ (p : now - last ≤ t - last + (now - t)). mul-le-mul_right r p)

refill_later :
    (l : RateLimiter) (b : Bucket) (t now : ℕ)
    → t ≤ now
    → refill l b now ≤ refill l b t + (now - t) * l.rate
unfolding refill
refill_later l b t now h = omega (arith, gain b.last t now l.rate h)

credit_later :
    (l : RateLimiter) (key : String) (t now : ℕ)
    → t ≤ now
    → credit l key now ≤ credit l key t + (now - t) * l.rate
credit_later l key t now h = elim (Option-cases (lookup key l.buckets)) [
  | inl e ↦ rw (e, credit) (omega arith)
  | inr (b, e) ↦ rw (e, credit) (refill_later l b t now h)
]

credit_le : (l : RateLimiter) (key : String) (t : ℕ) → credit l key t ≤ l.rate * l.per
credit_le l key t = grind (arith, refill_le)

per_le : (l : RateLimiter) → 0 < l.rate → l.per ≤ l.rate * l.per
per_le l h = grind arith

refill_put :
    (l : RateLimiter) (key : String) (tokens now : ℕ)
    → tokens ≤ l.rate * l.per
    → credit (put l key tokens now) key now ≡ tokens
unfolding put
refill_put l key tokens now h = rw (lookup-insert, beq_refl key, credit) (refill_now _ tokens now h)

-- A request pays for itself out of the key's credit.
allow_pays :
    (l : RateLimiter) (key : String) (now : ℕ)
    → 0 < l.rate
    → cost (allow l key now).1 l.per + credit (allow l key now).0 key now ≤ credit l key now
unfolding allow put
allow_pays l key now h = elim (Option-cases (lookup key l.buckets)) [
  | inl e ↦ ground (arith, per_le l h, refill_put l key (l.rate * l.per - l.per) now)
  | inr (b, e) ↦ ground (
    arith,
    per_le l h,
    refill_le l b now,
    refill_put l key (refill l b now) now,
    refill_put l key (refill l b now - l.per) now,
  )
]

put_others :
    (l : RateLimiter) (k key : String) (tokens now t : ℕ)
    → k ≢ key
    → credit (put l k tokens now) key t ≡ credit l key t
unfolding put refill
put_others l k key tokens now t ne = rw (lookup-insert, beq_ne k key ne, credit) refl

-- Every branch of `allow` writes the key's bucket.
allow_cases :
    (P : RateLimiter × Bool → Type 0) (l : RateLimiter) (k : String) (now : ℕ)
    → ((tokens : ℕ) (allowed : Bool) → P (put l k tokens now, allowed))
    → P (allow l k now)
unfolding allow
allow_cases P l k now each = elim (Option-cases (lookup k l.buckets)) [
  | inl e ↦ rw (e, allow) (each _ true)
  | inr (b, e) ↦ elim (Bool-cases (ltb (refill l b now) l.per)) [
    | inl low ↦ rw (e, allow, low) (each _ false)
    | inr enough ↦ rw (e, allow, enough) (each _ true)
  ]
]

allow_others :
    (l : RateLimiter) (k key : String) (now : ℕ)
    → k ≢ key
    → credit (allow l k now).0 key now ≡ credit l key now
allow_others l k key now ne =
    allow_cases (λ r. credit r.0 key now ≡ credit l key now) l k now
      λ tokens _. put_others l k key tokens now now ne

-- One request, whoever makes it, takes from the key's credit what it costs the key.
abbrev charged : String → Request → Bool → ℕ → ℕ
charged key (k, _) allowed per = if k == key then cost allowed per else 0

allow-charged :
    (l : RateLimiter) (key k : String) (now : ℕ)
    → 0 < l.rate
    → charged key (k, now) (allow l k now).1 l.per + credit (allow l k now).0 key now
      ≤ credit l key now
allow-charged l key k now h = elim (Bool-cases (k == key)) [
  | inl e ↦ rw ((eq_iff k key).0 e, beq_refl key) (allow_pays l key now h)
  | inr e ↦ rw (e, allow_others l k key now (λ p. ground (arith, eq_iff k key))) (omega arith)
]

end_ge : (t : ℕ) (requests : List Request) → InOrder t requests → t ≤ end t requests
end_ge t [] o = omega arith
end_ge t ((_, now) ∷ rest) (le, o) = omega (arith, end_ge now rest o)

split_time :
    (t now last r : ℕ) → t ≤ now → now ≤ last → (now - t) * r + (last - now) * r ≡ (last - t) * r
split_time t now last r h k = omega (
  arith,
  ap (λ (x : ℕ). x * r) (let e : now - t + (last - now) ≡ last - t = omega arith in e),
  add-mul (now - t) (last - now) r,
)

admitted_cons :
    (key : String) (l : RateLimiter) (k : String) (now : ℕ) (rest : List Request) (per : ℕ)
    → admitted key l ((k, now) ∷ rest) * per
      ≡ charged key (k, now) (allow l k now).1 per + admitted key (allow l k now).0 rest * per
unfolding admitted
admitted_cons key l k now rest per = elim (Bool-cases (k == key)) [
  | inl e ↦ elim (Bool-cases (allow l k now).1) [
    | inl a ↦ rw (e, a) (omega arith)
    | inr a ↦ rw (e, a) (omega arith)
  ]
  | inr e ↦ rw e (omega arith)
]

admitted_le_credit :
    (key : String) (l : RateLimiter) (t : ℕ) (requests : List Request)
    → 0 < l.rate
    → InOrder t requests
    → admitted key l requests * l.per ≤ credit l key t + (end t requests - t) * l.rate
unfolding admitted
admitted_le_credit key l t [] h o = omega arith
admitted_le_credit key l t ((k, now) ∷ rest) h (le, o) =
    let l' = (allow l k now).0 in
    let ih = admitted_le_credit key l' now rest (rw (allow_config l k now).0 h) o in
    let ih' = rw ((allow_config l k now).0, (allow_config l k now).1) at ih in
    omega (
      arith,
      ih',
      admitted_cons key l k now rest l.per,
      allow-charged l key k now h,
      credit_later l key t now le,
      split_time t now (end now rest) l.rate le (end_ge now rest o),
    )

-- Over any history of requests of all keys, in the order of the clock, the requests of one key
-- that are allowed cost at most one full bucket and the refill of the time that has passed:
-- `admitted ≤ rate + elapsed * rate / per`, multiplied out. The rate is positive.
pub admitted_bound :
    (key : String) (l : RateLimiter) (t : ℕ) (requests : List Request)
    → 0 < l.rate
    → InOrder t requests
    → admitted key l requests * l.per ≤ l.rate * l.per + (end t requests - t) * l.rate
admitted_bound key l t requests h o =
    omega (arith, admitted_le_credit key l t requests h o, credit_le l key t)

-- A key that waits for one token's refill after its last request is served: with a positive rate
-- and a bucket for the key, a request at `now` is allowed if `per ≤ (now - last) * rate`.
pub allow_after_wait :
    (l : RateLimiter) (key : String) (now : ℕ) (b : Bucket)
    → 0 < l.rate
    → lookup key l.buckets ≡ some b
    → l.per ≤ (now - b.last) * l.rate
    → (allow l key now).1 ≡ true
unfolding allow refill
allow_after_wait l key now b h e w = ground (arith, per_le l h)

-- After a reset the key starts again with a full bucket, and the other keys keep their credit.
pub reset_credit :
    (l : RateLimiter) (key k : String) (now : ℕ)
    → ((allow (reset l key) key now).1 ≡ true)
      × (k ≢ key → lookup k (reset l key).buckets ≡ lookup k l.buckets)
unfolding allow reset
reset_credit l key k now = (
  ground (arith, lookup-erase key key l.buckets, beq_refl key),
  λ ne. rw (lookup-erase, beq_ne key k (λ e. ne (sym e))),
)
