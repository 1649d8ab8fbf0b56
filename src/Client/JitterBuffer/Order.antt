-- ===== src/Client/JitterBuffer/Order.antt =====
-- The frames that come out of a jitter buffer: their order and their origin.
use chat_terminal.Common.{
  ℕ, suc, ◌+◌, ◌≤◌, ◌<◌, ◌≡◌, refl, ◌⊎◌, inl, inr, true, false, Option, none, some, List, [], ◌∷◌,
  arith, nat_eq, ◌∙◌, sym, subst, ap, Bool-cases, Option-cases,
}
use chat_terminal.Common.Dict.{Dict, lookup, insert, erase, lookup-erase, insert_cases}
use chat_terminal.Client.JitterBuffer.{
  JitterBuffer, Audio, push, unblock, take_next, pop, advance_to_earliest,
}

-- What the receiving coroutine does with the buffer.
pub data Op : Type 0 where
  pushes : ℕ → Audio → Op
  pops : Op

-- The frames that the pops return, each with the sequence number that was next.
unfoldable pub delivered : JitterBuffer → List Op → List (ℕ × Audio)
delivered b [] = []
delivered b (pushes seq frame ∷ ops) = delivered (push b seq frame) ops
delivered b (pops ∷ ops) =
    let (b', out) = pop b in
    let later = delivered b' ops in
    elim out [ none ↦ later | some frame ↦ ((unblock b).next_seq, frame) ∷ later ]

-- Each sequence number is at least `low` and above those before it.
abbrev pub Ascending : ℕ → List (ℕ × Audio) → Type 0
Ascending low [] = Unit
Ascending low ((seq, _) ∷ rest) = (low ≤ seq) × Ascending (suc seq) rest

advance_grows :
    (b : JitterBuffer)
    → (b.next_seq ≤ (advance_to_earliest b).next_seq)
      × ((advance_to_earliest b).popped ≡ b.popped)
      × ((advance_to_earliest b).buffer ≡ b.buffer)
      × ((advance_to_earliest b).initialised ≡ b.initialised)
unfolding advance_to_earliest
advance_grows b = ground arith

unblock_grows :
    (b : JitterBuffer)
    → (b.next_seq ≤ (unblock b).next_seq)
      × ((unblock b).popped ≡ b.popped)
      × ((unblock b).buffer ≡ b.buffer)
unfolding unblock
unblock_grows b = ground (arith, advance_grows b)

-- What one pop does: nothing comes out, or the frame that is stored under the head.
unfoldable pub Popped : JitterBuffer → JitterBuffer × Option Audio → Type 0
Popped b (b', none) =
    (b.next_seq ≤ b'.next_seq)
    × (b'.popped ≡ b.popped)
    × (b'.initialised ≡ b.initialised)
    × (b'.buffer ≡ b.buffer)
Popped b (b', some frame) =
    (b.next_seq ≤ (unblock b).next_seq)
    × (lookup (unblock b).next_seq b.buffer ≡ some frame)
    × (b'.next_seq ≡ suc (unblock b).next_seq)
    × (b'.popped ≡ true)
    × (b'.initialised ≡ true)
    × (b'.buffer ≡ erase (unblock b).next_seq b.buffer)

unblock_initialised : (b : JitterBuffer) → (unblock b).initialised ≡ b.initialised
unfolding unblock
unblock_initialised b = ground (arith, advance_grows b)

take_next-Popped : (b : JitterBuffer) → b.initialised ≡ true → Popped b (take_next (unblock b))
unfolding Popped take_next
take_next-Popped b i = elim (Option-cases (lookup (unblock b).next_seq (unblock b).buffer)) [
  | inl e ↦
      rw (e, take_next)
        ((unblock_grows b).0, (unblock_grows b).1, unblock_initialised b, (unblock_grows b).2)
  | inr (frame, e) ↦
      rw (e, take_next)
        (
          (unblock_grows b).0,
          ground (arith, unblock_grows b),
          omega arith,
          refl,
          (unblock_initialised b ∙ i),
          ground (arith, unblock_grows b),
        )
]

pop_on : (b : JitterBuffer) → b.initialised ≡ true → pop b ≡ take_next (unblock b)
unfolding pop
pop_on b i = ground arith

pop_off : (b : JitterBuffer) → b.initialised ≡ false → pop b ≡ (b, none)
unfolding pop
pop_off b i = ground arith

pub pop-Popped : (b : JitterBuffer) → Popped b (pop b)
pop-Popped b = elim (Bool-cases b.initialised) [
  | inl i ↦ subst (Popped b) (sym (pop_on b i)) (take_next-Popped b i)
  | inr i ↦ subst (Popped b) (sym (pop_off b i)) (unfold Popped in (omega arith, refl, refl, refl))
]

abbrev emit : JitterBuffer → Option Audio → List (ℕ × Audio) → List (ℕ × Audio)
emit b none later = later
emit b (some frame) later = ((unblock b).next_seq, frame) ∷ later

delivered-pops :
    (b : JitterBuffer) (ops : List Op)
    → delivered b (pops ∷ ops) ≡ emit b (pop b).1 (delivered (pop b).0 ops)
unfolding delivered
delivered-pops b ops = ground arith

push_buffer :
    (b : JitterBuffer) (seq : ℕ) (frame : Audio)
    → ((push b seq frame).buffer ≡ b.buffer)
      ⊎ ((push b seq frame).buffer ≡ insert seq frame b.buffer)
unfolding push
push_buffer b seq frame = grind (arith, advance_grows)

module _ (P : ℕ → Audio → Type 0) where
  -- Every stored frame has the property.
  abbrev Stored : Dict ℕ Audio → Type 0
  Stored d = (seq : ℕ) (frame : Audio) → lookup seq d ≡ some frame → P seq frame

  abbrev pub PushedAll : List Op → Type 0
  PushedAll [] = Unit
  PushedAll (pushes seq frame ∷ ops) = P seq frame × PushedAll ops
  PushedAll (pops ∷ ops) = PushedAll ops

  abbrev pub DeliveredAll : List (ℕ × Audio) → Type 0
  DeliveredAll [] = Unit
  DeliveredAll ((seq, frame) ∷ rest) = P seq frame × DeliveredAll rest

  push-Stored :
      (b : JitterBuffer) (seq : ℕ) (frame : Audio)
      → P seq frame
      → Stored b.buffer
      → Stored (push b seq frame).buffer
  push-Stored b seq frame p h seq' frame' e = elim (push_buffer b seq frame) [
    | inl same ↦ h seq' frame' (rw (← same) e)
    | inr added ↦ elim (insert_cases seq seq' frame b.buffer) [
      | inl (s, g) ↦
          subst (λ n. P n frame') s
            (subst (P seq) (let same : frame ≡ frame' = cc (added, e, g) in same) p)
      | inr (_, g) ↦ h seq' frame' (sym g ∙ ap (lookup seq') (sym added) ∙ e)
    ]
  ]

  pop-Stored :
      (b : JitterBuffer) (r : JitterBuffer × Option Audio)
      → Popped b r
      → Stored b.buffer
      → Stored r.0.buffer
  unfolding Popped
  pop-Stored b (b', none) (_, _, _, e) h seq f q = h seq f (ap (lookup seq) (sym e) ∙ q)
  pop-Stored b (b', some frame) (_, _, _, _, _, e) h seq f q =
      h seq f (ground (arith, lookup-erase (unblock b).next_seq seq b.buffer, e))

  emit_all :
      (b : JitterBuffer) (r : JitterBuffer × Option Audio) (later : List (ℕ × Audio))
      → Popped b r
      → Stored b.buffer
      → DeliveredAll later
      → DeliveredAll (emit b r.1 later)
  unfolding Popped
  emit_all b (b', none) later q h d = d
  emit_all b (b', some frame) later (_, e, _, _, _, _) h d = (h (unblock b).next_seq frame e, d)

  delivered_all :
      (b : JitterBuffer) (ops : List Op)
      → Stored b.buffer
      → PushedAll ops
      → DeliveredAll (delivered b ops)
  unfolding delivered
  delivered_all b [] h a = tt
  delivered_all b (pushes seq frame ∷ ops) h (p, a) =
      delivered_all (push b seq frame) ops (push-Stored b seq frame p h) a
  delivered_all b (pops ∷ ops) h a = rw delivered-pops (
      emit_all b (pop b) _ (pop-Popped b) h
        (delivered_all (pop b).0 ops (pop-Stored b (pop b) (pop-Popped b) h) a))

  -- Every frame that comes out of an empty buffer was pushed under its sequence number: what holds
  -- of all pushed packets holds of all delivered ones.
  pub delivered_pushed :
      (b : JitterBuffer) (ops : List Op)
      → b.buffer ≡ []
      → PushedAll ops
      → DeliveredAll (delivered b ops)
  unfolding lookup
  delivered_pushed b ops e = delivered_all b ops (λ seq frame q. ground (arith, e))

-- A packet that is next is returned by the pop after it: the buffer is empty, and it either has
-- not started, or the packet has the head's number; the head then moves to the next number.
pub pop-push_next :
    (b : JitterBuffer) (seq : ℕ) (frame : Audio)
    → 0 < b.max_size
    → b.buffer ≡ []
    → (b.initialised ≡ false) ⊎ (b.next_seq ≡ seq)
    → let (b', out) = pop (push b seq frame) in
      (out ≡ some frame) × (b'.next_seq ≡ seq + 1) × (b'.buffer ≡ []) × (b'.initialised ≡ true)
unfolding pop push lookup insert erase
pop-push_next b seq frame pos e start = ground arith
