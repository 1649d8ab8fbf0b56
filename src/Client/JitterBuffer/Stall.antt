-- ===== src/Client/JitterBuffer/Stall.antt =====
-- A late packet that is stored behind the head blocks the buffer: the head then never skips a
-- packet that is lost.
use chat_terminal.Common.{
  ℕ, ◌≤◌, ◌<◌, ◌≡◌, ◌≢◌, refl, true, none, some, List, [], ◌∷◌, arith, nat_eq, Option-cases, inl,
  inr,
}
use chat_terminal.Common.Dict.{Dict, lookup, insert, insert_cases}
use chat_terminal.Client.JitterBuffer.{
  JitterBuffer, Audio, push, pop, advance_to_earliest, earliest,
}
use chat_terminal.Client.JitterBuffer.Order.{Op, pushes, pops, delivered}

none_of_earliest : (d : Dict ℕ Audio) (k : ℕ) → earliest d ≡ none → lookup k d ≡ none
unfolding lookup earliest
none_of_earliest [] k e = refl
none_of_earliest ((j, v) ∷ d) k e = ground arith

earliest_le :
    (d : Dict ℕ Audio) (k m : ℕ) (f : Audio) → lookup k d ≡ some f → earliest d ≡ some m → m ≤ k
unfolding lookup earliest
earliest_le [] k m f h e = cc
earliest_le ((j, v) ∷ d) k m f h e = elim (Option-cases (earliest d)) [
  | inl none_left ↦ ground (arith, none_of_earliest d k none_left)
  | inr (n, some_left) ↦ ground (arith, earliest_le d k n f)
]

-- The head is missing, and a packet behind it is stored.
pub record IsStalled (late : ℕ) (f : Audio) (b : JitterBuffer) : Type 0 where
  pub on : b.initialised ≡ true
  pub popping : b.popped ≡ true
  pub missing : lookup b.next_seq b.buffer ≡ none
  pub stored : lookup late b.buffer ≡ some f
  pub behind : late < b.next_seq

module _ (late : ℕ) (f : Audio) where
  advance_stalled :
      (b : JitterBuffer)
      → lookup late b.buffer ≡ some f
      → late < b.next_seq
      → advance_to_earliest b ≡ b
  unfolding advance_to_earliest
  advance_stalled b s l = elim (Option-cases (earliest b.buffer)) [
    | inl e ↦ rw (e, advance_to_earliest)
    | inr (m, e) ↦ ground (arith, earliest_le b.buffer late m f s e)
  ]

  pop_stalled : (b : JitterBuffer) → IsStalled late f b → pop b ≡ (b, none)
  unfolding pop
  pop_stalled b h = ground (arith, advance_stalled b h.stored h.behind)

  push-IsStalled :
      (b : JitterBuffer) (seq : ℕ) (frame : Audio)
      → seq ≢ b.next_seq
      → IsStalled late f b
      → IsStalled late f (push b seq frame) × ((push b seq frame).next_seq ≡ b.next_seq)
  unfolding push
  push-IsStalled b seq frame ne h = ground (
    arith,
    insert_cases seq late frame b.buffer,
    insert_cases seq b.next_seq frame b.buffer,
    advance_stalled (record b { buffer = insert seq frame b.buffer }),
  )

  -- No push brings the packet `seq`.
  abbrev pub Without : ℕ → List Op → Type 0
  Without seq [] = Unit
  Without seq (pushes n _ ∷ ops) = (n ≢ seq) × Without seq ops
  Without seq (pops ∷ ops) = Without seq ops

  -- If a packet is stored behind the head and the head's own packet is lost, the buffer returns
  -- nothing more, whatever arrives: the head does not skip to the earliest packet present.
  pub stalled_forever :
      (b : JitterBuffer) (ops : List Op)
      → IsStalled late f b
      → Without b.next_seq ops
      → delivered b ops ≡ []
  unfolding delivered
  stalled_forever b [] h a = refl
  stalled_forever b (pushes seq frame ∷ ops) h (ne, a) =
      let (h', e) = push-IsStalled b seq frame ne h in
      stalled_forever (push b seq frame) ops h' (rw e a)
  stalled_forever b (pops ∷ ops) h a = ground (arith, pop_stalled b h, stalled_forever b ops h a)
