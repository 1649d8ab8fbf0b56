-- ===== src/Client/JitterBuffer.antt =====
-- client/audio/jitter_buffer.py. Sequence numbers are those of the packets, natural numbers; a
-- comparison with a difference is written without the subtraction, which may be negative in Python.
pub mod Order
pub mod Stall
mod Tests
use chat_terminal.Common.{
  ℕ, suc, ◌+◌, ◌*◌, min, Bool, true, false, not, ◌&&◌, ◌||◌, Option, none, some, List, [], ◌∷◌,
  nat_eq, ltb, leb, length, if◌then◌else◌,
}
use chat_terminal.Common.Dict.{Dict, lookup, insert, erase, contains}

-- A frame of encoded audio.
abbrev pub Audio : Type 0
Audio = List ℕ

pub record JitterBuffer : Type 0 where
  pub max_size : ℕ
  pub buffer : Dict ℕ Audio
  pub next_seq : ℕ
  pub initialised : Bool
  pub popped : Bool

-- `__init__`; `none` stands for the ValueError.
unfoldable pub init : ℕ → Option JitterBuffer
init size =
    if ltb size 1
    then none
    else some
        (record { max_size = size; buffer = []; next_seq = 0; initialised = false; popped = false })

-- `min(self._buffer.keys())`, if there are keys
unfoldable pub earliest : Dict ℕ Audio → Option ℕ
earliest [] = none
earliest ((k, _) ∷ d) = elim (earliest d) [ none ↦ some k | some m ↦ some (min k m) ]

unfoldable pub advance_to_earliest : JitterBuffer → JitterBuffer
unfolding earliest
advance_to_earliest b = elim (earliest b.buffer) [
  | none ↦ b
  | some first ↦ if ltb b.next_seq first then record b { next_seq = first } else b
]

-- The first part of `push`: where the stream starts
unfoldable pub anchor : JitterBuffer → ℕ → JitterBuffer
anchor b seq =
    if not b.initialised
    then record b { next_seq = seq; initialised = true }
    else if not b.popped && ltb seq b.next_seq
    then record b { next_seq = seq }
    else b

-- The rest of `push`
unfoldable pub store : JitterBuffer → ℕ → Audio → JitterBuffer
unfolding advance_to_earliest
store b seq frame =
    if ltb (seq + 2 * b.max_size) b.next_seq
    then b
    else if contains seq b.buffer
    then b
    else (let b' = record b { buffer = insert seq frame b.buffer } in
        if ltb b'.max_size (length b'.buffer) then advance_to_earliest b' else b')

unfoldable pub push : JitterBuffer → ℕ → Audio → JitterBuffer
unfolding anchor store
push b seq frame = store (anchor b seq) seq frame

-- The first part of `pop`: a full buffer whose next packet is missing moves its head.
unfoldable pub unblock : JitterBuffer → JitterBuffer
unfolding advance_to_earliest
unblock b =
    if leb b.max_size (length b.buffer) && not (contains b.next_seq b.buffer)
    then advance_to_earliest b
    else b

unfoldable pub take_next : JitterBuffer → JitterBuffer × Option Audio
take_next b = elim (lookup b.next_seq b.buffer) [
  | none ↦ (b, none)
  | some frame ↦ (
    record b { buffer = erase b.next_seq b.buffer; next_seq = b.next_seq + 1; popped = true },
    some frame,
  )
]

unfoldable pub pop : JitterBuffer → JitterBuffer × Option Audio
unfolding unblock take_next
pop b = if not b.initialised then (b, none) else take_next (unblock b)

unfoldable pub reset : JitterBuffer → JitterBuffer
reset b = record b { buffer = []; next_seq = 0; initialised = false; popped = false }

-- `size`
abbrev size : JitterBuffer → ℕ
size b = length b.buffer
