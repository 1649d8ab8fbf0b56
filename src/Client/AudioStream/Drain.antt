-- ===== src/Client/AudioStream/Drain.antt =====
-- The receive loop of client/audio/stream.py comes back from every payload.
use chat_terminal.Common.{
  ℕ, zero, suc, ◌<◌, ◌≡◌, ◌⊎◌, refl, ap, ◌∙◌, subst, Option, none, some, List, [], ◌∷◌, ◌++◌, arith,
  nat_eq, length, Option-cases, inl, inr,
}
use chat_terminal.Common.Dict.{length-erase}
use chat_terminal.Client.FileCrypto.{Bytes, Aead}
use chat_terminal.Client.AudioCodec
use chat_terminal.Client.AudioCodec.{AudioCodec}
use chat_terminal.Client.JitterBuffer
use chat_terminal.Client.JitterBuffer.{JitterBuffer}
use chat_terminal.Client.JitterBuffer.Order.{Popped, pop-Popped}
use chat_terminal.Client.AudioStream.{AudioStream, drain, read_payload, recv_payload}

-- A pop that yields a frame makes the buffer shorter.
pop_shorter :
    (b b' : JitterBuffer) (frame : Bytes)
    → JitterBuffer.pop b ≡ (b', some frame)
    → length b'.buffer < length b.buffer
unfolding Popped
pop_shorter b b' frame e =
    let (_, found, _, _, _, rest) = subst (Popped b) e (pop-Popped b) in
    rw rest (length-erase (JitterBuffer.unblock b).next_seq b.buffer frame found)

Pop-cases :
    (r : JitterBuffer × Option Bytes)
    → (r ≡ (r.0, none)) ⊎ ((b : JitterBuffer) × (frame : Bytes) × (r ≡ (b, some frame)))
Pop-cases (b, none) = inl refl
Pop-cases (b, some frame) = inr (b, frame, refl)

module _ (codec : AudioCodec) (fuel : ℕ) (played : List Bytes) where
  after_pop : JitterBuffer × Option Bytes → Option (JitterBuffer × List Bytes)
  after_pop (b, none) = some (b, played)
  after_pop (b, some frame) = drain codec fuel b (played ++ AudioCodec.decode codec frame ∷ [])

  drain_step : (b : JitterBuffer) → drain codec (suc fuel) b played ≡ after_pop (JitterBuffer.pop b)
  unfolding drain after_pop
  drain_step b = elim (Pop-cases (JitterBuffer.pop b)) [
    | inl e ↦ ground (arith, e)
    | inr (b', frame, e) ↦ ground (arith, e)
  ]

drain_enough :
    (codec : AudioCodec) (fuel : ℕ) (b : JitterBuffer) (played : List Bytes)
    → length b.buffer < fuel
    → (b' : JitterBuffer) × (out : List Bytes) × (drain codec fuel b played ≡ some (b', out))
unfolding after_pop
drain_enough codec zero b played h = absurd (omega (arith, h))
drain_enough codec (suc fuel) b played h = elim (Pop-cases (JitterBuffer.pop b)) [
  | inl e ↦ (
    (JitterBuffer.pop b).0,
    played,
    drain_step codec fuel played b ∙ ap (after_pop codec fuel played) e,
  )
  | inr (b', frame, e) ↦
      let (b'', out, d) =
        drain_enough codec fuel b' (played ++ AudioCodec.decode codec frame ∷ [])
          (omega (arith, h, pop_shorter b b' frame e)) in
      (b'', out, drain_step codec fuel played b ∙ ap (after_pop codec fuel played) e ∙ d)
]

-- A payload, whatever it is, is handled in finitely many rounds: the loop that plays the frames runs out of
-- frames before it runs out of fuel.
pub recv_payload_total :
    (aead : Aead) (s : AudioStream) (payload : Bytes)
    → (s' : AudioStream) × (recv_payload aead s payload ≡ some s')
unfolding recv_payload
recv_payload_total aead s payload = elim (Option-cases (read_payload aead s.call_key payload)) [
  | inl e ↦ rw (e, recv_payload) (s, refl)
  | inr ((seq, encoded), e) ↦
      let jitter = JitterBuffer.push s.jitter seq encoded in
      let (b', out, d) =
        drain_enough s.codec (suc (length jitter.buffer)) jitter s.played (omega arith) in
      rw (e, recv_payload, d) (record s { jitter = b'; played = out }, refl)
]
