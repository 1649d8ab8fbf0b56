-- ===== src/Client/Connection/Order.antt =====
-- client/connection/ws_client.py: the order of packets on the wire, however the tasks take turns.
use chat_terminal.Common.{
  Bool, true, false, ◌&&◌, if◌then◌else◌, List, [], ◌∷◌, ◌++◌, ◌≡◌, sym, subst, append_assoc,
}
use chat_terminal.Client.Connection.{
  Client, send, turn_of, sender_turn, opened, closed, back_off, stop,
}

-- A list that leaves out some of another
pub data Subsequence {A : Type 0} : List A → List A → Type 0 where
  done : Subsequence [] []
  keep : {xs ys : List A} (x : A) → Subsequence xs ys → Subsequence (x ∷ xs) (x ∷ ys)
  leave_out : {xs ys : List A} (y : A) → Subsequence xs ys → Subsequence xs (y ∷ ys)

-- What the tasks of a client do, one after the other, and the packets that they are given to send
pub data Run {A : Type 0} (start : Client A) : Client A → List A → Type 0 where
  begin : Run start start []
  sends :
      {c : Client A} {given : List A} (p : A)
      → Run start c given
      → Run start (send p c) (given ++ p ∷ [])
  turns :
      {c : Client A} {given : List A} (arrives : Bool)
      → Run start c given
      → Run start (sender_turn arrives c) given
  opens : {c : Client A} {given : List A} → Run start c given → Run start (opened c) given
  closes : {c : Client A} {given : List A} → Run start c given → Run start (closed c) given
  sleeps : {c : Client A} {given : List A} → Run start c given → Run start (back_off c).1 given
  stops : {c : Client A} {given : List A} → Run start c given → Run start (stop c) given

module _ {A : Type 0} where
  whole : (xs : List A) → Subsequence xs xs
  whole [] = done
  whole (x ∷ xs) = keep x (whole xs)

  both : {xs ys : List A} (zs : List A) → Subsequence xs ys → Subsequence (xs ++ zs) (ys ++ zs)
  both zs done = whole zs
  both zs (keep x s) = keep x (both zs s)
  both zs (leave_out y s) = leave_out y (both zs s)

  trans :
      {ys zs : List A} → Subsequence ys zs → {xs : List A} → Subsequence xs ys → Subsequence xs zs
  trans done r = r
  trans (keep x s) (keep _ r) = keep x (trans s r)
  trans (keep x s) (leave_out _ r) = leave_out x (trans s r)
  trans (leave_out y s) r = leave_out y (trans s r)

  -- Without one in the middle
  without : (xs : List A) (y : A) (zs : List A) → Subsequence (xs ++ zs) (xs ++ y ∷ zs)
  without [] y zs = leave_out y (whole zs)
  without (x ∷ xs) y zs = keep x (without xs y zs)

  -- What has gone out and what waits, in this order
  abbrev pub ahead : Client A → List A
  ahead c = c.wire ++ c.send_q

  appended :
      (p : A) (c : Client A) (given : List A)
      → Subsequence (ahead c) given
      → Subsequence (c.wire ++ (c.send_q ++ p ∷ [])) (given ++ p ∷ [])
  appended p c given s =
      subst (λ l. Subsequence l (given ++ p ∷ [])) (append_assoc c.wire c.send_q (p ∷ []))
        (both (p ∷ []) s)

  -- A packet that has been taken goes to the end of the wire, or is gone.
  taken :
      (goes : Bool) (wire : List A) (p : A) (rest : List A)
      → Subsequence ((if goes then wire ++ p ∷ [] else wire) ++ rest) (wire ++ p ∷ rest)
  taken true wire p rest =
      subst (λ l. Subsequence l (wire ++ p ∷ rest)) (sym (append_assoc wire (p ∷ []) rest))
        (whole (wire ++ p ∷ rest))
  taken false wire p rest = without wire p rest

  turn_lem :
      (arrives : Bool) (q : List A) (c : Client A)
      → Subsequence (ahead (turn_of arrives q c)) (c.wire ++ q)
  unfolding turn_of
  turn_lem arrives [] c = whole (c.wire ++ [])
  turn_lem arrives (p ∷ rest) c = taken (c.connected && arrives) c.wire p rest

-- Whatever turns the tasks take, connections that are lost and sends that fail included: what has gone
-- out over the wire, followed by what still waits, is a subsequence of the packets that were given to be
-- sent. No packet goes out twice, none overtakes another, and none goes out that was not given.
pub run-Subsequence :
    {A : Type 0} {start c : Client A} {given : List A}
    → start.send_q ≡ []
    → start.wire ≡ []
    → Run start c given
    → Subsequence (c.wire ++ c.send_q) given
unfolding send sender_turn opened closed back_off stop
run-Subsequence no_queue no_wire begin = rw (no_queue, no_wire) done
run-Subsequence no_queue no_wire (sends {c = c} {given = given} p r) =
    appended p c given (run-Subsequence no_queue no_wire r)
run-Subsequence no_queue no_wire (turns {c = c} arrives r) =
    trans (run-Subsequence no_queue no_wire r) (turn_lem arrives c.send_q c)
run-Subsequence no_queue no_wire (opens r) = run-Subsequence no_queue no_wire r
run-Subsequence no_queue no_wire (closes r) = run-Subsequence no_queue no_wire r
run-Subsequence no_queue no_wire (sleeps r) = run-Subsequence no_queue no_wire r
run-Subsequence no_queue no_wire (stops r) = run-Subsequence no_queue no_wire r
