-- ===== src/Client/Connection.antt =====
-- client/connection/ws_client.py and client/connection/reconnect.py: the queue of packets to be sent, the
-- task that empties it, and the loop that connects again. A packet is a value of any type.
pub mod Order
mod Tests
use chat_terminal.Common.{
  ℕ, zero, suc, ◌+◌, min, Bool, true, false, ◌&&◌, Option, none, some, List, [], ◌∷◌, ◌++◌,
  if◌then◌else◌,
}

-- `RECONNECT_DELAYS[min(attempt, len(RECONNECT_DELAYS) - 1)]`, the table of client/config.py
abbrev pub nth_delay : ℕ → List ℕ → ℕ → ℕ
nth_delay last [] n = last
nth_delay last (d ∷ ds) zero = d
nth_delay last (d ∷ ds) (suc n) = nth_delay d ds n

abbrev pub reconnect_delays : List ℕ
reconnect_delays = 2 ∷ 4 ∷ 8 ∷ 16 ∷ 32 ∷ 60 ∷ []

unfoldable pub backoff_delay : ℕ → ℕ
backoff_delay attempt = nth_delay 60 reconnect_delays (min attempt 5)

-- The attributes of `WSClient`, and what has gone out over its connections, oldest first
pub record Client (A : Type 0) : Type 0 where
  pub send_q : List A
  pub connected : Bool
  pub running : Bool
  pub attempt : ℕ
  pub delay_idx : ℕ
  pub wire : List A

module _ {A : Type 0} where
  -- `send`
  unfoldable pub send : A → Client A → Client A
  send packet c = record c { send_q = c.send_q ++ packet ∷ [] }

  -- What the sender does with a packet that it has taken: `arrives` tells whether `ws.send` returns.
  -- Without a connection, and where it raises, the packet is gone.
  unfoldable pub transmit : Bool → A → Client A → Client A
  transmit arrives packet c = record c {
    wire = if c.connected && arrives then c.wire ++ packet ∷ [] else c.wire;
  }

  -- One turn of `_sender` with this queue: it waits while there is nothing in it.
  unfoldable pub turn_of : Bool → List A → Client A → Client A
  unfolding transmit
  turn_of arrives [] c = record c { send_q = [] }
  turn_of arrives (packet ∷ rest) c = transmit arrives packet (record c { send_q = rest })

  unfoldable pub sender_turn : Bool → Client A → Client A
  unfolding turn_of
  sender_turn arrives c = turn_of arrives c.send_q c

  -- A connection is made, and is lost.
  unfoldable pub opened : Client A → Client A
  opened c = record c { connected = true; attempt = 0; delay_idx = 0 }

  unfoldable pub closed : Client A → Client A
  closed c = record c { connected = false }

  -- The end of a turn of `connect`: how long it sleeps, unless it has been stopped
  unfoldable pub back_off : Client A → Option ℕ × Client A
  unfolding backoff_delay
  back_off c = (
    if c.running then some (backoff_delay c.delay_idx) else none,
    record c {
      attempt = if c.running then c.attempt + 1 else c.attempt;
      delay_idx = if c.running then c.delay_idx + 1 else c.delay_idx;
    },
  )

  unfoldable pub stop : Client A → Client A
  stop c = record c { running = false }
