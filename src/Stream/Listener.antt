-- ===== src/Stream/Listener.antt =====
-- src/server/mod.rs: the body of a /stream response: the prefix, then what it reads off the broadcast.
use togewire.Prelude.{ℕ, suc, max, List, [], ◌∷◌, ◌++◌, length, drop}
use togewire.Stream.Pipe.{Bytes, Pipe, send, subscribe}

-- The broadcast channel of the library, by its capacity and how much was sent on it: the place of the
-- oldest page that it still holds. A receiver that stands before it is told so and goes on from there.
pub record Channel : Type 0 where
  pub oldest : ℕ → ℕ → ℕ

-- The place of the next page to read, and what the body has given so far.
pub record Listener : Type 0 where
  pub cursor : ℕ
  pub given : List Bytes

unfoldable pub listen : Pipe → Listener
unfolding subscribe
listen p = record { cursor = (subscribe p).0; given = (subscribe p).1 }

-- What is there from a place on: nothing yet, or a page to give.
abbrev pub receive_at : ℕ → List Bytes → Listener → Listener
receive_at at [] l = l
receive_at at (page ∷ later) l = record { cursor = suc at; given = l.given ++ page ∷ [] }

-- One read: a lag is skipped.
unfoldable pub receive : Channel → Pipe → Listener → Listener
receive ch p l =
    let at = max l.cursor (ch.oldest p.backlog (length p.sent)) in receive_at at (drop at p.sent) l

pub data Event : Type 0 where
  sends : Bytes → Event
  reads : Event

-- Sends of the producer and reads of one listener, in their order.
unfoldable pub run : Channel → List Event → Pipe × Listener → Pipe × Listener
unfolding send receive
run ch [] s = s
run ch (sends page ∷ es) (p, l) = run ch es (send page p, l)
run ch (reads ∷ es) (p, l) = run ch es (p, receive ch p l)
