-- ===== src/Stream/Pipe.antt =====
-- src/server/stream.rs: `Pipe`, one playback generation, and what a new listener is given.
use togewire.Prelude.{
  ℕ, ◌+◌, ◌-◌, ◌*◌, ◌%◌, Bool, false, Option, none, some, List, [], ◌∷◌, ◌++◌, length, ltb,
  if◌then◌else◌,
}
use togewire.Prelude.Words.{u64_modulus}

abbrev pub Bytes : Type 0
Bytes = List ℕ

abbrev pub max_burst_buffer : ℕ
max_burst_buffer = 128 * 1024

-- `Prefix`: what a new listener is given first.
pub record Prefix : Type 0 where
  pub headers : Option Bytes
  pub burst : List Bytes
  pub burst_len : ℕ

-- `sent` is all that went to the broadcast channel so far, oldest first; `backlog` is its capacity,
-- and `shutdown` tells whether the pipe was retired.
pub record Pipe : Type 0 where
  pub prefix : Prefix
  pub sent : List Bytes
  pub backlog : ℕ
  pub shutdown : Bool

unfoldable pub new : ℕ → Pipe
new backlog = record {
  prefix = record { headers = none; burst = []; burst_len = 0 };
  sent = [];
  backlog = backlog;
  shutdown = false;
}

unfoldable pub set_headers : Bytes → Pipe → Pipe
set_headers headers p = record p {
  prefix = record (p.prefix) { headers = some headers };
  sent = p.sent ++ headers ∷ [];
}

-- The `while` loop of `send`; the lengths are a `usize`.
unfoldable pub trim : List Bytes → ℕ → List Bytes × ℕ
trim [] len = ([], len)
trim (old ∷ burst) len =
    let rest = trim burst ((len + u64_modulus - length old) % u64_modulus) in
    if ltb max_burst_buffer len then rest else (old ∷ burst, len)

unfoldable pub send : Bytes → Pipe → Pipe
unfolding trim
send page p =
    let kept =
      trim (p.prefix.burst ++ page ∷ []) ((p.prefix.burst_len + length page) % u64_modulus) in
    record p {
      prefix = record (p.prefix) { burst = kept.0; burst_len = kept.1 };
      sent = p.sent ++ page ∷ [];
    }

abbrev pub headers_then : Option Bytes → List Bytes → List Bytes
headers_then none pages = pages
headers_then (some h) pages = h ∷ pages

-- The prefix, and the place in the broadcast from which the listener receives.
unfoldable pub subscribe : Pipe → ℕ × List Bytes
subscribe p = (length p.sent, headers_then p.prefix.headers p.prefix.burst)

-- A producer's calls, in their order.
unfoldable pub send_all : List Bytes → Pipe → Pipe
unfolding send
send_all [] p = p
send_all (page ∷ pages) p = send_all pages (send page p)
