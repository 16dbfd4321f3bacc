-- ===== src/Server/Peers.antt =====
-- src/server/mod.rs: the connection counts of each address.
use togewire.Prelude.{
  ℕ, ◌+◌, ◌-◌, Bool, true, false, ◌&&◌, none, some, List, [], Text, Text-discrete, if◌then◌else◌,
  ltb, ◌==◌, arith, ◌≡◌, ◌≢◌,
}
use togewire.Prelude.Maps.{
  get, insert, remove, get-insert_self, get-insert_ne, get-remove_self, get-remove_ne,
}
use togewire.Server.App.{Peer}

abbrev pub max_connections_per_ip : ℕ
max_connections_per_ip = 10

-- `Peer::default()`
abbrev pub no_peer : Peer
no_peer = record { streams = 0; sockets = 0; listening = 0; last_track = [] }

-- `entry(ip).or_default()`
unfoldable pub peer_of : Text → List (Text × Peer) → Peer
peer_of ip m = elim (get Text-discrete ip m) [ none ↦ no_peer | some p ↦ p ]

unfoldable pub is_unused : Peer → Bool
is_unused p = p.streams == 0 && p.sockets == 0 && p.listening == 0

-- `with_peer`, for a closure that only changes the peer.
unfoldable pub with_peer : Text → (Peer → Peer) → List (Text × Peer) → List (Text × Peer)
unfolding is_unused
with_peer ip f m =
    let p = f (peer_of ip m) in
    if is_unused p then remove Text-discrete ip m else insert Text-discrete ip p m

-- The count after, and whether a slot was free.
unfoldable pub take_slot : ℕ → ℕ × Bool
take_slot count = if ltb count max_connections_per_ip then (count + 1, true) else (count, false)

-- `set_listening`
unfoldable pub set_listening : Bool → Peer → Peer
set_listening true p = record p { listening = p.listening + 1 }
set_listening false p = if ltb 0 p.listening then record p { listening = p.listening - 1 } else p

-- The three counts of an address.
abbrev pub SameCounts : Peer → Peer → Type 0
SameCounts p q = (p.streams ≡ q.streams) × (p.sockets ≡ q.sockets) × (p.listening ≡ q.listening)

-- Dropping an unused entry loses no count.
pub peer_of-with_peer_self :
    (ip : Text) (f : Peer → Peer) (m : List (Text × Peer))
    → SameCounts (peer_of ip (with_peer ip f m)) (f (peer_of ip m))
unfolding peer_of with_peer
peer_of-with_peer_self ip f m =
    let kept = get-insert_self Text-discrete ip (f (peer_of ip m)) m in
    let gone = get-remove_self Text-discrete ip m in ground arith

pub peer_of-with_peer_ne :
    (ip q : Text) (f : Peer → Peer) (m : List (Text × Peer))
    → ip ≢ q
    → peer_of q (with_peer ip f m) ≡ peer_of q m
unfolding peer_of with_peer
peer_of-with_peer_ne ip q f m ne =
    let kept = get-insert_ne Text-discrete ip q (f (peer_of ip m)) m ne in
    let gone = get-remove_ne Text-discrete ip q m ne in ground arith
