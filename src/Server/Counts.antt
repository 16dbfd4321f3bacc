-- ===== src/Server/Counts.antt =====
-- src/server/mod.rs and src/server/websocket.rs: the counts are those of the open connections.
use togewire.Prelude.{
  ℕ, ◌+◌, ◌≤◌, Bool, true, false, none, List, [], ◌∷◌, ◌++◌, Text, arith, ◌≡◌, ◌≢◌, refl, ap,
  Text-discrete,
}
use togewire.Prelude.Maps.{get}
use togewire.Server.App.{AppState, Peer}
use togewire.Server.Peers.{peer_of, no_peer}
use togewire.Server.Connections.{
  handle_stream, drop_stream, handle_ws, failed_upgrade, open_socket, listening_frame, close_socket,
}
use togewire.Server.Tally.{
  Conn, stream, upgrade, socket, streams_at, sockets_at, listening_at, is_stream, total,
  total-middle,
}
use togewire.Server.Opened.{
  is_open, handle_stream-counts, drop_stream-counts, handle_ws-counts, failed_upgrade-counts,
  open_socket-counts, listening_frame-counts, close_socket-counts, one_listening,
}

pub record World : Type 0 where
  pub app : AppState
  pub conns : List Conn

abbrev pub at : AppState → List Conn → World
at a cs = record { app = a; conns = cs }

-- What the connections do, and what the rest of the program may do between: anything but touch the
-- counts.
pub data Step : World → World → Type 0 where
  stream_opened :
      (now : ℕ) (ip : Text) (a : AppState) (cs : List Conn)
      → is_open (handle_stream now ip a).1 ≡ true
      → Step (at a cs) (at (handle_stream now ip a).0 (stream ip ∷ cs))
  stream_refused :
      (now : ℕ) (ip : Text) (a : AppState) (cs : List Conn)
      → is_open (handle_stream now ip a).1 ≡ false
      → Step (at a cs) (at (handle_stream now ip a).0 cs)
  stream_dropped :
      (now : ℕ) (ip : Text) (a : AppState) (before after : List Conn)
      → Step (at a (before ++ stream ip ∷ after)) (at (drop_stream now ip a) (before ++ after))
  upgrade_begun :
      (ip : Text) (a : AppState) (cs : List Conn)
      → (handle_ws ip a).1 ≡ none
      → Step (at a cs) (at (handle_ws ip a).0 (upgrade ip ∷ cs))
  upgrade_refused :
      (ip : Text) (a : AppState) (cs : List Conn)
      → (handle_ws ip a).1 ≢ none
      → Step (at a cs) (at (handle_ws ip a).0 cs)
  upgrade_failed :
      (ip : Text) (a : AppState) (before after : List Conn)
      → Step (at a (before ++ upgrade ip ∷ after)) (at (failed_upgrade ip a) (before ++ after))
  socket_opened :
      (now : ℕ) (ip : Text) (a : AppState) (before after : List Conn)
      → Step
          (at a (before ++ upgrade ip ∷ after))
          (at (open_socket now a).0 (before ++ socket ip (open_socket now a).1 false ∷ after))
  frame :
      (ip : Text) (id : ℕ) (listening on : Bool) (a : AppState) (before after : List Conn)
      → Step (at a (before ++ socket ip id listening ∷ after)) (
          at
            (listening_frame ip listening on a).0
            (before ++ socket ip id (listening_frame ip listening on a).1 ∷ after))
  socket_closed :
      (ip : Text) (id : ℕ) (listening : Bool) (a : AppState) (before after : List Conn)
      → Step
          (at a (before ++ socket ip id listening ∷ after))
          (at (close_socket ip id listening a) (before ++ after))
  elsewhere :
      (a b : AppState) (cs : List Conn)
      → b.peers ≡ a.peers
      → b.stream_manager.listeners ≡ a.stream_manager.listeners
      → Step (at a cs) (at b cs)

pub data Reachable : World → Type 0 where
  start : (a : AppState) → a.peers ≡ [] → a.stream_manager.listeners ≡ 0 → Reachable (at a [])
  next : {w w' : World} → Reachable w → Step w w' → Reachable w'

-- The counts of one address and the listeners are those of the open connections, within their limits.
abbrev pub CountsAt : Text → World → Type 0
CountsAt q w =
    ((peer_of q w.app.peers).streams ≡ total (streams_at q) w.conns)
    × ((peer_of q w.app.peers).sockets ≡ total (sockets_at q) w.conns)
    × ((peer_of q w.app.peers).listening ≡ total (listening_at q) w.conns)
    × (w.app.stream_manager.listeners ≡ total is_stream w.conns)
    × (total (streams_at q) w.conns ≤ 10)
    × (total (sockets_at q) w.conns ≤ 10)
    × (total is_stream w.conns ≤ 250)

-- A connection that stands anywhere among the others counts as the first.
module _ (q : Text) (before : List Conn) (c : Conn) (after : List Conn) where
  middle :
      (total (streams_at q) (before ++ c ∷ after)
        ≡ streams_at q c + total (streams_at q) (before ++ after))
      × (total (sockets_at q) (before ++ c ∷ after)
          ≡ sockets_at q c + total (sockets_at q) (before ++ after))
      × (total (listening_at q) (before ++ c ∷ after)
          ≡ listening_at q c + total (listening_at q) (before ++ after))
      × (total is_stream (before ++ c ∷ after) ≡ is_stream c + total is_stream (before ++ after))
  middle = (
    total-middle _ before c after,
    total-middle _ before c after,
    total-middle _ before c after,
    total-middle _ before c after,
  )

get_nothing : (q : Text) (m : List (Text × Peer)) → m ≡ [] → peer_of q m ≡ no_peer
unfolding peer_of get
get_nothing q m e = ap (peer_of q) e

listening_at-socket :
    (ip : Text) (id : ℕ) (l : Bool) (q : Text)
    → listening_at q (socket ip id l) ≡ one_listening l ip q
unfolding listening_at
listening_at-socket ip id true q = refl
listening_at-socket ip id false q = refl

Step-CountsAt : (w w' : World) → Step w w' → (q : Text) → CountsAt q w → CountsAt q w'
unfolding total streams_at sockets_at listening_at is_stream
Step-CountsAt w w' (stream_opened now ip a cs e) q h =
    let f = handle_stream-counts now ip a q in
    elim (Text-discrete ip q) [
      | yes e' ↦ let same = ap (λ z. (peer_of z a.peers).streams) e' in ground arith
      | no ne ↦ ground arith
    ]
Step-CountsAt w w' (stream_refused now ip a cs e) q h =
    let f = handle_stream-counts now ip a q in ground arith
Step-CountsAt w w' (stream_dropped now ip a before after) q h =
    let m = middle q before (stream ip) after in
    let f = drop_stream-counts now ip a q in ground arith
Step-CountsAt w w' (upgrade_begun ip a cs e) q h =
    let f = handle_ws-counts ip a q in
    elim (Text-discrete ip q) [
      | yes e' ↦ let same = ap (λ z. (peer_of z a.peers).sockets) e' in ground arith
      | no ne ↦ ground arith
    ]
Step-CountsAt w w' (upgrade_refused ip a cs e) q h = let f = handle_ws-counts ip a q in ground arith
Step-CountsAt w w' (upgrade_failed ip a before after) q h =
    let m = middle q before (upgrade ip) after in
    let f = failed_upgrade-counts ip a q in ground arith
Step-CountsAt w w' (socket_opened now ip a before after) q h =
    let m = middle q before (upgrade ip) after in
    let m' = middle q before (socket ip (open_socket now a).1 false) after in
    let f = open_socket-counts now a q in ground arith
Step-CountsAt w w' (frame ip id listening on a before after) q h =
    let r = listening_frame ip listening on a in
    let m = middle q before (socket ip id listening) after in
    let m' = middle q before (socket ip id r.1) after in
    let l = listening_at-socket ip id listening q in
    let l' = listening_at-socket ip id r.1 q in
    let f = listening_frame-counts ip listening on a q (ground arith) in
    let n = ap (λ z. one_listening z ip q) f.0 in ground arith
Step-CountsAt w w' (socket_closed ip id listening a before after) q h =
    let m = middle q before (socket ip id listening) after in
    let l = listening_at-socket ip id listening q in
    let f = close_socket-counts ip id listening a q (ground arith) in ground arith
Step-CountsAt w w' (elsewhere a b cs e f) q h = ground arith

-- However streams and sockets come and go: the counts of each address are those of its open connections,
-- at most ten streams and ten sockets, and the listeners are all streams, at most 250.
pub Reachable-CountsAt : (w : World) → Reachable w → (q : Text) → CountsAt q w
unfolding total peer_of
Reachable-CountsAt w (start a e f) q = let g = get_nothing q a.peers e in ground arith
Reachable-CountsAt w' (next {w} reached step) q =
    Step-CountsAt w w' step q (Reachable-CountsAt w reached q)
