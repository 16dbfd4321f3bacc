-- ===== src/Server/Tally.antt =====
-- src/server/mod.rs and src/server/websocket.rs: the counts against the connections that are open.
use togewire.Prelude.{
  ℕ, ◌+◌, ◌<◌, Bool, true, false, Option, none, some, List, [], ◌∷◌, ◌++◌, Text, Text-discrete,
  arith, ◌≡◌, ◌≢◌, refl, subst, ◌⊎◌, inl, inr, Option-cases, if◌then◌else◌, ◌=?◌,
}
use togewire.Types.{SpotifyState}
use togewire.Server.App.{
  AppState, Peer, rebroadcast, broadcast_track_update, track_update_message, has_failed,
}
use togewire.Server.Peers.{
  peer_of, with_peer, take_slot, SameCounts, peer_of-with_peer_self, peer_of-with_peer_ne,
}
use togewire.Server.Connections.{at_peer, take_stream, take_socket, note_track}

-- What is open: a stream, an upgrade that is pending, or a socket with its id and its `listening` flag.
pub data Conn : Type 0 where
  stream upgrade : Text → Conn
  socket : Text → ℕ → Bool → Conn

abbrev pub one_if : Text → Text → ℕ
one_if ip q = elim (Text-discrete ip q) [ yes _ ↦ 1 | no _ ↦ 0 ]

unfoldable pub streams_at : Text → Conn → ℕ
streams_at q (stream ip) = one_if ip q
streams_at q _ = 0

unfoldable pub sockets_at : Text → Conn → ℕ
sockets_at q (upgrade ip) = one_if ip q
sockets_at q (socket ip id l) = one_if ip q
sockets_at q _ = 0

unfoldable pub listening_at : Text → Conn → ℕ
listening_at q (socket ip id true) = one_if ip q
listening_at q _ = 0

unfoldable pub is_stream : Conn → ℕ
is_stream (stream ip) = 1
is_stream _ = 0

unfoldable pub total : (Conn → ℕ) → List Conn → ℕ
total f [] = 0
total f (c ∷ cs) = f c + total f cs

pub total-middle :
    (f : Conn → ℕ) (before : List Conn) (c : Conn) (after : List Conn)
    → total f (before ++ c ∷ after) ≡ f c + total f (before ++ after)
unfolding total
total-middle f [] c after = refl
total-middle f (b ∷ before) c after = let ih = total-middle f before c after in omega arith

pub has_failed-peers :
    (now : ℕ) (t : Option togewire.Types.Track) (a : AppState)
    → ((has_failed now t a).0.peers ≡ a.peers)
      × ((has_failed now t a).0.stream_manager ≡ a.stream_manager)
unfolding has_failed
has_failed-peers now none a = (refl, refl)
has_failed-peers now (some t) a = (refl, refl)

pub rebroadcast-peers :
    (now : ℕ) (a : AppState)
    → ((rebroadcast now a).peers ≡ a.peers)
      × ((rebroadcast now a).stream_manager ≡ a.stream_manager)
unfolding rebroadcast broadcast_track_update track_update_message
rebroadcast-peers now a = elim (Option-cases a.current) [
  | inl e ↦ ground arith
  | inr (s, e) ↦ let f = has_failed-peers now s.track a in ground arith
]

pub with_peer-counts :
    (ip : Text) (f : Peer → Peer) (m : List (Text × Peer)) (q : Text)
    → ((ip ≡ q) × SameCounts (peer_of q (with_peer ip f m)) (f (peer_of q m)))
      ⊎ ((ip ≢ q) × (peer_of q (with_peer ip f m) ≡ peer_of q m))
with_peer-counts ip f m q = elim (Text-discrete ip q) [
  | yes e ↦ inl (
    e,
    subst (λ z. SameCounts (peer_of z (with_peer ip f m)) (f (peer_of z m))) e
        (peer_of-with_peer_self ip f m),
  )
  | no ne ↦ inr (ne, peer_of-with_peer_ne ip q f m ne)
]

pub note_track-counts :
    (ip : Text) (a : AppState) (q : Text)
    → SameCounts (peer_of q (note_track ip a).peers) (peer_of q a.peers)
      × ((note_track ip a).stream_manager ≡ a.stream_manager)
unfolding note_track at_peer
note_track-counts ip a q = elim (Option-cases a.current) [
  | inl e ↦ ground arith
  | inr (s, e) ↦ elim (Option-cases s.track) [
    | inl e' ↦ ground arith
    | inr (t, e') ↦
        let f =
          with_peer-counts ip
            (λ p. if p.last_track =? t.id then p else record p { last_track = t.id }) a.peers q in
        ground arith
  ]
]

pub take_stream-adds :
    (ip : Text) (a : AppState) (q : Text)
    → let r = take_stream ip a in
      (r.0.stream_manager ≡ a.stream_manager)
      × (((r.1 ≡ true)
            × ((peer_of ip a.peers).streams < 10)
            × ((peer_of q r.0.peers).streams ≡ (peer_of q a.peers).streams + one_if ip q))
          ⊎ ((r.1 ≡ false) × ((peer_of q r.0.peers).streams ≡ (peer_of q a.peers).streams)))
      × ((peer_of q r.0.peers).sockets ≡ (peer_of q a.peers).sockets)
      × ((peer_of q r.0.peers).listening ≡ (peer_of q a.peers).listening)
unfolding take_stream at_peer take_slot
take_stream-adds ip a q =
    let n = (take_slot (peer_of ip a.peers).streams).0 in
    let f = with_peer-counts ip (λ p. record p { streams = n }) a.peers q in ground arith

pub take_socket-adds :
    (ip : Text) (a : AppState) (q : Text)
    → let r = take_socket ip a in
      (r.0.stream_manager ≡ a.stream_manager)
      × (((r.1 ≡ true)
            × ((peer_of ip a.peers).sockets < 10)
            × ((peer_of q r.0.peers).sockets ≡ (peer_of q a.peers).sockets + one_if ip q))
          ⊎ ((r.1 ≡ false) × ((peer_of q r.0.peers).sockets ≡ (peer_of q a.peers).sockets)))
      × ((peer_of q r.0.peers).streams ≡ (peer_of q a.peers).streams)
      × ((peer_of q r.0.peers).listening ≡ (peer_of q a.peers).listening)
unfolding take_socket at_peer take_slot
take_socket-adds ip a q =
    let n = (take_slot (peer_of ip a.peers).sockets).0 in
    let f = with_peer-counts ip (λ p. record p { sockets = n }) a.peers q in ground arith
