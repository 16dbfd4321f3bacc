-- ===== src/Server/Opened.antt =====
-- src/server/mod.rs and src/server/websocket.rs: what each handler does to the counts.
use togewire.Prelude.{
  ℕ, ◌+◌, ◌-◌, ◌≤◌, ◌<◌, ◌%◌, Bool, true, false, none, List, Text, arith, ◌≡◌, ◌≢◌, ◌⊎◌, inl, inr,
  Option-cases,
}
use togewire.Prelude.Words.{u64_modulus}
use togewire.Stream.Pipe.{Bytes}
use togewire.Stream.Manager.{add_client, remove_client}
use togewire.Server.App.{AppState, rebroadcast, track_update_message}
use togewire.Server.Peers.{peer_of, with_peer, set_listening, SameCounts}
use togewire.Server.Connections.{
  Refusal, at_peer, take_stream, handle_stream, drop_stream, handle_ws, failed_upgrade, snapshot,
  open_socket, listening_frame, close_socket, max_total_stream_listeners,
}
use togewire.Server.Tally.{
  one_if, with_peer-counts, take_stream-adds, take_socket-adds, note_track-counts,
  rebroadcast-peers, has_failed-peers,
}

unfoldable pub is_open : Refusal ⊎ (ℕ × List Bytes) → Bool
is_open (inl _) = false
is_open (inr _) = true

-- The counts of an address, and the listeners of the stream.
abbrev pub Unchanged : AppState → AppState → Text → Type 0
Unchanged a b q =
    SameCounts (peer_of q b.peers) (peer_of q a.peers)
    × (b.stream_manager.listeners ≡ a.stream_manager.listeners)

pub handle_stream-counts :
    (now : ℕ) (ip : Text) (a : AppState) (q : Text)
    → let r = handle_stream now ip a in
      ((is_open r.1 ≡ true)
        × ((peer_of ip a.peers).streams < 10)
        × (a.stream_manager.listeners < 250)
        × ((peer_of q r.0.peers).streams ≡ (peer_of q a.peers).streams + one_if ip q)
        × ((peer_of q r.0.peers).sockets ≡ (peer_of q a.peers).sockets)
        × ((peer_of q r.0.peers).listening ≡ (peer_of q a.peers).listening)
        × (r.0.stream_manager.listeners ≡ a.stream_manager.listeners + 1))
      ⊎ ((is_open r.1 ≡ false) × Unchanged a r.0 q)
unfolding handle_stream is_open add_client at_peer
handle_stream-counts now ip a q =
    let taken = take_stream-adds ip a q in
    let slot = take_stream ip a in
    let client = add_client max_total_stream_listeners slot.0.stream_manager in
    let b = record (slot.0) { stream_manager = client.0 } in
    let sent = rebroadcast-peers now b in
    let noted = note_track-counts ip (rebroadcast now b) q in
    let undone = with_peer-counts ip (λ p. record p { streams = p.streams - 1 }) b.peers q in
    ground arith

pub drop_stream-counts :
    (now : ℕ) (ip : Text) (a : AppState) (q : Text)
    → let b = drop_stream now ip a in
      ((peer_of q b.peers).streams ≡ (peer_of q a.peers).streams - one_if ip q)
      × ((peer_of q b.peers).sockets ≡ (peer_of q a.peers).sockets)
      × ((peer_of q b.peers).listening ≡ (peer_of q a.peers).listening)
      × (b.stream_manager.listeners ≡ a.stream_manager.listeners - 1)
unfolding drop_stream at_peer remove_client
drop_stream-counts now ip a q =
    let b =
      at_peer ip (λ p. record p { streams = p.streams - 1 })
        (record a { stream_manager = remove_client a.stream_manager }) in
    let sent = rebroadcast-peers now b in
    let done = with_peer-counts ip (λ p. record p { streams = p.streams - 1 }) a.peers q in
    ground arith

pub handle_ws-counts :
    (ip : Text) (a : AppState) (q : Text)
    → let r = handle_ws ip a in
      ((r.1 ≡ none)
        × ((peer_of ip a.peers).sockets < 10)
        × (a.process.config.player_enabled ≡ true)
        × ((peer_of q r.0.peers).sockets ≡ (peer_of q a.peers).sockets + one_if ip q)
        × ((peer_of q r.0.peers).streams ≡ (peer_of q a.peers).streams)
        × ((peer_of q r.0.peers).listening ≡ (peer_of q a.peers).listening)
        × (r.0.stream_manager.listeners ≡ a.stream_manager.listeners))
      ⊎ ((r.1 ≢ none) × Unchanged a r.0 q)
unfolding handle_ws
handle_ws-counts ip a q = let taken = take_socket-adds ip a q in ground arith

pub failed_upgrade-counts :
    (ip : Text) (a : AppState) (q : Text)
    → let b = failed_upgrade ip a in
      ((peer_of q b.peers).sockets ≡ (peer_of q a.peers).sockets - one_if ip q)
      × ((peer_of q b.peers).streams ≡ (peer_of q a.peers).streams)
      × ((peer_of q b.peers).listening ≡ (peer_of q a.peers).listening)
      × (b.stream_manager.listeners ≡ a.stream_manager.listeners)
unfolding failed_upgrade at_peer
failed_upgrade-counts ip a q =
    let done = with_peer-counts ip (λ p. record p { sockets = p.sockets - 1 }) a.peers q in
    ground arith

pub open_socket-counts : (now : ℕ) (a : AppState) (q : Text) → Unchanged a (open_socket now a).0 q
unfolding open_socket snapshot track_update_message
open_socket-counts now a q =
    let b = record a { next_id = (a.next_id + 1) % u64_modulus } in
    elim (Option-cases a.current) [
      | inl e ↦ ground arith
      | inr (s, e) ↦ let f = has_failed-peers now s.track b in ground arith
    ]

abbrev pub one_listening : Bool → Text → Text → ℕ
one_listening true ip q = one_if ip q
one_listening false ip q = 0

pub listening_frame-counts :
    (ip : Text) (listening on : Bool) (a : AppState) (q : Text)
    → one_listening listening ip q ≤ (peer_of q a.peers).listening
    → let r = listening_frame ip listening on a in
      (r.1 ≡ on)
      × ((peer_of q r.0.peers).listening
          ≡ (peer_of q a.peers).listening - one_listening listening ip q + one_listening on ip q)
      × ((peer_of q r.0.peers).streams ≡ (peer_of q a.peers).streams)
      × ((peer_of q r.0.peers).sockets ≡ (peer_of q a.peers).sockets)
      × (r.0.stream_manager.listeners ≡ a.stream_manager.listeners)
unfolding listening_frame at_peer set_listening
listening_frame-counts ip false false a q h = ground arith
listening_frame-counts ip true true a q h = ground arith
listening_frame-counts ip false true a q h =
    let f = with_peer-counts ip (set_listening true) a.peers q in ground arith
listening_frame-counts ip true false a q h =
    let f = with_peer-counts ip (set_listening false) a.peers q in ground arith

pub close_socket-counts :
    (ip : Text) (id : ℕ) (listening : Bool) (a : AppState) (q : Text)
    → one_listening listening ip q ≤ (peer_of q a.peers).listening
    → let b = close_socket ip id listening a in
      ((peer_of q b.peers).listening ≡ (peer_of q a.peers).listening - one_listening listening ip q)
      × ((peer_of q b.peers).streams ≡ (peer_of q a.peers).streams)
      × ((peer_of q b.peers).sockets ≡ (peer_of q a.peers).sockets - one_if ip q)
      × (b.stream_manager.listeners ≡ a.stream_manager.listeners)
unfolding close_socket at_peer set_listening
close_socket-counts ip id false a q h =
    let done = with_peer-counts ip (λ p. record p { sockets = p.sockets - 1 }) a.peers q in
    ground arith
close_socket-counts ip id true a q h =
    let f = with_peer-counts ip (set_listening false) a.peers q in
    let done =
      with_peer-counts ip (λ p. record p { sockets = p.sockets - 1 })
        (with_peer ip (set_listening false) a.peers) q in
    ground arith
