-- ===== src/Server/Connections.antt =====
-- src/server/mod.rs and src/server/websocket.rs: how streams and sockets are opened and closed.
use togewire.Prelude.{
  ℕ, ◌+◌, ◌-◌, ◌%◌, Bool, false, not, Option, none, some, List, [], Text, ◌=?◌, if◌then◌else◌, leb,
  length, is_some, ◌⊎◌, inl, inr, ℕ_discrete,
}
use togewire.Prelude.Words.{u64_modulus}
use togewire.Prelude.Maps.{insert, remove}
use togewire.Stream.Pipe.{Bytes}
use togewire.Stream.Manager.{add_client, remove_client}
use togewire.Server.App.{AppState, Peer, TrackUpdate, rebroadcast, track_update_message, try_send}
use togewire.Server.Peers.{peer_of, with_peer, take_slot, set_listening}

abbrev pub max_total_stream_listeners : ℕ
max_total_stream_listeners = 250

abbrev pub max_total_ws_clients : ℕ
max_total_ws_clients = 1_000

pub data Refusal : Type 0 where
  player_disabled too_many_connections too_many_listeners : Refusal

unfoldable pub at_peer : Text → (Peer → Peer) → AppState → AppState
at_peer ip f a = record a { peers = with_peer ip f a.peers }

-- `with_peer(&ip, |p| take_slot(&mut p.streams))`
unfoldable pub take_stream : Text → AppState → AppState × Bool
take_stream ip a =
    let r = take_slot (peer_of ip a.peers).streams in
    (at_peer ip (λ p. record p { streams = r.0 }) a, r.1)

unfoldable pub take_socket : Text → AppState → AppState × Bool
take_socket ip a =
    let r = take_slot (peer_of ip a.peers).sockets in
    (at_peer ip (λ p. record p { sockets = r.0 }) a, r.1)

unfoldable pub note_track : Text → AppState → AppState
note_track ip a = elim a.current [
  | none ↦ a
  | some s ↦ elim s.track [
    | none ↦ a
    | some t ↦
        at_peer ip (λ p. if p.last_track =? t.id then p else record p { last_track = t.id }) a
  ]
]

-- `handle_stream`: the listener's place and its prefix, or why there is none.
unfoldable pub handle_stream : ℕ → Text → AppState → AppState × (Refusal ⊎ (ℕ × List Bytes))
handle_stream now ip a =
    if not a.process.config.player_enabled
    then (a, inl player_disabled)
    else (let slot = take_stream ip a in
        if not slot.1
        then (slot.0, inl too_many_connections)
        else (let client = add_client max_total_stream_listeners slot.0.stream_manager in
            let a' = record (slot.0) { stream_manager = client.0 } in
            elim client.1 [
              | none ↦ (
                at_peer ip (λ p. record p { streams = p.streams - 1 }) a',
                inl too_many_listeners,
              )
              | some place ↦ (note_track ip (rebroadcast now a'), inr place)
            ]))

-- The drop of a `ListenerStream`.
unfoldable pub drop_stream : ℕ → Text → AppState → AppState
drop_stream now ip a = rebroadcast now (
    at_peer ip (λ p. record p { streams = p.streams - 1 })
      (record a { stream_manager = remove_client a.stream_manager }))

-- `handle_ws`: the upgrade is then pending, until it fails or `handle_socket` runs.
unfoldable pub handle_ws : Text → AppState → AppState × Option Refusal
handle_ws ip a =
    if not a.process.config.player_enabled
    then (a, some player_disabled)
    else if leb max_total_ws_clients (length a.ws_clients)
    then (a, some too_many_connections)
    else (let slot = take_socket ip a in
        if slot.1 then (slot.0, none) else (slot.0, some too_many_connections))

unfoldable pub failed_upgrade : Text → AppState → AppState
failed_upgrade ip a = at_peer ip (λ p. record p { sockets = p.sockets - 1 }) a

-- What the channel of a new socket holds: the current track, if there is one.
unfoldable pub snapshot : ℕ → AppState → AppState × List TrackUpdate
snapshot now a = elim a.current [
  | none ↦ (a, [])
  | some s ↦
      if is_some s.track
      then (let r = track_update_message now s a in (r.0, try_send r.1 []))
      else (a, [])
]

-- The start of `handle_socket`, with the id of the socket.
unfoldable pub open_socket : ℕ → AppState → AppState × ℕ
open_socket now a =
    let id = a.next_id in
    let r = snapshot now (record a { next_id = (id + 1) % u64_modulus }) in
    (record (r.0) { ws_clients = insert ℕ_discrete id r.1 r.0.ws_clients }, id)

-- A `listening` frame of a socket that was `listening`.
unfoldable pub listening_frame : Text → Bool → Bool → AppState → AppState × Bool
listening_frame ip listening on a =
    if (if on then listening else not listening)
    then (a, listening)
    else (at_peer ip (set_listening on) a, on)

-- The end of `handle_socket`.
unfoldable pub close_socket : Text → ℕ → Bool → AppState → AppState
close_socket ip id listening a =
    let a' = if listening then at_peer ip (set_listening false) a else a in
    at_peer ip (λ p. record p { sockets = p.sockets - 1 })
      (record a' { ws_clients = remove ℕ_discrete id a'.ws_clients })
