-- ===== src/Server/App.antt =====
-- src/server/mod.rs and src/server/workers.rs: the shared state, what is sent to its listeners, and
-- which file the stream plays.
use togewire.Prelude.{
  ℕ, Bool, true, false, not, ◌&&◌, ◌||◌, Option, none, some, List, [], ◌∷◌, ◌++◌, Text,
  if◌then◌else◌, ltb, length, is_some,
}
use togewire.Prelude.Int.{ℤ, pos, ltb_ℤ}
use togewire.Types.{Track, SpotifyState}
use togewire.Config.{Process}
use togewire.Cache.Store.{Codec}
use togewire.Cache.Manager.{get_path}
use togewire.Audio.Prepare.{Preparer, is_preparing, recently_failed}
use togewire.Stream.Manager.{State, stop, play_track}

-- The `TrackUpdateMessage` of src/types.rs.
pub record TrackUpdate : Type 0 where
  pub track : Option Track
  pub progress : ℤ
  pub is_playing : Bool
  pub stream_active : Bool
  pub stream_gen : ℕ
  pub listener_count : ℕ
  pub preparing : Bool
  pub no_source : Bool

-- The tasks that are spawned: a file played from a place on, a preparation, a streaming copy.
pub data Spawned : Type 0 where
  playback : Text → ℤ → Spawned
  preparation : Track → Spawned
  copy : Text → Spawned

-- Per-IP connection counts.
pub record Peer : Type 0 where
  pub streams : ℕ
  pub sockets : ℕ
  pub listening : ℕ
  pub last_track : Text

-- The messages that wait in the channel of each socket, the token of the live togedemon, the tokens that
-- are cancelled, and the events that were sent to togedemon, newest first.
pub record AppState : Type 0 where
  pub current : Option SpotifyState
  pub stream_manager : State
  pub preparer : Preparer
  pub ws_clients : List (ℕ × List TrackUpdate)
  pub next_id : ℕ
  pub togedemon : Option ℕ
  pub cancelled : List ℕ
  pub togedemon_events : List Bool
  pub process : Process
  pub peers : List (Text × Peer)
  pub spawned : List Spawned

-- `mpsc::channel(256)`, the senders of which never wait.
abbrev pub mailbox_size : ℕ
mailbox_size = 256

abbrev pub new_track_intro_grace_ms : ℤ
new_track_intro_grace_ms = pos 2500

unfoldable pub effective_seek_ms : ℤ → ℤ
effective_seek_ms progress = if ltb_ℤ progress new_track_intro_grace_ms then pos 0 else progress

unfoldable pub togedemon_live : AppState → Bool
togedemon_live a = is_some a.togedemon

-- `TogedemonEvent::new`: its `is_playing`.
unfoldable pub togedemon_event : Option SpotifyState → AppState → Bool
togedemon_event none a = false
togedemon_event (some s) a = a.process.config.player_enabled && is_some s.track && s.is_playing

unfoldable pub has_failed : ℕ → Option Track → AppState → AppState × Bool
has_failed now none a = (a, false)
has_failed now (some t) a =
    let r = recently_failed now t.id a.preparer.failed in
    (record a { preparer = record (a.preparer) { failed = r.0 } }, r.1)

is_preparing_any : Option Track → Preparer → Bool
is_preparing_any none p = false
is_preparing_any (some t) p = is_preparing t.id p

unfoldable pub track_update_message : ℕ → SpotifyState → AppState → AppState × TrackUpdate
unfolding togedemon_live is_preparing_any
track_update_message now s a =
    let r = has_failed now s.track a in
    (
      r.0,
      record {
        track = s.track;
        progress = if is_some s.track then s.progress else pos 0;
        is_playing = is_some s.track && s.is_playing;
        stream_active = togedemon_live a || a.stream_manager.playing_file;
        stream_gen = a.stream_manager.generation;
        listener_count = a.stream_manager.listeners;
        preparing = is_preparing_any s.track a.preparer;
        no_source = r.1;
      },
    )

unfoldable pub try_send : TrackUpdate → List TrackUpdate → List TrackUpdate
try_send msg box = if ltb (length box) mailbox_size then box ++ (msg ∷ []) else box

unfoldable pub send_all : TrackUpdate → List (ℕ × List TrackUpdate) → List (ℕ × List TrackUpdate)
send_all msg [] = []
send_all msg ((id, box) ∷ m) = (id, try_send msg box) ∷ send_all msg m

unfoldable pub broadcast_track_update : ℕ → SpotifyState → AppState → AppState
broadcast_track_update now s a =
    let r = track_update_message now s a in
    let a' = r.0 in
    record a' {
      ws_clients = send_all r.1 a'.ws_clients;
      togedemon_events = togedemon_event (some s) a' ∷ a'.togedemon_events;
    }

unfoldable pub rebroadcast : ℕ → AppState → AppState
rebroadcast now a = elim a.current [ none ↦ a | some s ↦ broadcast_track_update now s a ]

unfoldable pub stop_stream : AppState → AppState
stop_stream a = record a { stream_manager = stop a.stream_manager }

-- Play a cached file if one should be streaming now.
unfoldable pub maybe_play : Text → SpotifyState → AppState → AppState × Bool
maybe_play path s a =
    if s.is_playing && not (togedemon_live a) && a.process.config.player_enabled
    then (
      record a {
        stream_manager = (play_track a.stream_manager).0;
        spawned = playback path (effective_seek_ms s.progress) ∷ a.spawned;
      },
      true,
    )
    else (a, false)

module _ (codec : Codec) where
  unfoldable pub get_cached_path : ℤ → Text → AppState → AppState × Option Text
  get_cached_path unix id a =
      let r = get_path codec unix id a.preparer.cache in
      (record a { preparer = record (a.preparer) { cache = r.0 } }, r.1)

  -- The cached file, if it is there and should be playing.
  unfoldable pub play_cached : ℤ → SpotifyState → Text → AppState → AppState × Bool
  play_cached unix s id a =
      let r = get_cached_path unix id a in
      elim r.1 [ none ↦ (r.0, false) | some path ↦ maybe_play path s r.0 ]

  -- Point the stream at a new current track: its cached file, or quiet until prepared.
  unfoldable pub switch_track : ℤ → ℕ → SpotifyState → Text → AppState → AppState
  switch_track unix now s id a =
      let r = play_cached unix s id a in
      let a' = if not r.1 && not (togedemon_live r.0) then stop_stream r.0 else r.0 in
      broadcast_track_update now s a'

  unfoldable pub start_stream_if_playing : ℤ → ℕ → AppState → AppState
  start_stream_if_playing unix now a = elim a.current [
    | none ↦ a
    | some s ↦ elim s.track [
      | none ↦ a
      | some t ↦
          let r = play_cached unix s t.id a in if r.1 then broadcast_track_update now s r.0 else r.0
    ]
  ]
