-- ===== src/Tests/WorkerTests.antt =====
-- src/server/workers.rs, src/server/websocket.rs and src/audio/prepare.rs at one track and one listener.
use togewire.Prelude.{
  ◌⊎◌, ℕ, ◌+◌, ◌≤◌, true, false, Option, none, some, List, [], ◌∷◌, Text, ℕ_discrete, arith, ◌≡◌,
  ◌≢◌, refl, inl, count,
}
use togewire.Prelude.Int.{ℤ, pos, ◌-ℤ◌}
use togewire.Prelude.Words.{wrap_i64}
use togewire.Prelude.Maps.{get, keys}
use togewire.Types.{SpotifyState}
use togewire.Config.{default_config}
use togewire.Cache.Store.{Store, Codec}
use togewire.Stream.Manager.{add_client}
use togewire.Stream.Pipe
use togewire.Audio.Prepare.{
  Preparer, Stage, waiting, Failures, err, no_source, is_preparing, recently_failed, record_result,
  no_source_cooldown,
}
use togewire.Audio.Prepare
use togewire.Audio.Tasks
use togewire.Audio.Cooldown.{recently_failed-record_result}
use togewire.Audio.Leaders.{leads, downloads, Reachable-one_leader}
use togewire.Server.App.{AppState, maybe_play}
use togewire.Server.Monitor.{Monitor, poll, in_range}
use togewire.Server.Polling.{fast_intervals, IsNearEnd, fast_intervals-bounded}
use togewire.Server.Playing.{poll-in_sync}
use togewire.Server.Peers.{peer_of, with_peer, take_slot}
use togewire.Server.Connections.{
  at_peer, take_stream, handle_stream, handle_ws, player_disabled, open_socket,
}
use togewire.Server.Opened.{is_open}
use togewire.Server.Tally.{stream}
use togewire.Server.Counts.{
  World, at, Reachable, start, next, stream_opened, Reachable-CountsAt, CountsAt,
}
use togewire.Server.Switches.{handle_admin_player}
use togewire.Server.Live.{handle_admin_player-closes, open_socket-after_off}

abbrev codec : Codec
codec = record { to_string = λ m. some []; from_str = λ t. none }

abbrev store : Store
store = record {
  inner = record {
    dir = [];
    meta_file = [];
    max_bytes = pos 60;
    entries = [];
    order = [];
    total_size_bytes = pos 0;
  };
  disk = record { nodes = []; refuses = λ p. false; lists = λ p. true; metadata = none };
}

abbrev track : Text
track = 1 ∷ []

abbrev failures : Failures
failures = []

-- Five minutes after nothing matched, the track is still held off.
recently_failed-record_result_example :
    (recently_failed 300000 track
      (recently_failed 200000 (2 ∷ []) (record_result 1000 track (err no_source) failures)).0).1
    ≡ true
unfolding count
recently_failed-record_result_example =
    recently_failed-record_result 1000 200000 300000 track (2 ∷ []) (err no_source) failures
      (omega arith) (λ k. ground arith)

abbrev preparer : Preparer
preparer = record { cache = store; in_flight = []; failed = []; download_lock = none }

abbrev prepared : Tasks.World
prepared =
    Tasks.moved 7 (record { preparer = preparer; tasks = λ n. Prepare.idle })
      (Prepare.prepare_track codec (pos 0) 0 7 track preparer)

prepared-Reachable : Tasks.Reachable codec prepared
prepared-Reachable =
    Tasks.next (Tasks.start store) (
      Tasks.call 7 (pos 0) 0 track (record { preparer = preparer; tasks = λ n. Prepare.idle }) refl)

Reachable-one_leader_example :
    ((n m : ℕ) (id : Text)
      → leads (prepared.tasks n) ≡ some id
      → leads (prepared.tasks m) ≡ some id
      → n ≡ m)
    × ((n : ℕ) (id : Text)
        → leads (prepared.tasks n) ≡ some id
        → is_preparing id prepared.preparer ≡ true)
    × ((id : Text)
        → is_preparing id prepared.preparer ≡ true
        → (n : ℕ) × (leads (prepared.tasks n) ≡ some id))
    × ((n m : ℕ)
        → downloads (prepared.tasks n) ≡ true
        → downloads (prepared.tasks m) ≡ true
        → n ≡ m)
Reachable-one_leader_example = Reachable-one_leader codec prepared prepared-Reachable

abbrev polls : List (ℤ × ℤ)
polls = (pos 200000, pos 198000) ∷ (pos 200000, pos 199000) ∷ (pos 200000, pos 200500) ∷ []

polls-IsNearEnd : IsNearEnd polls
unfolding IsNearEnd in_range wrap_i64 ◌-ℤ◌
polls-IsNearEnd = (refl, (refl, (refl, omega arith)))

fast_intervals-bounded_example : fast_intervals polls 7 2 + 7 ≤ 8 + 2
fast_intervals-bounded_example = fast_intervals-bounded polls 7 2 (omega arith) polls-IsNearEnd

abbrev app : AppState
app = record {
  current = none;
  stream_manager = record {
    pipe = Pipe.new 64;
    listeners = 0;
    generation = 3;
    playing_file = false;
  };
  preparer = preparer;
  ws_clients = [];
  next_id = 0;
  togedemon = none;
  cancelled = [];
  togedemon_events = [];
  process = record {
    config = record default_config {
      player_enabled = true;
      spotify_auth =
          some (record { access_token = []; refresh_token = none; expires_at_unix = pos 0 });
    };
    on_disk = none;
    use_librespot = false;
    force_no_librespot = false;
    plan = 0;
  };
  peers = [];
  spawned = [];
}

abbrev playing : SpotifyState
playing = record {
  track = some (record {
    id = track;
    name = [];
    artist = [];
    album = [];
    album_artist = none;
    duration = pos 200000;
    explicit = false;
    cover_url = none;
    release_date = none;
    track_number = none;
    disc_number = none;
  });
  next_track = none;
  progress = pos 1000;
  is_playing = true;
}

abbrev monitor : Monitor
monitor = record {
  last_track_id = none;
  last_playing = false;
  last_progress = pos 0;
  last_poll = 0;
  last_broadcast = 0;
  consecutive_errors = 0;
  fast_polls = 0;
  near_end_polls = 0;
}

abbrev nobody : Option ℕ
nobody = none

poll-in_sync_example :
    let r = poll codec (pos 0) 5000 5001 (some playing) app monitor in
    (r.0.togedemon ≡ none)
    × (((nobody ≢ none) × (r.0.stream_manager ≡ app.stream_manager))
        ⊎ ((nobody ≡ none)
            × ((r.0.stream_manager.playing_file ≡ false) ⊎ (r.1.last_playing ≡ true))))
poll-in_sync_example = poll-in_sync codec (pos 0) 5000 5001 (some playing) app monitor (λ e. cc)

abbrev listened : World
listened = at (handle_stream 0 (9 ∷ []) app).0 (stream (9 ∷ []) ∷ [])

listened-is_open : is_open (handle_stream 0 (9 ∷ []) app).1 ≡ true
unfolding is_open handle_stream take_stream take_slot add_client peer_of get at_peer with_peer
listened-is_open = refl

listened-Reachable : Reachable listened
listened-Reachable = next (start app refl refl) (stream_opened 0 (9 ∷ []) app [] listened-is_open)

Reachable-CountsAt_example : CountsAt (9 ∷ []) listened
Reachable-CountsAt_example = Reachable-CountsAt listened listened-Reachable (9 ∷ [])

handle_admin_player-closes_example :
    let b = (handle_admin_player codec true (pos 0) 10 false app).0 in
    (b.togedemon ≡ none)
    × (b.ws_clients ≡ [])
    × (b.stream_manager.playing_file ≡ false)
    × (handle_stream 20 (9 ∷ []) b ≡ (b, inl player_disabled))
    × (handle_ws (9 ∷ []) b ≡ (b, some player_disabled))
    × (maybe_play (5 ∷ []) playing b ≡ (b, false))
handle_admin_player-closes_example =
    handle_admin_player-closes codec (pos 0) 10 20 (9 ∷ []) (5 ∷ []) playing app

open_socket-after_off_example :
    let b = (handle_admin_player codec true (pos 0) 10 false (handle_ws (9 ∷ []) app).0).0 in
    let r = open_socket 20 b in
    (app.process.config.player_enabled ≡ true)
    × (b.ws_clients ≡ [])
    × (handle_ws (9 ∷ []) b ≡ (b, some player_disabled))
    × (keys r.0.ws_clients ≡ r.1 ∷ [])
    × (r.0.process.config.player_enabled ≡ false)
unfolding handle_ws togewire.Server.Connections.take_socket take_slot peer_of
    togewire.Prelude.Maps.get
open_socket-after_off_example =
    open_socket-after_off codec (pos 0) 10 20 (9 ∷ []) app (handle_ws (9 ∷ []) app).0 refl
