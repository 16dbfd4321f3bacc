-- ===== src/Server/Monitor.antt =====
-- src/server/workers.rs: one poll of `spotify_monitor_worker`, and when the next one is due.
use togewire.Prelude.{
  ℕ, ◌+◌, ◌-◌, ◌*◌, ◌^◌, Bool, true, false, not, ◌&&◌, ◌||◌, Option, none, some, [], ◌∷◌, Text,
  ◌=?◌, if◌then◌else◌, ltb, leb, is_some, min,
}
use togewire.Prelude.Int.{ℤ, pos, negsuc, ◌-ℤ◌, ltb_ℤ}
use togewire.Prelude.Words.{wrap_i64}
use togewire.Types.{Track, SpotifyState}
use togewire.Config.{is_authenticated}
use togewire.Cache.Store.{Codec}
use togewire.Audio.Prepare.{is_preparing, Prepared, ok, err}
use togewire.Server.App.{
  AppState, preparation, copy, togedemon_live, has_failed, broadcast_track_update, rebroadcast,
  stop_stream, maybe_play, get_cached_path, switch_track,
}

abbrev pub poll_interval_steady : ℕ
poll_interval_steady = 750

abbrev pub poll_interval_fast : ℕ
poll_interval_fast = 250

abbrev pub poll_interval_idle : ℕ
poll_interval_idle = 1000

abbrev pub seek_drift_ms : ℤ
seek_drift_ms = pos 3000

abbrev pub ws_progress_interval : ℕ
ws_progress_interval = 1000

unfoldable pub in_range : ℤ → ℤ → ℤ → Bool
in_range low high x = not (ltb_ℤ x low) && not (ltb_ℤ high x)

unfoldable pub abs_i64 : ℤ → ℤ
abs_i64 x = if ltb_ℤ x (pos 0) then wrap_i64 (pos 0 -ℤ x) else x

-- The counters of polls near the end and of fast polls, and the interval.
unfoldable pub compute_poll_interval : Bool → ℤ → ℤ → ℕ → ℕ → ℕ × ℕ × ℕ
compute_poll_interval is_playing duration progress near_end_polls fast_polls =
    let remaining = wrap_i64 (duration -ℤ progress) in
    let near_end =
      is_playing
      && ltb_ℤ (pos 0) duration
      && in_range (pos 0) (pos 2500) remaining
      && ltb near_end_polls 8 in
    let near =
      if near_end
      then near_end_polls + 1
      else if not (in_range (negsuc 999) (pos 2500) remaining)
      then 0
      else near_end_polls in
    if not is_playing
    then (0, fast_polls, poll_interval_idle)
    else if near_end
    then (near, fast_polls, poll_interval_fast)
    else if ltb 0 fast_polls
    then (near, fast_polls - 1, poll_interval_fast)
    else (near, fast_polls, poll_interval_steady)

-- The variables of the loop; instants are in milliseconds.
pub record Monitor : Type 0 where
  pub last_track_id : Option Text
  pub last_playing : Bool
  pub last_progress : ℤ
  pub last_poll : ℕ
  pub last_broadcast : ℕ
  pub consecutive_errors : ℕ
  pub fast_polls : ℕ
  pub near_end_polls : ℕ

-- In milliseconds: 5 s doubling up to 5 min.
unfoldable pub backoff : ℕ → ℕ
backoff errors = min (5 * 2 ^ (min errors 7 - 1) * 1000) 300_000

-- `SpotifyState::default()`
abbrev pub nothing_playing : SpotifyState
nothing_playing = record { track = none; next_track = none; progress = pos 0; is_playing = false }

-- Whether the text in the option is this one.
unfoldable pub is_id : Option Text → Text → Bool
is_id none id = false
is_id (some last) id = last =? id

module _ (codec : Codec) where
  unfoldable pub play_if_cached : Option Text → SpotifyState → AppState → AppState × Bool
  play_if_cached none s a = (a, false)
  play_if_cached (some path) s a = maybe_play path s a

  unfoldable pub prepare_current : ℤ → ℕ → Track → AppState → AppState
  prepare_current unix now t a =
      let r = get_cached_path codec unix t.id a in
      if not (is_some r.1) && not (is_preparing t.id r.0.preparer)
      then (let f = has_failed now (some t) r.0 in
          if f.1 then f.0 else record (f.0) { spawned = preparation t ∷ f.0.spawned })
      else r.0

  -- The next track, once the current one is cached or held off.
  unfoldable pub prefetch_found : ℤ → ℕ → Track → AppState → AppState
  prefetch_found unix now t a =
      let r = get_cached_path codec unix t.id a in
      elim r.1 [
        | some path ↦ record (r.0) { spawned = copy path ∷ r.0.spawned }
        | none ↦
            if is_preparing t.id r.0.preparer
            then r.0
            else (let f = has_failed now (some t) r.0 in
                if f.1 then f.0 else record (f.0) { spawned = preparation t ∷ f.0.spawned })
      ]

  unfoldable pub prefetch_next : ℤ → ℕ → Track → Option Track → AppState → AppState
  prefetch_next unix now t none a = a
  prefetch_next unix now t (some next) a =
      let r = get_cached_path codec unix t.id a in
      if is_some r.1
      then prefetch_found unix now next r.0
      else (let f = has_failed now (some t) r.0 in
          if f.1 then prefetch_found unix now next f.0 else f.0)

  -- The poll that finds no track.
  unfoldable pub poll_none : ℕ → SpotifyState → AppState → Monitor → AppState × Monitor
  poll_none now s a m =
      let a' = record a { current = none } in
      if is_some m.last_track_id
      then (
        broadcast_track_update now s (if togedemon_live a' then a' else stop_stream a'),
        record m { last_track_id = none; last_playing = false },
      )
      else (a', m)

  -- The seek, then the resume or pause, or the stream that is quiet; and whether anything changed.
  unfoldable pub resync : Bool → Option Text → SpotifyState → Monitor → AppState → AppState × Bool
  resync seeked cached s m a =
      let a' = if seeked then (play_if_cached cached s a).0 else a in
      if not (if s.is_playing then m.last_playing else not m.last_playing)
      then (
        if s.is_playing
            then (play_if_cached cached s a').0
            else if togedemon_live a'
            then a'
            else stop_stream a',
        true,
      )
      else if not a'.stream_manager.playing_file && is_some cached
      then play_if_cached cached s a'
      else (a', seeked)

  -- The poll that finds the track of the last one. `later` is when `last_poll.elapsed()` is read.
  unfoldable pub poll_same :
      ℤ → ℕ → ℕ → SpotifyState → Track → AppState → Monitor → AppState × Monitor
  poll_same unix now later s t a m =
      let elapsed = if m.last_playing then pos (later - m.last_poll) else pos 0 in
      let drift = abs_i64 (wrap_i64 (wrap_i64 (s.progress -ℤ m.last_progress) -ℤ elapsed)) in
      let cached = get_cached_path codec unix t.id a in
      let r = resync (ltb_ℤ seek_drift_ms drift) cached.1 s m cached.0 in
      let changed = r.1 in
      let due =
        changed
        || (leb ws_progress_interval (now - m.last_broadcast)
            && elim r.0.ws_clients [ [] ↦ false | ◌∷◌ _ _ ↦ true ]) in
      (
        if due then broadcast_track_update now s r.0 else r.0,
        record m {
          last_broadcast = if due then now else m.last_broadcast;
          fast_polls = if changed then 2 else m.fast_polls;
        },
      )

  -- The poll that finds another track.
  unfoldable pub poll_switched :
      ℤ → ℕ → SpotifyState → Track → AppState → Monitor → AppState × Monitor
  poll_switched unix now s t a m = (
    switch_track codec unix now s t.id a,
    record m {
      last_track_id = some t.id;
      fast_polls = 2;
      near_end_polls = 0;
      last_broadcast = now;
    },
  )

  unfoldable pub poll_track :
      ℤ → ℕ → ℕ → SpotifyState → Track → AppState → Monitor → AppState × Monitor × ℕ
  poll_track unix now later s t a m =
      let a' = record a { current = some s } in
      let r =
        if is_id m.last_track_id t.id
        then poll_same unix now later s t a' m
        else poll_switched unix now s t a' m in
      let prefetched = prefetch_next unix now t s.next_track r.0 in
      let prepared = prepare_current unix now t prefetched in
      let due =
        compute_poll_interval s.is_playing t.duration s.progress r.1.near_end_polls
          r.1.fast_polls in
      (
        prepared,
        record (r.1) {
          last_progress = s.progress;
          last_poll = now;
          last_playing = s.is_playing;
          near_end_polls = due.0;
          fast_polls = due.1;
        },
        due.2,
      )

  -- One turn of the loop, from what Spotify answered; an error is `none`. With the sleep at its end.
  unfoldable pub poll :
      ℤ → ℕ → ℕ → Option SpotifyState → AppState → Monitor → AppState × Monitor × ℕ
  poll unix now later answer a m =
      if not (is_authenticated a.process.config)
      then (let r = poll_none now nothing_playing a m in (r.0, r.1, poll_interval_idle))
      else elim answer [
        | none ↦
            let errors = m.consecutive_errors + 1 in
            (a, record m { consecutive_errors = errors }, backoff errors)
        | some s ↦
            let m' = record m { consecutive_errors = 0 } in
            elim s.track [
              | none ↦ let r = poll_none now s a m' in (r.0, r.1, poll_interval_idle)
              | some t ↦ poll_track unix now later s t a m'
            ]
      ]

-- Whether the current track is this one.
unfoldable pub is_current : Text → SpotifyState → Bool
is_current id s = elim s.track [ none ↦ false | some t ↦ t.id =? id ]

-- The end of the task of `spawn_prepare`.
unfoldable pub play_or_copy : Text → Text → AppState → AppState
play_or_copy path id a = elim a.current [
  | none ↦ record a { spawned = copy path ∷ a.spawned }
  | some s ↦
      if not (is_current id s)
      then record a { spawned = copy path ∷ a.spawned }
      else if not a.stream_manager.playing_file
      then (maybe_play path s a).0
      else a
]

unfoldable pub prepared : ℕ → Text → Prepared → AppState → AppState
prepared now id (ok path) a = rebroadcast now (play_or_copy path id a)
prepared now id (err _) a = rebroadcast now a
