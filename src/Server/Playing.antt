-- ===== src/Server/Playing.antt =====
-- src/server/workers.rs: what the monitor does to the stream.
use togewire.Prelude.{
  Bool-cases, ℕ, ◌-◌, Bool, true, false, not, ◌&&◌, Option, none, some, Text, arith, ◌≡◌, ◌≢◌, refl,
  ◌⊎◌, inl, inr, Option-cases, if◌then◌else◌,
}
use togewire.Prelude.Int.{ℤ, pos, ◌-ℤ◌, ltb_ℤ}
use togewire.Prelude.Words.{wrap_i64}
use togewire.Types.{Track, SpotifyState}
use togewire.Cache.Store.{Codec}
use togewire.Stream.Manager.{State, stop, play_track, swap_pipe}
use togewire.Server.App.{
  AppState, togedemon_live, has_failed, track_update_message, broadcast_track_update, stop_stream,
  maybe_play, get_cached_path, play_cached, switch_track,
}
use togewire.Server.Monitor.{
  Monitor, play_if_cached, prepare_current, prefetch_found, prefetch_next, poll_none, resync,
  poll_same, poll_switched, poll_track, poll, abs_i64, seek_drift_ms, is_id, nothing_playing,
}

-- Nothing that decides what is played has changed.
abbrev Keeps : AppState → AppState → Type 0
Keeps a b =
    (b.stream_manager ≡ a.stream_manager) × (b.togedemon ≡ a.togedemon) × (b.process ≡ a.process)

-- A file was started, which needs a playing track, no togedemon and the player on; or nothing changed.
abbrev Plays : SpotifyState → AppState → AppState × Bool → Type 0
Plays s a (b, played) =
    ((played ≡ false) × Keeps a b)
    ⊎ ((played ≡ true)
        × (s.is_playing ≡ true)
        × (a.togedemon ≡ none)
        × (a.process.config.player_enabled ≡ true)
        × (b.togedemon ≡ none)
        × (b.process ≡ a.process)
        × (b.stream_manager.playing_file ≡ true))

has_failed-Keeps : (now : ℕ) (t : Option Track) (a : AppState) → Keeps a (has_failed now t a).0
unfolding has_failed
has_failed-Keeps now none a = (refl, refl, refl)
has_failed-Keeps now (some t) a = (refl, refl, refl)

broadcast-Keeps :
    (now : ℕ) (s : SpotifyState) (a : AppState) → Keeps a (broadcast_track_update now s a)
unfolding broadcast_track_update track_update_message
broadcast-Keeps now s a = has_failed-Keeps now s.track a

maybe_play-Plays : (path : Text) (s : SpotifyState) (a : AppState) → Plays s a (maybe_play path s a)
unfolding maybe_play togedemon_live play_track swap_pipe
maybe_play-Plays path s a = ground arith

stop-quiet : (s : State) → (stop s).playing_file ≡ false
unfolding stop swap_pipe
stop-quiet s = refl

module _ (codec : Codec) where
  play_if_cached-Plays :
      (path : Option Text) (s : SpotifyState) (a : AppState)
      → Plays s a (play_if_cached codec path s a)
  unfolding play_if_cached
  play_if_cached-Plays none s a = inl (refl, (refl, refl, refl))
  play_if_cached-Plays (some path) s a = maybe_play-Plays path s a

  play_cached-Plays :
      (unix : ℤ) (s : SpotifyState) (id : Text) (a : AppState)
      → Plays s a (play_cached codec unix s id a)
  unfolding play_cached get_cached_path
  play_cached-Plays unix s id a =
      let r = get_cached_path codec unix id a in
      elim (Option-cases r.1) [
        | inl e ↦ ground arith
        | inr (path, e) ↦ let f = maybe_play-Plays path s r.0 in ground arith
      ]

  prepare_current-Keeps :
      (unix : ℤ) (now : ℕ) (t : Track) (a : AppState) → Keeps a (prepare_current codec unix now t a)
  unfolding prepare_current get_cached_path
  prepare_current-Keeps unix now t a =
      let f = has_failed-Keeps now (some t) (get_cached_path codec unix t.id a).0 in ground arith

  prefetch_found-Keeps :
      (unix : ℤ) (now : ℕ) (t : Track) (a : AppState) → Keeps a (prefetch_found codec unix now t a)
  unfolding prefetch_found get_cached_path
  prefetch_found-Keeps unix now t a =
      let f = has_failed-Keeps now (some t) (get_cached_path codec unix t.id a).0 in ground arith

  prefetch_next-Keeps :
      (unix : ℤ) (now : ℕ) (t : Track) (next : Option Track) (a : AppState)
      → Keeps a (prefetch_next codec unix now t next a)
  unfolding prefetch_next get_cached_path
  prefetch_next-Keeps unix now t none a = (refl, refl, refl)
  prefetch_next-Keeps unix now t (some next) a =
      let r = get_cached_path codec unix t.id a in
      let f = has_failed-Keeps now (some t) r.0 in
      let g = prefetch_found-Keeps unix now next r.0 in
      let h = prefetch_found-Keeps unix now next (has_failed now (some t) r.0).0 in ground arith

  -- A live togedemon is left alone, and otherwise a file plays only for a track that does.
  abbrev Effect : SpotifyState → AppState → AppState → Type 0
  Effect s a b =
      (b.togedemon ≡ a.togedemon)
      × (b.process ≡ a.process)
      × (a.togedemon ≢ none → b.stream_manager ≡ a.stream_manager)
      × (a.togedemon ≡ none → b.stream_manager.playing_file ≡ true → s.is_playing ≡ true)

  switch_track-Effect :
      (unix : ℤ) (now : ℕ) (s : SpotifyState) (id : Text) (a : AppState)
      → Effect s a (switch_track codec unix now s id a)
  unfolding switch_track stop_stream togedemon_live
  switch_track-Effect unix now s id a =
      let r = play_cached codec unix s id a in
      let played = play_cached-Plays unix s id a in
      let quiet = stop-quiet r.0.stream_manager in
      let sent =
        broadcast-Keeps now s
          (if not r.1 && not (togedemon_live r.0) then stop_stream r.0 else r.0) in
      ground arith

  resync-Effect :
      (seeked : Bool) (cached : Option Text) (s : SpotifyState) (m : Monitor) (a : AppState)
      → (a.stream_manager.playing_file ≡ true → m.last_playing ≡ true)
      → Effect s a (resync codec seeked cached s m a).0
  unfolding resync stop_stream togedemon_live
  resync-Effect seeked cached s m a h =
      let sought = if seeked then (play_if_cached codec cached s a).0 else a in
      let first = play_if_cached-Plays cached s a in
      let second = play_if_cached-Plays cached s sought in
      let quiet = stop-quiet sought.stream_manager in ground arith

  poll_same-Effect :
      (unix : ℤ) (now later : ℕ) (s : SpotifyState) (t : Track) (a : AppState) (m : Monitor)
      → (a.stream_manager.playing_file ≡ true → m.last_playing ≡ true)
      → Effect s a (poll_same codec unix now later s t a m).0
  unfolding poll_same get_cached_path
  poll_same-Effect unix now later s t a m h =
      let elapsed = if m.last_playing then pos (later - m.last_poll) else pos 0 in
      let drift = abs_i64 (wrap_i64 (wrap_i64 (s.progress -ℤ m.last_progress) -ℤ elapsed)) in
      let cached = get_cached_path codec unix t.id a in
      let synced = resync-Effect (ltb_ℤ seek_drift_ms drift) cached.1 s m cached.0 h in
      let sent =
        broadcast-Keeps now s (resync codec (ltb_ℤ seek_drift_ms drift) cached.1 s m cached.0).0 in
      ground arith

  poll_track-Effect :
      (unix : ℤ) (now later : ℕ) (s : SpotifyState) (t : Track) (a : AppState) (m : Monitor)
      → (a.stream_manager.playing_file ≡ true → m.last_playing ≡ true)
      → Effect s a (poll_track codec unix now later s t a m).0
  unfolding poll_track poll_switched
  poll_track-Effect unix now later s t a m h =
      let a' = record a { current = some s } in
      let same = poll_same-Effect unix now later s t a' m h in
      let switched = switch_track-Effect unix now s t.id a' in
      let b =
        (if is_id m.last_track_id t.id
          then poll_same codec unix now later s t a' m
          else poll_switched codec unix now s t a' m).0 in
      let prefetched = prefetch_next-Keeps unix now t s.next_track b in
      let prepared =
        prepare_current-Keeps unix now t (prefetch_next codec unix now t s.next_track b) in
      ground arith

  poll_none-quiet :
      (now : ℕ) (s : SpotifyState) (a : AppState) (m : Monitor)
      → let r = poll_none codec now s a m in
        (r.0.togedemon ≡ a.togedemon)
        × (r.0.process ≡ a.process)
        × (a.togedemon ≢ none → r.0.stream_manager ≡ a.stream_manager)
        × (a.togedemon ≡ none
            → (a.stream_manager.playing_file ≡ true → m.last_playing ≡ true)
            → r.0.stream_manager.playing_file ≡ true
            → r.1.last_playing ≡ true)
  unfolding poll_none stop_stream togedemon_live
  poll_none-quiet now s a m =
      let a' = record a { current = none } in
      let quiet = stop-quiet a.stream_manager in
      let sent = broadcast-Keeps now s (if togedemon_live a' then a' else stop_stream a') in
      ground arith

  poll-Effect :
      (unix : ℤ) (now later : ℕ) (answer : Option SpotifyState) (a : AppState) (m : Monitor)
      → (a.stream_manager.playing_file ≡ true → m.last_playing ≡ true)
      → let r = poll codec unix now later answer a m in
        (r.0.togedemon ≡ a.togedemon)
        × (a.togedemon ≢ none → r.0.stream_manager ≡ a.stream_manager)
        × (a.togedemon ≡ none → r.0.stream_manager.playing_file ≡ true → r.1.last_playing ≡ true)
  unfolding poll poll_track
  poll-Effect unix now later none a m h =
      let unpaired = poll_none-quiet now nothing_playing a m in ground arith
  poll-Effect unix now later (some s) a m h =
      let m' = record m { consecutive_errors = 0 } in
      let unpaired = poll_none-quiet now nothing_playing a m in
      let quiet = poll_none-quiet now s a m' in
      elim (Option-cases s.track) [
        | inl e ↦ ground arith
        | inr (t, e) ↦ let f = poll_track-Effect unix now later s t a m' h in ground arith
      ]

  -- Whatever Spotify answers, a poll leaves the stream of a live togedemon alone; without one, a file plays
  -- after it only if the monitor saw a track play, provided that this held before.
  pub poll-in_sync :
      (unix : ℤ) (now later : ℕ) (answer : Option SpotifyState) (a : AppState) (m : Monitor)
      → (a.stream_manager.playing_file ≡ true → m.last_playing ≡ true)
      → let r = poll codec unix now later answer a m in
        (r.0.togedemon ≡ a.togedemon)
        × (((a.togedemon ≢ none) × (r.0.stream_manager ≡ a.stream_manager))
            ⊎ ((a.togedemon ≡ none)
                × ((r.0.stream_manager.playing_file ≡ false) ⊎ (r.1.last_playing ≡ true))))
  poll-in_sync unix now later answer a m h =
      let (slot, live, quiet) = poll-Effect unix now later answer a m h in
      let b = (poll codec unix now later answer a m).0 in
      elim (Option-cases a.togedemon) [
        | inl e ↦ (
          slot,
          inr (
            e,
            elim (Bool-cases b.stream_manager.playing_file) [
              | inl p ↦ inr (quiet e p)
              | inr p ↦ inl p
            ],
          ),
        )
        | inr (t, e) ↦
            let there : a.togedemon ≢ none = λ f. ground arith in (slot, inl (there, live there))
      ]
