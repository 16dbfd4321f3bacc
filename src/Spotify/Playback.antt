-- ===== src/Spotify/Playback.antt =====
-- src/spotify.rs: what plays now, with the cached metadata of its tracks.
use togewire.Prelude.{
  ℕ, ◌+◌, Bool, false, not, ◌&&◌, Option, none, some, [], Text, Text-discrete, ◌=?◌, if◌then◌else◌,
  ltb, length,
}
use togewire.Prelude.Int.{ℤ, pos, ltb_ℤ, ◌+ℤ◌}
use togewire.Prelude.Words.{wrap_i64}
use togewire.Prelude.Maps.{get, insert}
use togewire.Config.{trim}
use togewire.Types.{Track, SpotifyState, fill_from, unknown_artist, is_empty}
use togewire.Spotify.Json.{Value, filtered, not_negative}
use togewire.Spotify.Uris.{track_id_from_uri}
use togewire.Spotify.Metadata.{parse_metadata_track}
use togewire.Spotify.Snapshot.{ConnectStateSnapshot, parse_connect_state_snapshot}
use togewire.Spotify.Client.{
  Json, Client, CachedTrack, bad_id, no_player_state, Result, ok, failed, seconds, track_metadata,
  connect_state, current_unix_ms,
}
use togewire.Spotify.Requests.{send_authed_json}
use togewire.Spotify.Account.{resolve_spclient_host}

abbrev pub track_metadata_cache_max_entries : ℕ
track_metadata_cache_max_entries = 2048

abbrev pub track_metadata_retry_secs : ℕ
track_metadata_retry_secs = 60

abbrev pub default_track : Track
default_track = record {
  id = [];
  name = [];
  artist = [];
  album = [];
  album_artist = none;
  duration = pos 0;
  explicit = false;
  cover_url = none;
  release_date = none;
  track_number = none;
  disc_number = none;
}

abbrev pub default_state : SpotifyState
default_state = record { track = none; next_track = none; progress = pos 0; is_playing = false }

-- `metadata.or(fallback).cloned().unwrap_or_default()`, filled from the fallback if both are there.
unfoldable pub merged : Option Track → Option Track → Track
unfolding fill_from
merged (some m) (some fb) = fill_from m fb
merged (some m) none = m
merged none (some fb) = fb
merged none none = default_track

unfoldable pub hinted : ℤ → Option ℤ → ℤ
hinted duration none = duration
hinted duration (some ms) = if ltb_ℤ (pos 0) duration then duration else not_negative ms

unfoldable pub build_track_from_uri : Text → Option Track → Option Track → Option ℤ → Track
unfolding merged hinted
build_track_from_uri uri metadata fallback duration_hint =
    let m = merged metadata fallback in
    let id = if is_empty m.id then track_id_from_uri uri else m.id in
    record m {
      id = id;
      name = if is_empty (trim m.name) then id else m.name;
      artist = if is_empty (trim m.artist) then unknown_artist else m.artist;
      duration = hinted m.duration duration_hint;
    }

-- A cached entry that is not to be looked up again yet.
abbrev pub fresh_entry : Client → Option CachedTrack → Option (Option Track)
fresh_entry c none = none
fresh_entry c (some (cached, none)) = some cached
fresh_entry c (some (cached, some at)) = if ltb c.clock at then some cached else none

abbrev pub looked_up : Result (Option Track) → Option Track
looked_up (failed why) = none
looked_up (ok track) = track

abbrev pub retry_at : Client → Result (Option Track) → Option ℕ
retry_at c (failed why) = some (c.clock + seconds track_metadata_retry_secs)
retry_at c (ok track) = none

-- Cleared wholesale at the cap.
unfoldable pub cache_metadata : Text → CachedTrack → Client → Client
cache_metadata uri entry c = record c {
  track_metadata_cache = insert Text-discrete uri entry (
      if ltb track_metadata_cache_max_entries (length c.track_metadata_cache)
      then []
      else c.track_metadata_cache);
}

-- Skip ads / non-tracks and self-duplicates.
unfoldable pub is_next : Track → Text → Bool
is_next track uri = let id = track_id_from_uri uri in not (is_empty id) && not (id =? track.id)

-- An active track cannot play past its duration, with two seconds of grace.
unfoldable pub past_end : Track → ConnectStateSnapshot → Bool
past_end track s =
    s.is_playing
    && ltb_ℤ (pos 0) track.duration
    && not (ltb_ℤ s.progress_ms (wrap_i64 (track.duration +ℤ pos 2000)))

abbrev pub snapshot_result : Option ConnectStateSnapshot → Result ConnectStateSnapshot
snapshot_result none = failed no_player_state
snapshot_result (some s) = ok s

abbrev pub snapshot_reply : ℤ → Result Value → Result ConnectStateSnapshot
snapshot_reply now (failed why) = failed why
snapshot_reply now (ok payload) = snapshot_result (parse_connect_state_snapshot now payload)

module _ (j : Json) where
  unfoldable pub fetch_track_metadata_from_spclient : Text → Client → Client × Result (Option Track)
  unfolding resolve_spclient_host send_authed_json
  fetch_track_metadata_from_spclient uri c =
      let id = track_id_from_uri uri in
      elim (j.base16 id) [
        | none ↦ (c, failed bad_id)
        | some gid ↦
            let h = resolve_spclient_host j c in
            let r = send_authed_json j (track_metadata h.1 gid) h.0 in
            elim r.1 [
              | failed why ↦ (r.0, failed why)
              | ok payload ↦ (r.0, ok (parse_metadata_track payload id))
            ]
      ]

  -- A failure is kept only briefly.
  unfoldable pub looked_up_anew : Text → Client → Client × Option Track
  unfolding fetch_track_metadata_from_spclient cache_metadata
  looked_up_anew uri c =
      let r = fetch_track_metadata_from_spclient uri c in
      (cache_metadata uri (looked_up r.1, retry_at r.0 r.1) r.0, looked_up r.1)

  -- Cached metadata for one track URI.
  unfoldable pub fetch_track_metadata : Text → Client → Client × Option Track
  unfolding looked_up_anew
  fetch_track_metadata uri c =
      if is_empty uri
      then (c, none)
      else elim (fresh_entry c (get Text-discrete uri c.track_metadata_cache)) [
        | some cached ↦ (c, cached)
        | none ↦ looked_up_anew uri c
      ]

  unfoldable pub fetch_connect_state_snapshot : Client → Client × Result ConnectStateSnapshot
  unfolding resolve_spclient_host send_authed_json
  fetch_connect_state_snapshot c =
      let h = resolve_spclient_host j c in
      let r = send_authed_json j (connect_state h.1) h.0 in
      (r.0, snapshot_reply (current_unix_ms r.0) r.1)

  -- The next track, with its metadata, if there is an address to look up.
  unfoldable pub next_of : Option Text → ConnectStateSnapshot → Client → Client × Option Track
  unfolding fetch_track_metadata build_track_from_uri
  next_of none s c = (c, none)
  next_of (some uri) s c =
      let r = fetch_track_metadata uri c in
      (r.0, some (build_track_from_uri uri r.1 s.next_track_fallback none))

  -- The state that plays `track` with the next track looked up.
  unfoldable pub played : Track → ConnectStateSnapshot → Client → Client × SpotifyState
  unfolding next_of past_end is_next
  played track s c =
      let n = next_of (filtered (is_next track) s.next_track_uri) s c in
      let ended = past_end track s in
      (
        n.0,
        record {
          track = some track;
          next_track = n.1;
          progress = if ended then track.duration else s.progress_ms;
          is_playing = if ended then false else s.is_playing;
        },
      )

  -- The state that a snapshot stands for.
  unfoldable pub current_of : ConnectStateSnapshot → Option Text → Client → Client × SpotifyState
  unfolding fetch_track_metadata played
  current_of s none c = (c, default_state)
  current_of s (some uri) c =
      let m = fetch_track_metadata uri c in
      played (build_track_from_uri uri m.1 s.current_track_fallback s.duration_ms) s m.0

  unfoldable pub report : Client → Result ConnectStateSnapshot → Client × Result SpotifyState
  unfolding current_of
  report c (failed why) = (c, failed why)
  report c (ok s) = let state = current_of s s.current_track_uri c in (state.0, ok state.1)

  unfoldable pub get_current_track : Client → Client × Result SpotifyState
  unfolding fetch_connect_state_snapshot report
  get_current_track c = let r = fetch_connect_state_snapshot c in report r.0 r.1
