-- ===== src/Spotify/Snapshot.antt =====
-- src/spotify/parsing.rs: a track's node and the snapshot of the connect state.
use mathlib.Core.List.{◌++◌}
use togewire.Prelude.{
  ℕ, zero, suc, ◌+◌, ◌^◌, ◌-◌, Bool, not, ◌&&◌, Option, none, some, List, [], ◌∷◌, Text,
  if◌then◌else◌, codes,
}
use togewire.Prelude.Decimal.{decimal}
use togewire.Prelude.Int.{ℤ, pos, ltb_ℤ, ◌+ℤ◌, ◌-ℤ◌}
use togewire.Prelude.Words.{i64_max, wrap_i64}
use togewire.Types.{Track, or}
use togewire.Spotify.Json.{
  Value, Fields, and_then, as_object, as_array, member, find_map, value_as_bool, nonempty_str,
  find_value_by_key, find_i64, parse_int, not_negative, end, field,
}
use togewire.Spotify.Uris.{or_empty, track_id_from_uri, extract_track_uri}
use togewire.Spotify.Extract.{
  normalize_cover_url, extract_cover_url, extract_release_date, extract_album_name,
  extract_explicit, extract_first_artist_name, int_field,
}
use togewire.Spotify.Metadata.{or_zero, or_false, or_text, some_names}

unfoldable pub field_count : Fields → ℕ
field_count end = 0
field_count (field k v fs) = field_count fs + 1

-- `artist_name:i` from `i` on, up to the first that is missing. The names differ, so that a map has
-- at most as many of them as fields.
unfoldable pub more_artists : ℕ → ℕ → Fields → List Text
more_artists zero i m = []
more_artists (suc fuel) i m =
    let rest = more_artists fuel (i + 1) m in
    elim (nonempty_str (member (codes "artist_name:" ++ decimal i) m)) [
      | none ↦ []
      | some name ↦ name ∷ rest
    ]

-- Connect-state lists artists as `artist_name`, `artist_name:1`, `artist_name:2`...
unfoldable pub connect_artists : Fields → Option Text
unfolding more_artists field_count
connect_artists fs = and_then (and_then (member (codes "metadata") fs) as_object) (λ m.
    and_then (nonempty_str (member (codes "artist_name") m))
      (λ name. some_names (name ∷ more_artists (field_count m) 1 m)))

-- `meta`: the first of the keys under "metadata".
unfoldable pub meta : Fields → List Text → Option Text
meta fs keys =
    and_then (and_then (member (codes "metadata") fs) as_object)
      (λ m. find_map (λ k. nonempty_str (member k m)) keys)

abbrev i32_max : ℕ
i32_max = 2 ^ 31 - 1

abbrev duration_keys : List Text
duration_keys = codes "duration" ∷ codes "duration_ms" ∷ []

abbrev track_number_keys : List Text
track_number_keys =
    codes "trackNumber" ∷ codes "track_number" ∷ codes "number" ∷ codes "track_player_state" ∷ []

abbrev disc_number_keys : List Text
disc_number_keys = codes "discNumber" ∷ codes "disc_number" ∷ []

-- The track of a node that is the object `fs` with the address `uri`.
unfoldable pub connect_track : Value → Fields → Text → Track
unfolding meta connect_artists
connect_track v fs uri =
    let id = track_id_from_uri uri in
    record {
      id = id;
      name =
          or_text
            (or (meta fs (codes "title" ∷ codes "name" ∷ []))
              (nonempty_str (member (codes "name") fs)))
            id;
      artist = or_empty (
          or (connect_artists fs) (
            or (meta fs (codes "artists" ∷ []))
              (and_then (member (codes "artist") fs) extract_first_artist_name)));
      album =
          or_empty
            (or (meta fs (codes "album_title" ∷ codes "album_name" ∷ [])) (extract_album_name fs));
      album_artist = none;
      duration = not_negative (or_zero (find_i64 v duration_keys));
      explicit = or_false (extract_explicit fs);
      cover_url =
          or
            (and_then
              (meta fs (
                codes "image_xlarge_url"
                ∷ codes "image_large_url"
                ∷ codes "image_url"
                ∷ codes "image_small_url"
                ∷ []))
              normalize_cover_url)
            (extract_cover_url fs);
      release_date = or (meta fs (codes "release_date" ∷ [])) (extract_release_date fs);
      track_number =
          or
            (and_then (meta fs (codes "track_player_state" ∷ codes "track_number" ∷ []))
              (parse_int i32_max))
            (int_field fs track_number_keys);
      disc_number =
          or (and_then (meta fs (codes "disc_number" ∷ [])) (parse_int i32_max))
            (int_field fs disc_number_keys);
    }

unfoldable pub parse_connect_track_node : Value → Option Track
unfolding connect_track
parse_connect_track_node v =
    and_then (as_object v)
      (λ fs. and_then (extract_track_uri v) (λ uri. some (connect_track v fs uri)))

pub record ConnectStateSnapshot : Type 0 where
  pub current_track_uri : Option Text
  pub current_track_fallback : Option Track
  pub next_track_uri : Option Text
  pub next_track_fallback : Option Track
  pub progress_ms : ℤ
  pub duration_ms : Option ℤ
  pub is_playing : Bool

-- `saturating_add` of numbers that are not negative.
unfoldable pub saturating_add : ℤ → ℤ → ℤ
saturating_add a b = let sum = a +ℤ b in if ltb_ℤ (pos i64_max) sum then pos i64_max else sum

unfoldable pub playing_flag : Value → Bool
playing_flag ps = or_false (
    or
      (and_then (and_then (find_value_by_key (codes "is_paused") ps) value_as_bool)
        (λ paused. some (not paused)))
      (and_then (find_value_by_key (codes "is_playing") ps) value_as_bool))

abbrev base_progress : Value → ℤ
base_progress ps = not_negative (
    or_zero (
      find_i64 ps
        (codes "position_as_of_timestamp" ∷ codes "position" ∷ codes "playback_position" ∷ [])))

-- Where the playback is at the time `now`, in milliseconds.
unfoldable pub progress_at : ℤ → Value → ℤ
unfolding playing_flag saturating_add
progress_at now ps =
    let timestamp_ms = or_zero (find_i64 ps (codes "timestamp" ∷ [])) in
    if playing_flag ps && ltb_ℤ (pos 0) timestamp_ms
    then saturating_add (base_progress ps) (not_negative (wrap_i64 (now -ℤ timestamp_ms)))
    else base_progress ps

abbrev first_of : List Value → Option Value
first_of [] = none
first_of (v ∷ vs) = some v

-- The snapshot that the player's state gives.
unfoldable pub snapshot_of : ℤ → Value → ConnectStateSnapshot
unfolding progress_at playing_flag parse_connect_track_node
snapshot_of now ps =
    let current =
      or (find_value_by_key (codes "track") ps) (find_value_by_key (codes "current_track") ps) in
    let next = and_then (and_then (find_value_by_key (codes "next_tracks") ps) as_array) first_of in
    record {
      current_track_uri = and_then current extract_track_uri;
      current_track_fallback = and_then current parse_connect_track_node;
      next_track_uri = and_then next extract_track_uri;
      next_track_fallback = and_then next parse_connect_track_node;
      progress_ms = progress_at now ps;
      duration_ms = and_then (find_i64 ps duration_keys) (λ ms. some (not_negative ms));
      is_playing = playing_flag ps;
    }

unfoldable pub parse_connect_state_snapshot : ℤ → Value → Option ConnectStateSnapshot
unfolding snapshot_of
parse_connect_state_snapshot now payload =
    and_then (find_value_by_key (codes "player_state") payload) (λ ps. some (snapshot_of now ps))
