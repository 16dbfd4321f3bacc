-- ===== src/Spotify/Metadata.antt =====
-- src/spotify/parsing.rs: a track's record in the metadata service.
use mathlib.Core.List.{◌++◌, map}
use togewire.Prelude.{
  ℕ, zero, suc, ◌-◌, Bool, false, Option, none, some, List, [], ◌∷◌, Text, codes, length,
}
use togewire.Prelude.Decimal.{decimal}
use togewire.Prelude.Int.{ℤ, pos, negsuc, ltb_ℤ}
use togewire.Types.{Track}
use togewire.Spotify.Json.{
  Value, and_then, filtered, as_str, as_array, get_member, value_as_u64, value_as_i64,
  value_as_bool, nonempty_str,
}
use togewire.Spotify.Uris.{or_empty}
use togewire.Spotify.Extract.{as_i32, max_by_key, filter_map}

-- `names.join(", ")`, `None` for no names.
unfoldable pub joined : List Text → Text
joined [] = []
joined (s ∷ []) = s
joined (s ∷ t ∷ rest) = s ++ codes ", " ++ joined (t ∷ rest)

abbrev pub some_names : List Text → Option Text
some_names [] = none
some_names (s ∷ rest) = some (joined (s ∷ rest))

unfoldable pub metadata_artists : Value → Option Text
metadata_artists v =
    and_then (and_then (get_member (codes "artist") v) as_array)
      (λ artists. some_names (filter_map (λ a. nonempty_str (get_member (codes "name") a)) artists))

unfoldable pub positive : Option Value → Option ℤ
positive v = filtered (λ n. ltb_ℤ (pos 0) n) (and_then v value_as_i64)

unfoldable pub zeros : ℕ → Text
zeros zero = []
zeros (suc k) = b'0' ∷ zeros k

-- `{n:0width}` of a number that is not negative.
unfoldable pub padded : ℕ → ℤ → Text
unfolding zeros
padded width (pos n) = let s = decimal n in zeros (width - length s) ++ s
padded width (negsuc n) = []

abbrev width_of : Option ℕ → ℕ
width_of none = 0
width_of (some w) = w

abbrev pub or_zero : Option ℤ → ℤ
or_zero none = pos 0
or_zero (some n) = n

abbrev pub or_false : Option Bool → Bool
or_false none = false
or_false (some b) = b

abbrev pub or_text : Option Text → Text → Text
or_text none d = d
or_text (some s) d = s

abbrev date_part : Option Value → Text → Option ℤ
date_part date k = positive (and_then date (get_member k))

abbrev month_and_day : ℤ → Option ℤ → Option ℤ → Text
month_and_day year (some month) (some day) =
    padded 4 year ++ codes "-" ++ padded 2 month ++ codes "-" ++ padded 2 day
month_and_day year (some month) none = padded 4 year ++ codes "-" ++ padded 2 month
month_and_day year none day = padded 4 year

abbrev file_id_of : Option (List Value) → Option Text
file_id_of images =
    and_then
      (and_then
        (and_then images (λ is.
          max_by_key
            (map (λ i. (width_of (and_then (get_member (codes "width") i) value_as_u64), i)) is)))
        (get_member (codes "file_id")))
      as_str

-- A reply of the metadata service; `none` if it names no track.
unfoldable pub parse_metadata_track : Value → Text → Option Track
unfolding positive padded metadata_artists
parse_metadata_track payload id =
    let album = get_member (codes "album") payload in
    let date = and_then album (get_member (codes "date")) in
    let images =
      and_then
        (and_then (and_then album (get_member (codes "cover_group"))) (get_member (codes "image")))
        as_array in
    and_then (nonempty_str (get_member (codes "name") payload)) (λ name. some (record {
      id = id;
      name = name;
      artist = or_empty (metadata_artists payload);
      album = or_empty (and_then album (λ a. nonempty_str (get_member (codes "name") a)));
      album_artist = and_then album metadata_artists;
      duration = or_zero (positive (get_member (codes "duration") payload));
      explicit = or_false (and_then (get_member (codes "explicit") payload) value_as_bool);
      cover_url = and_then (file_id_of images) (λ f. some (codes "https://i.scdn.co/image/" ++ f));
      release_date = and_then (date_part date (codes "year")) (λ year.
          some
            (month_and_day year (date_part date (codes "month")) (date_part date (codes "day"))));
      track_number =
          and_then (positive (get_member (codes "number") payload)) (λ n. some (as_i32 n));
      disc_number =
          and_then (positive (get_member (codes "disc_number") payload)) (λ n. some (as_i32 n));
    }))
