-- ===== src/Spotify/Extract.antt =====
-- src/spotify/parsing.rs: what is read out of a track's node: cover, release date, album, explicit
-- flag and artist.
use mathlib.Core.List.{◌++◌, map}
use togewire.Prelude.{
  all, ℕ, ◌+◌, ◌-◌, ◌%◌, ◌^◌, Bool, true, false, not, ◌&&◌, ◌||◌, Option, none, some, List, [], ◌∷◌,
  Text, if◌then◌else◌, leb, ltb, codes,
}
use togewire.Prelude.Int.{ℤ, pos, negsuc}
use togewire.Prelude.Words.{as_u64}
use togewire.Prelude.Decimal.{decimal}
use togewire.Config.{trim, contains}
use togewire.Types.{or, is_empty}
use togewire.Cache.Disk.{starts_with}
use togewire.Server.Addresses.{strip_prefix}
use togewire.Spotify.Json.{
  Value, Items, Fields, number, string, array, object, nil, cons, end, field, and_then, as_str,
  as_array, get_member, member, find_map, value_as_u64, value_as_i64, value_as_bool, nonempty_str,
  number_as_i64,
}
use togewire.Spotify.Uris.{reading_of, reading}

unfoldable pub decimal_ℤ : ℤ → Text
unfolding decimal
decimal_ℤ (pos n) = decimal n
decimal_ℤ (negsuc n) = b'-' ∷ decimal (n + 1)

-- `n as i32`
unfoldable pub as_i32 : ℤ → ℤ
unfolding as_u64
as_i32 a = let w = as_u64 a % 2 ^ 32 in if ltb w (2 ^ 31) then pos w else negsuc (2 ^ 32 - 1 - w)

-- `max_by_key`: among equal keys the later entry wins.
unfoldable pub max_from {ℓ} : {A : Type ℓ} → ℕ × A → List (ℕ × A) → ℕ × A
max_from best [] = best
max_from best (next ∷ rest) = max_from (if leb best.0 next.0 then next else best) rest

unfoldable pub max_by_key {ℓ} : {A : Type ℓ} → List (ℕ × A) → Option A
unfolding max_from
max_by_key [] = none
max_by_key (a ∷ rest) = some ((max_from a rest).1)

unfoldable pub filter_map {ℓ κ} : {A : Type ℓ} {B : Type κ} → (A → Option B) → List A → List B
filter_map f [] = []
filter_map f (a ∷ as') =
    let rest = filter_map f as' in elim (f a) [ none ↦ rest | some b ↦ b ∷ rest ]

abbrev pub album_keys : List Text
album_keys = codes "albumOfTrack" ∷ codes "album_of_track" ∷ codes "album" ∷ []

abbrev is_hex_digit : ℕ → Bool
is_hex_digit b = (leb 48 b && leb b 57) || (leb 65 b && leb b 70) || (leb 97 b && leb b 102)

unfoldable pub normalize_cover_url : Text → Option Text
normalize_cover_url given =
    let raw = trim given in
    if starts_with (codes "http://") raw || starts_with (codes "https://") raw
    then some raw
    else and_then (strip_prefix (codes "spotify:image:") raw) (λ id.
      if not (is_empty id) && all is_hex_digit id
      then some (codes "https://i.scdn.co/image/" ++ id)
      else none)

-- The width of an entry, 0 where there is none, with its address.
abbrev source : Value → Option (ℕ × Text)
source s =
    let width = and_then (get_member (codes "width") s) value_as_u64 in
    and_then (and_then (get_member (codes "url") s) as_str)
      (λ url. some ((elim width [ none ↦ 0 | some w ↦ w ]), url))

abbrev widest_source : Fields → Option Text
widest_source fs =
    and_then (and_then (member (codes "sources") fs) as_array)
      (λ sources. max_by_key (filter_map source sources))

abbrev first_image : Fields → Option Text
first_image fs =
    and_then (and_then (member (codes "images") fs) as_array)
      (find_map (λ i. and_then (get_member (codes "url") i) as_str))

abbrev cover_keys : List Text
cover_keys = codes "coverArt" ∷ codes "cover_art" ∷ codes "cover" ∷ codes "visualIdentity" ∷ []

abbrev image_keys : List Text
image_keys =
    codes "image_xlarge_url" ∷ codes "image_large_url" ∷ codes "image_url" ∷ codes "url" ∷ []

-- `below` is what the values of `fs` give.
abbrev cover_from : Fields → List (Text × Option Text) → Option Text
cover_from fs below = or (reading_of cover_keys below) (
    or (widest_source fs) (
      or (first_image fs)
        (find_map (λ k. and_then (and_then (member k fs) as_str) normalize_cover_url) image_keys)))

unfoldable mutual
  pub cover_of : Value → Option Text
  cover_of (object fs) = cover_from fs (field_covers fs)
  cover_of v = none

  pub field_covers : Fields → List (Text × Option Text)
  field_covers end = []
  field_covers (field k v fs) = (k, cover_of v) ∷ field_covers fs

unfoldable pub cover_url_from_map : Fields → Option Text
cover_url_from_map fs = cover_of (object fs)

unfoldable pub extract_cover_url : Fields → Option Text
extract_cover_url fs = or (reading_of album_keys (field_covers fs)) (cover_url_from_map fs)

abbrev date_text : Value → Option Text
date_text (string s) = if is_empty (trim s) then none else some (trim s)
date_text (object fs) =
    or (and_then (and_then (member (codes "isoString") fs) as_str) (λ iso. some (trim iso))) (
      and_then (member (codes "year") fs) (λ v. elim v [
        | number n ↦ and_then (number_as_i64 n) (λ y. some (decimal_ℤ y))
        | _ ↦ none
      ]))
date_text v = none

abbrev date_keys : List Text
date_keys = codes "releaseDate" ∷ codes "release_date" ∷ codes "date" ∷ []

unfoldable mutual
  pub date_of : Value → Option Text
  date_of (object fs) =
      or (reading_of album_keys (field_dates fs))
        (find_map (λ k. and_then (member k fs) date_text) date_keys)
  date_of v = none

  pub field_dates : Fields → List (Text × Option Text)
  field_dates end = []
  field_dates (field k v fs) = (k, date_of v) ∷ field_dates fs

unfoldable pub extract_release_date : Fields → Option Text
extract_release_date fs = date_of (object fs)

unfoldable pub int_field : Fields → List Text → Option ℤ
int_field fs keys =
    and_then (find_map (λ k. and_then (member k fs) value_as_i64) keys) (λ n. some (as_i32 n))

unfoldable mutual
  pub album_name_from_value : Value → Option Text
  album_name_from_value (string s) = nonempty_str (some (string s))
  album_name_from_value (object fs) =
      or (nonempty_str (member (codes "name") fs)) (reading (codes "album") (field_albums fs))
  album_name_from_value v = none

  pub field_albums : Fields → List (Text × Option Text)
  field_albums end = []
  field_albums (field k v fs) = (k, album_name_from_value v) ∷ field_albums fs

unfoldable pub extract_album_name : Fields → Option Text
extract_album_name fs = reading_of album_keys (field_albums fs)

unfoldable pub to_ascii_uppercase : ℕ → ℕ
to_ascii_uppercase c = if leb 97 c && leb c 122 then c - 32 else c

abbrev explicit_labels : List Text
explicit_labels = codes "EXPLICIT" ∷ codes "TRUE" ∷ codes "1" ∷ []

abbrev clean_labels : List Text
clean_labels = codes "NONE" ∷ codes "CLEAN" ∷ codes "NOT_EXPLICIT" ∷ codes "FALSE" ∷ codes "0" ∷ []

unfoldable pub content_rating_label : Text → Option Bool
unfolding to_ascii_uppercase
content_rating_label label =
    let s = map to_ascii_uppercase (trim label) in
    if contains explicit_labels s
    then some true
    else if contains clean_labels s
    then some false
    else none

unfoldable pub content_rating_explicit : Value → Option Bool
content_rating_explicit (object fs) =
    or
      (find_map (λ k. and_then (and_then (member k fs) as_str) content_rating_label)
        (codes "label" ∷ codes "value" ∷ []))
      (and_then (member (codes "explicit") fs) value_as_bool)
content_rating_explicit (string label) = content_rating_label label
content_rating_explicit v = none

abbrev explicit_from : Fields → List (Text × Option Bool) → Option Bool
explicit_from fs below =
    or
      (find_map (λ k. and_then (member k fs) value_as_bool)
        (codes "isExplicit" ∷ codes "is_explicit" ∷ codes "explicit" ∷ []))
      (or
        (find_map (λ k. and_then (member k fs) content_rating_explicit)
          (codes "contentRating" ∷ codes "content_rating" ∷ []))
        (reading_of (codes "metadata" ∷ codes "track" ∷ codes "item" ∷ codes "attributes" ∷ [])
          below))

unfoldable mutual
  pub explicit_from_value : Value → Option Bool
  explicit_from_value (object fs) = explicit_from fs (field_explicits fs)
  explicit_from_value (array xs) = first_explicit xs
  explicit_from_value (string label) = content_rating_label label
  explicit_from_value v = none

  pub field_explicits : Fields → List (Text × Option Bool)
  field_explicits end = []
  field_explicits (field k v fs) = (k, explicit_from_value v) ∷ field_explicits fs

  pub first_explicit : Items → Option Bool
  first_explicit nil = none
  first_explicit (cons v xs) = or (explicit_from_value v) (first_explicit xs)

unfoldable pub extract_explicit : Fields → Option Bool
extract_explicit fs = explicit_from_value (object fs)

unfoldable mutual
  pub extract_first_artist_name : Value → Option Text
  extract_first_artist_name (string s) = nonempty_str (some (string s))
  extract_first_artist_name (array xs) = first_artist xs
  extract_first_artist_name (object fs) =
      or (nonempty_str (and_then (member (codes "profile") fs) (get_member (codes "name"))))
        (or (nonempty_str (member (codes "name") fs)) (reading (codes "items") (field_artists fs)))
  extract_first_artist_name v = none

  pub field_artists : Fields → List (Text × Option Text)
  field_artists end = []
  field_artists (field k v fs) = (k, extract_first_artist_name v) ∷ field_artists fs

  pub first_artist : Items → Option Text
  first_artist nil = none
  first_artist (cons v xs) = or (extract_first_artist_name v) (first_artist xs)
