-- ===== src/Spotify/Uris.antt =====
-- src/spotify/parsing.rs: the spellings of a track's address.
use mathlib.Core.List.{◌++◌}
use togewire.Prelude.{
  all, ℕ, Bool, ◌&&◌, ◌||◌, Option, none, some, List, [], ◌∷◌, Text, if◌then◌else◌, leb, ◌==◌,
  codes, ◌=?◌,
}
use togewire.Config.{trim}
use togewire.Types.{or}
use togewire.Server.Auth.{byte_len}
use togewire.Server.Addresses.{split, strip_prefix}
use togewire.Spotify.Json.{
  Value, Items, Fields, string, array, object, nil, cons, end, field, and_then, filtered, as_str,
  member, find_map,
}

unfoldable pub is_alphanumeric : ℕ → Bool
is_alphanumeric c = (leb 48 c && leb c 57) || (leb 65 c && leb c 90) || (leb 97 c && leb c 122)

unfoldable pub is_probable_spotify_id : Text → Bool
unfolding all
is_probable_spotify_id raw = leb 16 (byte_len (trim raw)) && all is_alphanumeric (trim raw)

-- `split(...).next()`
abbrev pub first_part : List Text → Option Text
first_part [] = none
first_part (s ∷ rest) = some s

-- What follows the first place where `pattern` stands.
unfoldable pub after : Text → Text → Option Text
after pattern [] = strip_prefix pattern []
after pattern (c ∷ s) = let rest = after pattern s in or (strip_prefix pattern (c ∷ s)) rest

abbrev pub track_prefix : Text
track_prefix = codes "spotify:track:"

abbrev pub is_id_end : ℕ → Bool
is_id_end c = c == b'?' || c == b'/' || c == b'&' || c == b'#'

unfoldable pub prefixed_id : Text → Option Text
prefixed_id s =
    filtered is_probable_spotify_id
      (or (strip_prefix track_prefix s) (strip_prefix (codes "track:") s))

unfoldable pub url_id : Text → Option Text
url_id s =
    and_then (after (codes "/track/") s)
      (λ rest. filtered is_probable_spotify_id (first_part (split is_id_end rest)))

unfoldable pub bare_id : Text → Option Text
bare_id s = filtered is_probable_spotify_id (some s)

unfoldable pub normalize_track_uri : Text → Option Text
normalize_track_uri raw =
    let s = trim raw in
    and_then (or (prefixed_id s) (or (url_id s) (bare_id s))) (λ id. some (track_prefix ++ id))

abbrev pub or_empty : Option Text → Text
or_empty (some s) = s
or_empty none = []

unfoldable pub track_id_from_uri : Text → Text
track_id_from_uri uri = or_empty (and_then (normalize_track_uri uri) (strip_prefix track_prefix))

-- The readings of a map's values, each with its key, so that a recursive reader looks a key up.
unfoldable pub reading {ℓ} : {A : Type ℓ} → Text → List (Text × Option A) → Option A
reading k [] = none
reading k ((j, r) ∷ rs) = let rest = reading k rs in if j =? k then r else rest

unfoldable pub first_reading {ℓ} : {A : Type ℓ} → List (Text × Option A) → Option A
first_reading [] = none
first_reading ((j, r) ∷ rs) = let rest = first_reading rs in or r rest

abbrev pub reading_of {ℓ} : {A : Type ℓ} → List Text → List (Text × Option A) → Option A
reading_of keys rs = find_map (λ k. reading k rs) keys

abbrev nested_track_keys : List Text
nested_track_keys =
    codes "track"
    ∷ codes "current_track"
    ∷ codes "context_track"
    ∷ codes "item"
    ∷ codes "metadata"
    ∷ []

abbrev own_uri : Fields → Option Text
own_uri fs = and_then (and_then (member (codes "uri") fs) as_str) normalize_track_uri

unfoldable mutual
  pub extract_track_uri : Value → Option Text
  extract_track_uri (string raw) = normalize_track_uri raw
  extract_track_uri (object fs) =
      let below = field_uris fs in
      or (own_uri fs) (or (reading_of nested_track_keys below) (first_reading below))
  extract_track_uri (array xs) = first_item_uri xs
  extract_track_uri v = none

  pub field_uris : Fields → List (Text × Option Text)
  field_uris end = []
  field_uris (field k v fs) = (k, extract_track_uri v) ∷ field_uris fs

  pub first_item_uri : Items → Option Text
  first_item_uri nil = none
  first_item_uri (cons v xs) = or (extract_track_uri v) (first_item_uri xs)
