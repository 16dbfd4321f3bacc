-- ===== src/Audio/Covers.antt =====
-- src/audio/mod.rs: covers: their address at the uploaded size, and the size that an image's bytes state.
use togewire.Prelude.{
  ℕ, zero, suc, ◌+◌, ◌*◌, not, ◌&&◌, ◌||◌, Option, none, some, List, [], ◌∷◌, ◌++◌, Text, ◌==◌, ltb,
  leb, if◌then◌else◌, codes, reverse, length, take, drop,
}
use togewire.Cache.Disk.{starts_with}
use togewire.Server.Addresses.{split, strip_prefix}
use togewire.Spotify.Json.{find_map}
use togewire.Stream.Pipe.{Bytes}
use togewire.Stream.Ogg.{byte_at}

abbrev pub original_prefix : Text
original_prefix = codes "ab67616d000082c1"

abbrev pub listed_covers : List Text
listed_covers = codes "ab67616d0000b273" ∷ codes "ab67616d00001e02" ∷ codes "ab67616d00004851" ∷ []

unfoldable pub cover_hash : Text → Option Text
unfolding find_map
cover_hash id = find_map (λ p. strip_prefix p id) listed_covers

unfoldable pub original_cover_url : Text → Option Text
unfolding split cover_hash
original_cover_url id_or_url = elim (reverse (split (λ c. c == b'/' || c == b':') id_or_url)) [
  | [] ↦ none
  | id ∷ rest ↦ elim (cover_hash id) [
    | none ↦ none
    | some hash ↦ some (codes "https://i.scdn.co/image/" ++ original_prefix ++ hash)
  ]
]

-- `from_be_bytes`
unfoldable pub be_from : ℕ → Bytes → ℕ
be_from acc [] = acc
be_from acc (b ∷ bs) = be_from (256 * acc + b) bs

abbrev pub from_be_bytes : Bytes → ℕ
from_be_bytes bs = be_from 0 bs

-- The bytes from where the walk stands, past the fill bytes before a marker.
unfoldable pub skip_fill : Bytes → Bytes
skip_fill [] = []
skip_fill (a ∷ []) = a ∷ []
skip_fill (a ∷ b ∷ bs) = let rest = skip_fill (b ∷ bs) in if b == 255 then rest else a ∷ b ∷ bs

-- What a marker says: the frame's size, the end of the headers, or how far the next marker is.
pub data Segment : Type 0 where
  frame : ℕ → ℕ → Segment
  stop : Segment
  go_on : ℕ → Segment

unfoldable pub segment_at : Bytes → Segment
segment_at d =
    let marker = byte_at 1 d in
    let len = from_be_bytes (take 2 (drop 2 d)) in
    if leb 192 marker && leb marker 194
    then frame (from_be_bytes (take 2 (drop 7 d))) (from_be_bytes (take 2 (drop 5 d)))
    else if marker == 218 || marker == 217
    then stop
    else if ltb len 2
    then stop
    else go_on (2 + len)

-- The segments from where the walk stands. Each takes at least four bytes, and the fuel is the length.
unfoldable pub walk_segments : ℕ → Bytes → Option (ℕ × ℕ)
unfolding skip_fill segment_at
walk_segments zero d = none
walk_segments (suc n) d =
    let filled = skip_fill d in
    if leb (length d) 8 || not (byte_at 0 d == 255) || leb (length filled) 8
    then none
    else (elim (segment_at filled) [
      | frame width height ↦ some (width, height)
      | stop ↦ none
      | go_on len ↦ walk_segments n (drop len filled)
    ])

abbrev pub png_signature : Bytes
png_signature = 137 ∷ 80 ∷ 78 ∷ 71 ∷ 13 ∷ 10 ∷ 26 ∷ 10 ∷ []

unfoldable pub image_dimensions : Bytes → Option (ℕ × ℕ)
unfolding walk_segments be_from starts_with
image_dimensions d =
    if starts_with png_signature d && leb 24 (length d)
    then some (from_be_bytes (take 4 (drop 16 d)), from_be_bytes (take 4 (drop 20 d)))
    else if starts_with (255 ∷ 216 ∷ []) d
    then walk_segments (length d) (drop 2 d)
    else none
