-- ===== src/Audio/Container.antt =====
-- src/audio/librespot_src.rs: where the audio starts in what Spotify delivers, and small choices.
use togewire.Prelude.{
  ℕ, suc, Bool, ◌||◌, Option, none, some, List, [], ◌∷◌, Text, if◌then◌else◌, ◌==◌, take, drop,
  codes, ◌≡◌, refl, ◌++◌,
}
use togewire.Types.{or, is_empty}
use togewire.Cache.Disk.{starts_with}
use togewire.Spotify.Json.{and_then, find_map}
use togewire.Spotify.Client.{contains_text}
use togewire.Audio.Librespot.{LibrespotError, auth_error, other_failure}

-- Spotify prepends a fixed header of this size before the real audio container.
abbrev pub spotify_header : ℕ
spotify_header = 0xA7

abbrev pub ogg_magic : List ℕ
ogg_magic = codes "OggS"

abbrev pub flac_magic : List ℕ
flac_magic = codes "fLaC"

abbrev pub vorbis_id_header : List ℕ
vorbis_id_header = 1 ∷ codes "vorbis"

abbrev pub is_magic : List ℕ → Bool
is_magic w = starts_with flac_magic w || starts_with ogg_magic w

-- `windows(n).position(p)` for a test on what starts at a place, and the last such place.
unfoldable pub position : (List ℕ → Bool) → List ℕ → Option ℕ
position p [] = none
position p (b ∷ bs) =
    let rest = position p bs in if p (b ∷ bs) then some 0 else and_then rest (λ i. some (suc i))

unfoldable pub rposition : (List ℕ → Bool) → List ℕ → Option ℕ
rposition p [] = none
rposition p (b ∷ bs) =
    let rest = rposition p bs in
    or (and_then rest (λ i. some (suc i))) (if p (b ∷ bs) then some 0 else none)

unfoldable pub find_spotify_ogg_start : List ℕ → Option ℕ
unfolding position rposition starts_with
find_spotify_ogg_start bytes =
    if starts_with ogg_magic (drop spotify_header bytes)
    then some spotify_header
    else and_then (position (starts_with vorbis_id_header) bytes)
        (λ vorbis_id. rposition (starts_with ogg_magic) (take vorbis_id bytes))

unfoldable pub find_spotify_flac_start : List ℕ → Option ℕ
unfolding position starts_with
find_spotify_flac_start bytes =
    if is_magic (drop spotify_header bytes) then some spotify_header else position is_magic bytes

unfoldable pub or_fallback : Text → Text → Text
or_fallback primary fallback = if is_empty primary then fallback else primary

pub data ImageSize : Type 0 where
  xlarge large default_size small : ImageSize

abbrev size_rank : ImageSize → ℕ
size_rank xlarge = 0
size_rank large = 1
size_rank default_size = 2
size_rank small = 3

unfoldable pub cover_of_size : List (ImageSize × ℕ) → ImageSize → Option ℕ
cover_of_size [] size = none
cover_of_size ((s, id) ∷ rest) size =
    let more = cover_of_size rest size in if size_rank s == size_rank size then some id else more

abbrev first_cover : List (ImageSize × ℕ) → Option ℕ
first_cover [] = none
first_cover ((s, id) ∷ rest) = some id

unfoldable pub pick_best_cover : List (ImageSize × ℕ) → Option ℕ
unfolding cover_of_size find_map
pick_best_cover covers =
    or (find_map (cover_of_size covers) (xlarge ∷ large ∷ default_size ∷ small ∷ []))
      (first_cover covers)

-- `to_lowercase` of the message is an argument.
unfoldable pub map_meta_err : (Text → Text) → Text → LibrespotError
map_meta_err lower msg =
    let s = lower msg in
    if contains_text (codes "auth") s
      || contains_text (codes "login") s
      || contains_text (codes "permission") s
      || contains_text (codes "unauthorized") s
    then auth_error
    else other_failure

-- The tests of the source.
flac_at_start : find_spotify_flac_start (codes "fLaC" ++ 0 ∷ 0 ∷ 0 ∷ 34 ∷ []) ≡ some 0
unfolding find_spotify_flac_start
flac_at_start = refl

no_flac : find_spotify_flac_start (codes "some random audio bytes") ≡ none
unfolding find_spotify_flac_start
no_flac = refl

ogg_after_junk :
    find_spotify_ogg_start
      (0 ∷ 0 ∷ 0 ∷ 0 ∷ 0 ∷ 0 ∷ 0 ∷ 0 ∷ 0 ∷ 0 ∷ (codes "OggS...." ++ 1 ∷ codes "vorbis"))
    ≡ some 10
unfolding find_spotify_ogg_start
ogg_after_junk = refl
