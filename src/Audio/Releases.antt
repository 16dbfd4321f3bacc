-- ===== src/Audio/Releases.antt =====
-- src/audio/ytdlp.rs: how a tool is downloaded, with its published checksum.
use togewire.Prelude.{
  ℕ, Bool, true, false, ◌&&◌, ◌||◌, Option, none, some, List, [], ◌∷◌, ◌++◌, Text, ◌=?◌, ◌==◌, leb,
  if◌then◌else◌, codes, map, length, all,
}
use togewire.Config.{trim_start, is_whitespace}
use togewire.Types.{is_empty}
use togewire.Cache.Manager.{ends_with}
use togewire.Server.Addresses.{split, to_ascii_lowercase}
use togewire.Server.Auth.{hex}
use togewire.Spotify.Json.{find_map}
use togewire.Stream.Pipe.{Bytes}

abbrev pub is_ascii_hexdigit : ℕ → Bool
is_ascii_hexdigit c = (leb 48 c && leb c 57) || (leb 65 c && leb c 70) || (leb 97 c && leb c 102)

unfoldable pub non_empty : List Text → List Text
non_empty [] = []
non_empty (s ∷ ss) = let rest = non_empty ss in if is_empty s then rest else s ∷ rest

unfoldable pub split_whitespace : Text → List Text
unfolding split non_empty
split_whitespace s = non_empty (split is_whitespace s)

-- The carriage return that `str::lines` takes off the end of a line is white space, which no reader of
-- a line here sees.
abbrev pub lines : Text → List Text
lines text = split (λ c. c == 10) text

abbrev pub is_hash : Text → Bool
is_hash hash = (length hash == 64) && all is_ascii_hexdigit hash

-- What follows the hash of a line: nothing, or the file's name, with a path or `*` before it.
unfoldable pub names_file : Text → List Text → Bool
names_file filename [] = true
names_file filename (n ∷ rest) =
    let named = trim_start (λ c. c == b'*') n in
    named =? filename || ends_with (codes "/" ++ filename) named

unfoldable pub parts_hash : Text → List Text → Option Text
unfolding names_file
parts_hash filename [] = none
parts_hash filename (hash ∷ rest) =
    if is_hash hash && names_file filename rest then some (map to_ascii_lowercase hash) else none

unfoldable pub line_hash : Text → Text → Option Text
unfolding split_whitespace parts_hash
line_hash filename line = parts_hash filename (split_whitespace line)

unfoldable pub parse_sha256sums : Text → Text → Option Text
unfolding line_hash find_map
parse_sha256sums text filename = find_map (line_hash filename) (lines text)

pub data Download : Type 0 where
  fetched : Bytes → Download
  no_folder request_failed checksum_missing checksum_mismatch : Download

abbrev pub checked : (Bytes → Bytes) → Text → Bytes → Download
checked sha256 expected bytes =
    if hex (sha256 bytes) =? expected then fetched bytes else checksum_mismatch

-- Whether `data/bin` could be made, and what the two addresses answer, `none` for any failure.
unfoldable pub download_verified :
    (Bytes → Bytes) → Bool → Option Text → Option Bytes → Text → Download
unfolding parse_sha256sums
download_verified sha256 false sums asset name = no_folder
download_verified sha256 true none asset name = request_failed
download_verified sha256 true (some text) asset name = elim (parse_sha256sums text name) [
  | none ↦ checksum_missing
  | some expected ↦ elim asset [
    | none ↦ request_failed
    | some bytes ↦ checked sha256 expected bytes
  ]
]
