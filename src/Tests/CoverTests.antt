-- ===== src/Tests/CoverTests.antt =====
-- src/audio/mod.rs: covers.
use togewire.Prelude.{◌≡◌, refl, ltb→lt, some, none, [], ◌∷◌, codes}
use togewire.Audio.Covers.{original_cover_url, image_dimensions}
use togewire.Audio.CoverLaws.{Chunk, nothing, passed, encode, frame_header, image_dimensions-encode}

swapped_prefix :
    original_cover_url (codes "spotify:image:ab67616d0000b2738664")
    ≡ some (codes "https://i.scdn.co/image/ab67616d000082c18664")
unfolding original_cover_url togewire.Server.Addresses.strip_prefix togewire.Cache.Disk.starts_with
swapped_prefix = refl

other_address : original_cover_url (codes "https://example.com/cover.jpg") ≡ none
unfolding original_cover_url togewire.Server.Addresses.strip_prefix togewire.Cache.Disk.starts_with
other_address = refl

-- A table of an image, with 6 bytes.
abbrev table : Chunk
table = record { marker = 219; body = 1 ∷ 2 ∷ 3 ∷ 4 ∷ 5 ∷ 6 ∷ [] }

png_size :
    image_dimensions (
      137 ∷ 80 ∷ 78 ∷ 71 ∷ 13 ∷ 10 ∷ 26 ∷ 10 ∷ 0 ∷ 0 ∷ 0 ∷ 13 ∷ 73 ∷ 72 ∷ 68 ∷ 82 ∷ 0 ∷ 0 ∷ 2 ∷ 128
      ∷ 0 ∷ 0 ∷ 1 ∷ 224 ∷ [])
    ≡ some (640, 480)
unfolding image_dimensions
png_size = refl

image_dimensions-encode_example :
    image_dimensions (255 ∷ 216 ∷ encode (table ∷ []) (frame_header 194 17 8 640 480 (3 ∷ [])))
    ≡ some (640, 480)
image_dimensions-encode_example =
    image_dimensions-encode (table ∷ []) 194 17 8 640 480 (3 ∷ [])
      (passed refl (ltb→lt 6 65534 refl) nothing) refl
