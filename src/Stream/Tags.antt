-- ===== src/Stream/Tags.antt =====
-- src/server/stream.rs: the page that stands in for a file's tags.
use togewire.Prelude.{ℕ, ◌%◌, ◌^◌, ◌≡◌, refl, [], ◌∷◌, ◌++◌, take, drop, arith}
use togewire.Stream.Pipe.{Bytes}
use togewire.Stream.Ogg.{
  page, from_le_bytes, to_le_bytes, read_ogg_page, ogg_crc, tags_page_with, empty_tags_page, sum,
}
use togewire.Stream.Pages.{IsPage, read_ogg_page-append}

abbrev four : ℕ → ℕ → ℕ → ℕ → Bytes
four a b c d = a ∷ b ∷ c ∷ d ∷ []

from_to_le_bytes : (x : ℕ) → from_le_bytes (to_le_bytes 4 x) ≡ x % 2 ^ 32
unfolding from_le_bytes to_le_bytes
from_to_le_bytes x = omega arith

module _ (a b c d e f g h : ℕ) where
  abbrev tags : Bytes
  tags = empty_tags_page (four a b c d) (four e f g h)

  tags-IsPage : IsPage tags
  unfolding empty_tags_page tags_page_with to_le_bytes sum
  tags-IsPage = record { magic = refl; long = omega arith; whole = refl }

  -- The tags page is read back as one page with granule 0, which carries the serial and the sequence
  -- number that it was given, and the checksum of itself with a zero in the checksum's place.
  pub read_ogg_page-empty_tags_page :
      (rest : Bytes)
      → (read_ogg_page (empty_tags_page (four a b c d) (four e f g h) ++ rest)
          ≡ page
              (record { bytes = empty_tags_page (four a b c d) (four e f g h); granule = 0 })
              rest)
        × (take 4 (drop 14 (empty_tags_page (four a b c d) (four e f g h))) ≡ four a b c d)
        × (take 4 (drop 18 (empty_tags_page (four a b c d) (four e f g h))) ≡ four e f g h)
        × (from_le_bytes (take 4 (drop 22 (empty_tags_page (four a b c d) (four e f g h))))
            ≡ ogg_crc (tags_page_with (four a b c d) (four e f g h) (four 0 0 0 0)) % 2 ^ 32)
  unfolding empty_tags_page tags_page_with from_le_bytes to_le_bytes
  read_ogg_page-empty_tags_page rest = (
    read_ogg_page-append tags rest tags-IsPage,
    refl,
    refl,
    from_to_le_bytes (ogg_crc (tags_page_with (four a b c d) (four e f g h) (four 0 0 0 0))),
  )
