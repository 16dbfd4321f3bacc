-- ===== src/Stream/Ogg.antt =====
-- src/server/stream.rs: Ogg pages as bytes, read and written.
use Prim.Native.Nat.{bit_xor}
use togewire.Prelude.{
  ℕ, zero, suc, ◌+◌, ◌*◌, ◌/◌, ◌%◌, ◌^◌, [], ◌∷◌, ◌++◌, length, take, drop, ltb, leb, if◌then◌else◌,
  codes, ◌=?◌, ◌≡◌, refl,
}
use togewire.Stream.Pipe.{Bytes}

abbrev pub ogg_page_header_len : ℕ
ogg_page_header_len = 27

-- `u64::from_le_bytes` and the like.
unfoldable pub from_le_bytes : Bytes → ℕ
from_le_bytes [] = 0
from_le_bytes (b ∷ bs) = b + 256 * from_le_bytes bs

unfoldable pub to_le_bytes : ℕ → ℕ → Bytes
to_le_bytes zero x = []
to_le_bytes (suc n) x = (x % 256) ∷ to_le_bytes n (x / 256)

unfoldable pub sum : Bytes → ℕ
sum [] = 0
sum (b ∷ bs) = b + sum bs

abbrev pub byte_at : ℕ → Bytes → ℕ
byte_at i [] = 0
byte_at zero (b ∷ bs) = b
byte_at (suc i) (b ∷ bs) = byte_at i bs

pub record OggPage : Type 0 where
  pub bytes : Bytes
  pub granule : ℕ

-- `io::Result<Option<OggPage>>`, a page with what the reader has left.
pub data ReadResult : Type 0 where
  page : OggPage → Bytes → ReadResult
  end_of_file : ReadResult
  failed : ReadResult

abbrev pub ogg_s : Bytes
ogg_s = codes "OggS"

-- Once the size of the page is known.
unfoldable pub read_body : Bytes → ℕ → ReadResult
read_body r size =
    if ltb (length r) size
    then failed
    else page (record { bytes = take size r; granule = from_le_bytes (take 8 (drop 6 r)) })
        (drop size r)

-- Once the number of segments is known.
unfoldable pub read_segments : Bytes → ℕ → ReadResult
read_segments r segments =
    if ltb (length r) (ogg_page_header_len + segments)
    then failed
    else read_body r
        (ogg_page_header_len + segments + sum (take segments (drop ogg_page_header_len r)))

-- A header cut short reads as the end of the file, a body cut short as an error.
unfoldable pub read_ogg_page : Bytes → ReadResult
read_ogg_page r =
    if ltb (length r) ogg_page_header_len
    then end_of_file
    else if take 4 r =? ogg_s
    then read_segments r (byte_at 26 r)
    else failed

-- One of the eight rounds on a byte.
crc_bit : ℕ → ℕ
crc_bit crc = bit_xor (crc * 2 % 2 ^ 32) (if leb 0x8000_0000 (crc % 2 ^ 32) then 0x04c1_1db7 else 0)

crc_bits : ℕ → ℕ → ℕ
unfolding crc_bit
crc_bits zero crc = crc
crc_bits (suc n) crc = crc_bits n (crc_bit crc)

crc_from : ℕ → Bytes → ℕ
unfolding crc_bits
crc_from crc [] = crc
crc_from crc (b ∷ bs) = crc_from (crc_bits 8 (bit_xor crc (b * 2 ^ 24 % 2 ^ 32))) bs

unfoldable pub ogg_crc : Bytes → ℕ
unfolding crc_from
ogg_crc bytes = crc_from 0 bytes

abbrev pub packet : Bytes
packet = codes "OpusTags" ++ 8 ∷ 0 ∷ 0 ∷ 0 ∷ codes "togewire" ++ 0 ∷ 0 ∷ 0 ∷ 0 ∷ []

-- The page before its checksum is filled in; `crc` are the bytes at 22 to 25.
unfoldable pub tags_page_with : Bytes → Bytes → Bytes → Bytes
tags_page_with serial seq crc =
    ogg_s
    ++ (0 ∷ 0 ∷ [])
    ++ (0 ∷ 0 ∷ 0 ∷ 0 ∷ 0 ∷ 0 ∷ 0 ∷ 0 ∷ [])
    ++ serial
    ++ seq
    ++ crc
    ++ (1 ∷ length packet ∷ [])
    ++ packet

-- A comment-free OpusTags page.
unfoldable pub empty_tags_page : Bytes → Bytes → Bytes
empty_tags_page serial seq =
    tags_page_with serial seq
      (to_le_bytes 4 (ogg_crc (tags_page_with serial seq (0 ∷ 0 ∷ 0 ∷ 0 ∷ []))))

check_value : ogg_crc (codes "123456789") ≡ 0x89a1_897f
unfolding ogg_crc
check_value = refl
