-- ===== src/Stream/Pages.antt =====
-- src/server/stream.rs: pages read back as they were written, and the pump ends on every input.
use togewire.Prelude.{
  ℕ, zero, suc, ◌+◌, ◌-◌, ◌≤◌, ◌<◌, ◌≡◌, refl, ap, ◌∙◌, [], ◌∷◌, ◌++◌, length, take, drop, arith,
  ◌=?◌, length-append, true,
}
use togewire.Stream.Pipe.{Bytes}
use togewire.Stream.Ogg.{
  ogg_page_header_len, from_le_bytes, sum, byte_at, OggPage, page, ogg_s, read_body, read_segments,
  read_ogg_page,
}

-- A page: the magic, and the length that its segment table announces.
pub record IsPage (p : Bytes) : Type 0 where
  pub magic : take 4 p ≡ ogg_s
  pub long : ogg_page_header_len + byte_at 26 p ≤ length p
  pub whole :
      length p
      ≡ ogg_page_header_len + byte_at 26 p + sum (take (byte_at 26 p) (drop ogg_page_header_len p))

take-append_le : (n : ℕ) (xs ys : Bytes) → n ≤ length xs → take n (xs ++ ys) ≡ take n xs
take-append_le zero xs ys h = refl
take-append_le (suc n) [] ys h = absurd (omega arith)
take-append_le (suc n) (x ∷ xs) ys h = ap (◌∷◌ x) (take-append_le n xs ys (omega arith))

drop-append_le : (n : ℕ) (xs ys : Bytes) → n ≤ length xs → drop n (xs ++ ys) ≡ drop n xs ++ ys
drop-append_le zero xs ys h = refl
drop-append_le (suc n) [] ys h = absurd (omega arith)
drop-append_le (suc n) (x ∷ xs) ys h = drop-append_le n xs ys (omega arith)

take-length : (xs ys : Bytes) → take (length xs) (xs ++ ys) ≡ xs
take-length [] ys = refl
take-length (x ∷ xs) ys = ap (◌∷◌ x) (take-length xs ys)

pub drop-length : (xs ys : Bytes) → drop (length xs) (xs ++ ys) ≡ ys
drop-length [] ys = refl
drop-length (x ∷ xs) ys = drop-length xs ys

byte_at-append : (n : ℕ) (xs ys : Bytes) → n < length xs → byte_at n (xs ++ ys) ≡ byte_at n xs
byte_at-append n [] ys h = absurd (omega arith)
byte_at-append zero (x ∷ xs) ys h = refl
byte_at-append (suc n) (x ∷ xs) ys h = byte_at-append n xs ys (omega arith)

length-drop : (n : ℕ) (xs : Bytes) → length (drop n xs) ≡ length xs - n
length-drop zero xs = omega arith
length-drop (suc n) [] = omega arith
length-drop (suc n) (x ∷ xs) = omega (arith, length-drop n xs)

=?_self : (s : Bytes) → (s =? s) ≡ true
=?_self s = ground arith

granule_at-append :
    (p rest : Bytes)
    → ogg_page_header_len ≤ length p
    → take 8 (drop 6 (p ++ rest)) ≡ take 8 (drop 6 p)
granule_at-append p rest h =
    ap (take 8) (drop-append_le 6 p rest (omega arith))
    ∙ take-append_le 8 (drop 6 p) rest (omega (arith, length-drop 6 p))

segments_at-append :
    (n : ℕ) (p rest : Bytes)
    → ogg_page_header_len + n ≤ length p
    → take n (drop ogg_page_header_len (p ++ rest)) ≡ take n (drop ogg_page_header_len p)
segments_at-append n p rest h =
    ap (take n) (drop-append_le ogg_page_header_len p rest (omega arith))
    ∙ take-append_le n (drop ogg_page_header_len p) rest
        (omega (arith, length-drop ogg_page_header_len p))

read_body-append :
    (p rest : Bytes)
    → ogg_page_header_len ≤ length p
    → read_body (p ++ rest) (length p)
      ≡ page (record { bytes = p; granule = from_le_bytes (take 8 (drop 6 p)) }) rest
unfolding read_body
read_body-append p rest h =
    rw (take-length p rest, drop-length p rest, granule_at-append p rest h)
      (ground (arith, length-append p rest))

read_segments-append :
    (p rest : Bytes)
    → IsPage p
    → read_segments (p ++ rest) (byte_at 26 p) ≡ read_body (p ++ rest) (length p)
unfolding read_segments
read_segments-append p rest h =
    rw (segments_at-append (byte_at 26 p) p rest h.long, ← h.whole)
      (ground (arith, length-append p rest, h.long))

-- A page is read back whole, with what stands behind it left in the reader.
pub read_ogg_page-append :
    (p rest : Bytes)
    → IsPage p
    → read_ogg_page (p ++ rest)
      ≡ page (record { bytes = p; granule = from_le_bytes (take 8 (drop 6 p)) }) rest
unfolding read_ogg_page
read_ogg_page-append p rest h =
    rw
      (
        take-append_le 4 p rest (omega (arith, h.long)),
        h.magic,
        byte_at-append 26 p rest (omega (arith, h.long)),
        read_segments-append p rest h,
        read_body-append p rest (omega (arith, h.long)),
      )
      (ground (arith, length-append p rest, h.long))

read_body-shorter :
    (r rest : Bytes) (size : ℕ) (p : OggPage)
    → ogg_page_header_len ≤ size
    → read_body r size ≡ page p rest
    → length rest + ogg_page_header_len ≤ length r
unfolding read_body
read_body-shorter r rest size p h e = ground (arith, length-drop size r)

-- A page that was read took at least its header from the reader.
pub read_ogg_page-shorter :
    (r rest : Bytes) (p : OggPage)
    → read_ogg_page r ≡ page p rest
    → length rest + ogg_page_header_len ≤ length r
unfolding read_ogg_page read_segments
read_ogg_page-shorter r rest p h = ground (
  arith,
  read_body-shorter r rest
      (ogg_page_header_len + byte_at 26 r + sum (take (byte_at 26 r) (drop ogg_page_header_len r)))
      p,
)
