-- ===== src/Audio/CoverLaws.antt =====
-- src/audio/mod.rs: the size of a JPEG image is that of its first frame header.
use togewire.Prelude.{
  ◌≡◌, refl, ◌∙◌, ap, ℕ, zero, suc, ◌+◌, ◌/◌, ◌%◌, ◌≤◌, ◌<◌, Bool, true, false, not, ◌&&◌, ◌||◌,
  some, List, [], ◌∷◌, ◌++◌, ◌==◌, ltb, leb, length, length-append, drop, arith,
}
use togewire.Stream.Pipe.{Bytes}
use togewire.Stream.Pages.{drop-length}
use togewire.Audio.Covers.{
  be_from, skip_fill, frame, go_on, segment_at, walk_segments, image_dimensions,
}

-- A segment that is not a frame header, and whether a file may have it before the frame header.
pub record Chunk : Type 0 where
  pub marker : ℕ
  pub body : Bytes

abbrev pub is_passed : ℕ → Bool
is_passed m = not ((leb 192 m && leb m 194) || (m == 218 || m == 217) || m == 255)

pub data Passed : List Chunk → Type 0 where
  nothing : Passed []
  passed :
      {c : Chunk} {cs : List Chunk}
      → is_passed c.marker ≡ true
      → length c.body < 65534
      → Passed cs
      → Passed (c ∷ cs)

-- The bytes of a file from its segments on.
unfoldable pub encode : List Chunk → Bytes → Bytes
encode [] rest = rest
encode (c ∷ cs) rest =
    255
    ∷ c.marker
    ∷ ((length c.body + 2) / 256)
    ∷ ((length c.body + 2) % 256)
    ∷ (c.body ++ encode cs rest)

abbrev pub frame_header : ℕ → ℕ → ℕ → ℕ → ℕ → Bytes → Bytes
frame_header m len depth width height rest =
    255
    ∷ m
    ∷ (len / 256)
    ∷ (len % 256)
    ∷ depth
    ∷ (height / 256)
    ∷ (height % 256)
    ∷ (width / 256)
    ∷ (width % 256)
    ∷ rest

encode-long : (cs : List Chunk) (rest : Bytes) → 8 < length rest → 8 < length (encode cs rest)
unfolding encode
encode-long [] rest h = h
encode-long (c ∷ cs) rest h =
    let ih = encode-long cs rest h in let sum = length-append c.body (encode cs rest) in omega arith

two_bytes : (n : ℕ) → be_from 0 ((n / 256) ∷ (n % 256) ∷ []) ≡ n
unfolding be_from
two_bytes n = omega arith

long_enough : (n : ℕ) → 8 < n → leb n 8 ≡ false
long_enough n h = ground arith

skip_fill-marker :
    (m : ℕ) (bs : Bytes) → (m == 255) ≡ false → skip_fill (255 ∷ m ∷ bs) ≡ 255 ∷ m ∷ bs
unfolding skip_fill
skip_fill-marker m bs h = rw h refl

walk-go_on :
    (fuel m len : ℕ) (bs : Bytes)
    → (m == 255) ≡ false
    → 8 < length (255 ∷ m ∷ bs)
    → segment_at (255 ∷ m ∷ bs) ≡ go_on len
    → walk_segments (suc fuel) (255 ∷ m ∷ bs) ≡ walk_segments fuel (drop len (255 ∷ m ∷ bs))
unfolding walk_segments
walk-go_on fuel m len bs n h s =
    rw (skip_fill-marker m bs n, long_enough (length (255 ∷ m ∷ bs)) h, s)
      (rw (skip_fill-marker m bs n) refl)

walk-found :
    (fuel m width height : ℕ) (bs : Bytes)
    → (m == 255) ≡ false
    → 8 < length (255 ∷ m ∷ bs)
    → segment_at (255 ∷ m ∷ bs) ≡ frame width height
    → walk_segments (suc fuel) (255 ∷ m ∷ bs) ≡ some (width, height)
unfolding walk_segments
walk-found fuel m width height bs n h s =
    rw (skip_fill-marker m bs n, long_enough (length (255 ∷ m ∷ bs)) h, s) refl

none_of : (a b c : Bool) → not (a || b || c) ≡ true → (a ≡ false) × (b ≡ false) × (c ≡ false)
none_of true b c h = absurd (cc)
none_of false true c h = absurd (cc)
none_of false false true h = absurd (cc)
none_of false false false h = (refl, refl, refl)

passed_parts :
    (m : ℕ)
    → is_passed m ≡ true
    → ((leb 192 m && leb m 194) ≡ false) × ((m == 218 || m == 217) ≡ false) × ((m == 255) ≡ false)
passed_parts m h = none_of (leb 192 m && leb m 194) (m == 218 || m == 217) (m == 255) h

at_least_two : (n : ℕ) → 2 ≤ n → ltb n 2 ≡ false
at_least_two n h = ground arith

segment_at-chunk :
    (m n : ℕ) (more : Bytes)
    → is_passed m ≡ true
    → n < 65536
    → 2 ≤ n
    → segment_at (255 ∷ m ∷ (n / 256) ∷ (n % 256) ∷ more) ≡ go_on (2 + n)
unfolding segment_at
segment_at-chunk m n more p h l =
    let (a, b, c) = passed_parts m p in rw (a, b, two_bytes n, at_least_two n l) refl

segment_at-frame :
    (m len depth width height : ℕ) (rest : Bytes)
    → (leb 192 m && leb m 194) ≡ true
    → segment_at (frame_header m len depth width height rest) ≡ frame width height
unfolding segment_at
segment_at-frame m len depth width height rest f = rw (f, two_bytes width, two_bytes height) refl

frame_marker : (m : ℕ) → (leb 192 m && leb m 194) ≡ true → (m == 255) ≡ false
frame_marker m h = ground arith

skip_four :
    (a b c d : ℕ) (xs ys : Bytes) → drop (2 + (length xs + 2)) (a ∷ b ∷ c ∷ d ∷ (xs ++ ys)) ≡ ys
skip_four a b c d xs ys =
    let four : 2 + (length xs + 2) ≡ suc (suc (suc (suc (length xs)))) = omega arith in
    ap (λ k. drop k (a ∷ b ∷ c ∷ d ∷ (xs ++ ys))) four ∙ drop-length xs ys

walk-chunk :
    (fuel : ℕ) (c : Chunk) (more : Bytes)
    → is_passed c.marker ≡ true
    → length c.body < 65534
    → 8 < length more
    → walk_segments (suc fuel) (
        255
        ∷ c.marker
        ∷ ((length c.body + 2) / 256)
        ∷ ((length c.body + 2) % 256)
        ∷ (c.body ++ more))
      ≡ walk_segments fuel more
walk-chunk fuel c more p small h =
    let (a, b, n) = passed_parts c.marker p in
    let sum = length-append c.body more in
    let step =
      walk-go_on fuel c.marker (2 + (length c.body + 2))
        (((length c.body + 2) / 256) ∷ ((length c.body + 2) % 256) ∷ (c.body ++ more)) n
        (omega arith)
        (segment_at-chunk c.marker (length c.body + 2) (c.body ++ more) p (omega arith)
          (omega arith)) in
    step
    ∙ ap (walk_segments fuel)
        (skip_four 255 c.marker ((length c.body + 2) / 256) ((length c.body + 2) % 256) c.body more)

walk-encode :
    (cs : List Chunk) (fuel m len depth width height : ℕ) (rest : Bytes)
    → Passed cs
    → (leb 192 m && leb m 194) ≡ true
    → length cs < fuel
    → walk_segments fuel (encode cs (frame_header m len depth width height rest))
      ≡ some (width, height)
unfolding encode
walk-encode cs zero m len depth width height rest p f h =
    let bad : length cs < 0 = h in absurd (omega arith)
walk-encode [] (suc fuel) m len depth width height rest p f h =
    walk-found fuel m width height (drop 2 (frame_header m len depth width height rest))
      (frame_marker m f) (omega arith) (segment_at-frame m len depth width height rest f)
walk-encode (c ∷ cs) (suc fuel) m len depth width height rest (passed q small p) f h =
    walk-chunk fuel c (encode cs (frame_header m len depth width height rest)) q small
      (encode-long cs (frame_header m len depth width height rest) (omega arith))
    ∙ walk-encode cs fuel m len depth width height rest p f (omega arith)

length-encode :
    (cs : List Chunk) (rest : Bytes) → 0 < length rest → length cs < length (encode cs rest)
unfolding encode
length-encode [] rest h = h
length-encode (c ∷ cs) rest h =
    let ih = length-encode cs rest h in
    let sum = length-append c.body (encode cs rest) in omega arith

-- A JPEG image of any segments that fit their lengths, none of which is a frame header or an end, and
-- then a frame header of a kind that is read has that header's width and height.
pub image_dimensions-encode :
    (cs : List Chunk) (m len depth width height : ℕ) (rest : Bytes)
    → Passed cs
    → (leb 192 m && leb m 194) ≡ true
    → image_dimensions (255 ∷ 216 ∷ encode cs (frame_header m len depth width height rest))
      ≡ some (width, height)
unfolding image_dimensions
image_dimensions-encode cs m len depth width height rest p f =
    let header = frame_header m len depth width height rest in
    let long = length-encode cs header (omega arith) in
    walk-encode cs (suc (suc (length (encode cs header)))) m len depth width height rest p f
      (omega arith)
