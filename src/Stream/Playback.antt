-- ===== src/Stream/Playback.antt =====
-- src/server/stream.rs: what `pump_ogg` sends for a file that is a sequence of pages.
use togewire.Prelude.{
  ℕ, zero, suc, ◌+◌, ◌≤◌, ◌<◌, ◌≡◌, refl, ap, ◌∙◌, Bool, true, false, none, some, List, [], ◌∷◌,
  ◌++◌, length, length-append, take, drop, ltb, arith, if◌then◌else◌,
}
use togewire.Prelude.Int.{ℤ}
use togewire.Stream.Pipe.{Bytes, Pipe, set_headers, send, send_all}
use togewire.Stream.Ogg.{OggPage, page, end_of_file, from_le_bytes, read_ogg_page, empty_tags_page}
use togewire.Stream.Pump.{
  Sought, found, ended, ok, is_header, read_headers, seek, send_pages, seek_base, play_found,
  play_headers, pump_ogg,
}
use togewire.Stream.Pages.{IsPage, read_ogg_page-append}

-- A file as its pages.
unfoldable pub join : List Bytes → Bytes
join [] = []
join (b ∷ bs) = b ++ join bs

unfoldable pub page_of : Bytes → OggPage
page_of b = record { bytes = b; granule = from_le_bytes (take 8 (drop 6 b)) }

abbrev pub AllPages : List Bytes → Type 0
AllPages [] = Unit {0}
AllPages (b ∷ bs) = IsPage b × AllPages bs

abbrev pub AllHeaders : List Bytes → Type 0
AllHeaders [] = Unit {0}
AllHeaders (b ∷ bs) = (is_header (page_of b) ≡ true) × AllHeaders bs

read-join :
    (b : Bytes) (bs : List Bytes)
    → IsPage b
    → read_ogg_page (join (b ∷ bs)) ≡ page (page_of b) (join bs)
unfolding join page_of
read-join b bs h = read_ogg_page-append b (join bs) h

read-join-nil : read_ogg_page (join []) ≡ end_of_file
unfolding join read_ogg_page
read-join-nil = refl

length-le-length-join : (bs : List Bytes) → AllPages bs → length bs ≤ length (join bs)
unfolding join
length-le-length-join [] h = omega arith
length-le-length-join (b ∷ bs) h =
    omega (arith, length-append b (join bs), h.0.long, length-le-length-join bs h.1)

-- The sequence number of the last later header page.
unfoldable pub last_seq : Bytes → List Bytes → Bytes
last_seq seq [] = seq
last_seq seq (b ∷ bs) = last_seq (take 4 (drop 18 b)) bs

-- One round of the header loop.
module _ (fuel : ℕ) (r seq rest : Bytes) (p : OggPage) (read : read_ogg_page r ≡ page p rest) where
  read_headers-first :
      is_header p ≡ true
      → read_headers (suc fuel) r none seq ≡ read_headers fuel rest (some p.bytes) seq
  unfolding read_headers
  read_headers-first h = ground arith

  read_headers-later :
      (head : Bytes)
      → is_header p ≡ true
      → read_headers (suc fuel) r (some head) seq
        ≡ read_headers fuel rest (some head) (take 4 (drop 18 p.bytes))
  unfolding read_headers
  read_headers-later head h = ground arith

  read_headers-end :
      (head : Bytes)
      → is_header p ≡ false
      → read_headers (suc fuel) r (some head) seq ≡ found head seq p rest
  unfolding read_headers
  read_headers-end head h = ground arith

read_headers-join :
    (fuel : ℕ) (h seq : Bytes) (more : List Bytes) (a : Bytes) (rest : List Bytes)
    → length more < fuel
    → AllPages more
    → AllHeaders more
    → IsPage a
    → is_header (page_of a) ≡ false
    → read_headers fuel (join (more ++ a ∷ rest)) (some h) seq
      ≡ found h (last_seq seq more) (page_of a) (join rest)
unfolding last_seq page_of
read_headers-join zero h seq more a rest f p q pa qa = absurd (omega arith)
read_headers-join (suc fuel) h seq [] a rest f p q pa qa =
    read_headers-end fuel _ seq _ _ (read-join a rest pa) h qa
read_headers-join (suc fuel) h seq (m ∷ more) a rest f p q pa qa =
    read_headers-later fuel _ seq _ _ (read-join m (more ++ a ∷ rest) p.0) h q.0
    ∙ read_headers-join fuel h (take 4 (drop 18 m)) more a rest (omega arith) p.1 q.1 pa qa

-- The pages from the first one at or after `base` on.
unfoldable pub drop_before : ℕ → List Bytes → List Bytes
drop_before base [] = []
drop_before base (b ∷ bs) = if ltb (page_of b).granule base then drop_before base bs else b ∷ bs

found_at : Bytes → Bytes → List Bytes → Sought
found_at h seq [] = ended
found_at h seq (b ∷ bs) = found h seq (page_of b) (join bs)

seek-join :
    (fuel base : ℕ) (h seq a : Bytes) (rest : List Bytes)
    → length rest < fuel
    → AllPages rest
    → seek fuel base h seq (page_of a) (join rest) ≡ found_at h seq (drop_before base (a ∷ rest))
unfolding seek drop_before found_at
seek-join zero base h seq a rest f p = absurd (omega arith)
seek-join (suc fuel) base h seq a [] f p = ground (arith, read-join-nil)
seek-join (suc fuel) base h seq a (b ∷ rest) f p =
    ground (arith, read-join b rest p.0, seek-join fuel base h seq b rest (omega arith) p.1)

abbrev pub never : ℕ → Bool
never _ = false

send_pages-join :
    (fuel round : ℕ) (pipe : Pipe) (a : Bytes) (rest : List Bytes)
    → length rest < fuel
    → AllPages rest
    → send_pages fuel never round pipe (page_of a) (join rest) ≡ ok (send_all (a ∷ rest) pipe)
unfolding send_pages send_all page_of
send_pages-join zero round pipe a rest f p = absurd (omega arith)
send_pages-join (suc fuel) round pipe a [] f p = ground (arith, read-join-nil)
send_pages-join (suc fuel) round pipe a (b ∷ rest) f p = ground (
  arith,
  read-join b rest p.0,
  send_pages-join fuel (round + 1) (send a pipe) b rest (omega arith) p.1,
)

-- What a playback of the pages `kept` leaves in the pipe.
unfoldable pub played : Bytes → Bytes → List Bytes → Pipe → Pipe
played head seq [] pipe = pipe
played head seq (b ∷ bs) pipe =
    send_all (b ∷ bs) (set_headers (head ++ empty_tags_page (take 4 (drop 14 head)) seq) pipe)

AllPages-drop_before : (base : ℕ) (bs : List Bytes) → AllPages bs → AllPages (drop_before base bs)
unfolding drop_before
AllPages-drop_before base [] h = tt
AllPages-drop_before base (b ∷ bs) h = ground (arith, AllPages-drop_before base bs h.1)

play_found-join :
    (pipe : Pipe) (h seq : Bytes) (kept : List Bytes)
    → AllPages kept
    → play_found never pipe (found_at h seq kept) ≡ ok (played h seq kept pipe)
unfolding play_found found_at played
play_found-join pipe h seq [] p = refl
play_found-join pipe h seq (b ∷ bs) p =
    send_pages-join (suc (length (join bs))) 0 _ b bs (omega (arith, length-le-length-join bs p.1))
      p.1

AllPages-append : (xs ys : List Bytes) → AllPages xs → AllPages ys → AllPages (xs ++ ys)
AllPages-append [] ys p q = q
AllPages-append (x ∷ xs) ys p q = (p.0, AllPages-append xs ys p.1 q)

-- A file of pages, its headers first, is played from the first page at or after the seek point on:
-- the first header page with an empty tags page behind it, in place of the other headers, and then
-- each page as it stands, up to the end.
pub pump_ogg-join :
    (head : Bytes) (more : List Bytes) (a : Bytes) (rest : List Bytes) (seek_ms : ℤ) (pipe : Pipe)
    → AllPages (head ∷ more)
    → AllHeaders (head ∷ more)
    → AllPages (a ∷ rest)
    → is_header (page_of a) ≡ false
    → pump_ogg (join (head ∷ more ++ a ∷ rest)) seek_ms never pipe
      ≡ ok (
          played head
            (last_seq (1 ∷ 0 ∷ 0 ∷ 0 ∷ []) more)
            (drop_before (seek_base seek_ms) (a ∷ rest))
            pipe)
unfolding pump_ogg page_of
pump_ogg-join head more a rest seek_ms pipe p q pa qa =
    ap (play_headers seek_ms never pipe) (
      read_headers-first _ _ _ _ _ (read-join head (more ++ a ∷ rest) p.0) q.0
      ∙ read_headers-join _ head _ more a rest room p.1 q.1 pa.0 qa)
    ∙ from_seek
  where
    room : length more < length (join (head ∷ more ++ a ∷ rest))
    room = omega (
      arith,
      length-append more (a ∷ rest),
      length-le-length-join (head ∷ more ++ a ∷ rest)
          (AllPages-append (head ∷ more) (a ∷ rest) p pa),
    )

    from_seek :
        play_headers seek_ms never pipe
          (found head (last_seq (1 ∷ 0 ∷ 0 ∷ 0 ∷ []) more) (page_of a) (join rest))
        ≡ ok (
            played head
              (last_seq (1 ∷ 0 ∷ 0 ∷ 0 ∷ []) more)
              (drop_before (seek_base seek_ms) (a ∷ rest))
              pipe)
    from_seek =
        unfold play_headers in
        ap (play_found never pipe) (
          seek-join _ (seek_base seek_ms) head _ a rest
            (omega (arith, length-le-length-join rest pa.1)) pa.1)
        ∙ play_found-join pipe head _ _ (AllPages-drop_before _ (a ∷ rest) pa)
