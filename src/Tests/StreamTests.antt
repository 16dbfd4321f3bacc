-- ===== src/Tests/StreamTests.antt =====
-- src/server/stream.rs at a file of two pages, and at a pipe that three pages go through.
use togewire.Prelude.{
  ℕ, ◌+◌, ◌-◌, true, ◌⊎◌, ◌^◌, ◌%◌, ◌≤◌, false, none, List, [], ◌∷◌, ◌++◌, length, take, drop,
  arith, ◌≡◌, ◌≢◌, refl,
}
use togewire.Prelude.Int.{pos}
use togewire.Stream.Pipe.{Bytes, Pipe, new, set_headers, send, send_all, max_burst_buffer}
use togewire.Stream.Backlog.{IsBounded, send-IsBounded, total_len}
use togewire.Stream.Burst.{IsFull}
use togewire.Stream.Listener.{Channel, Event, sends, reads, run, listen}
use togewire.Stream.Heard.{InOrder, pages_of, reads_of, idle_reads, falls_behind, run-listen}
use togewire.Stream.Ogg.{
  page, read_ogg_page, from_le_bytes, sum, empty_tags_page, ogg_crc, tags_page_with,
}
use togewire.Stream.Pump.{pump_ogg, ok, out_of_fuel, is_header, seek_base}
use togewire.Stream.Pages.{IsPage, read_ogg_page-append}
use togewire.Stream.Total.{pump_ogg-ne-out_of_fuel}
use togewire.Stream.Playback.{page_of, join, last_seq, drop_before, never, played, pump_ogg-join}
use togewire.Stream.Tags.{read_ogg_page-empty_tags_page}

abbrev page_with : ℕ → ℕ → Bytes → Bytes
page_with low high body =
    b'O'
    ∷ b'g'
    ∷ b'g'
    ∷ b'S'
    ∷ 0
    ∷ 0
    ∷ low
    ∷ high
    ∷ 0
    ∷ 0
    ∷ 0
    ∷ 0
    ∷ 0
    ∷ 0
    ∷ 7
    ∷ 0
    ∷ 0
    ∷ 0
    ∷ 0
    ∷ 0
    ∷ 0
    ∷ 0
    ∷ 0
    ∷ 0
    ∷ 0
    ∷ 0
    ∷ 1
    ∷ length body
    ∷ body

abbrev head_page : Bytes
head_page = page_with 0 0 (b'O' ∷ b'p' ∷ b'u' ∷ b's' ∷ b'H' ∷ b'e' ∷ b'a' ∷ b'd' ∷ [])

abbrev audio_page : Bytes
audio_page = page_with 192 3 (5 ∷ [])

abbrev late_page : Bytes
late_page = page_with 128 7 (6 ∷ [])

head_page-IsPage : IsPage head_page
unfolding sum
head_page-IsPage = record { magic = refl; long = omega arith; whole = refl }

audio_page-IsPage : IsPage audio_page
unfolding sum
audio_page-IsPage = record { magic = refl; long = omega arith; whole = refl }

late_page-IsPage : IsPage late_page
unfolding sum
late_page-IsPage = record { magic = refl; long = omega arith; whole = refl }

read_ogg_page-append_example :
    read_ogg_page (audio_page ++ late_page)
    ≡ page (record { bytes = audio_page; granule = 960 }) late_page
unfolding from_le_bytes
read_ogg_page-append_example = read_ogg_page-append audio_page late_page audio_page-IsPage

-- Bytes that are no page.
pump_ogg-ne-out_of_fuel_example : pump_ogg (1 ∷ 2 ∷ 3 ∷ []) (pos 0) never (new 64) ≢ out_of_fuel
pump_ogg-ne-out_of_fuel_example = pump_ogg-ne-out_of_fuel (1 ∷ 2 ∷ 3 ∷ []) (pos 0) never (new 64)

pump_ogg-join_example :
    pump_ogg (join (head_page ∷ audio_page ∷ late_page ∷ [])) (pos 30) never (new 64)
    ≡ ok (
        played head_page
          (last_seq (1 ∷ 0 ∷ 0 ∷ 0 ∷ []) [])
          (drop_before (seek_base (pos 30)) (audio_page ∷ late_page ∷ []))
          (new 64))
unfolding is_header page_of from_le_bytes
pump_ogg-join_example =
    pump_ogg-join head_page [] audio_page (late_page ∷ []) (pos 30) (new 64) (head_page-IsPage, tt)
      (refl, tt) (audio_page-IsPage, (late_page-IsPage, tt)) refl

abbrev empty_pipe : Pipe
empty_pipe = record {
  prefix = record { headers = none; burst = []; burst_len = 0 };
  sent = [];
  backlog = 64;
  shutdown = false;
}

empty_pipe-IsBounded : IsBounded empty_pipe.prefix
unfolding total_len
empty_pipe-IsBounded = record { exact = refl; bounded = omega arith }

short : length audio_page ≤ 2 ^ 63
short = omega arith

send-IsBounded_example : IsBounded (send audio_page empty_pipe).prefix
send-IsBounded_example = send-IsBounded audio_page empty_pipe short empty_pipe-IsBounded

-- A channel that holds exactly as many pages as its capacity.
abbrev exact_channel : Channel
exact_channel = record { oldest = λ capacity n. n - capacity }

-- A page that is sent and read, a page that is sent, and two reads, the last for nothing.
abbrev some_events : List Event
some_events = sends late_page ∷ reads ∷ sends audio_page ∷ reads ∷ reads ∷ []

all_read :
    (run exact_channel some_events (new 64, listen (new 64))).1.given ≡ late_page ∷ audio_page ∷ []
unfolding run listen togewire.Stream.Pipe.subscribe new
all_read = refl

lag_skipped :
    (run exact_channel
      (sends late_page ∷ sends audio_page ∷ reads ∷ reads ∷ [])
      (new 1, listen (new 1))).1.given
    ≡ audio_page ∷ []
unfolding run listen togewire.Stream.Pipe.subscribe new
lag_skipped = refl

run-listen_example :
    let p = send_all (audio_page ∷ []) (set_headers head_page (new 64)) in
    let end = run exact_channel some_events (p, listen p) in
    (gone kept got seen pending : List Bytes) × (audio_page ∷ [] ≡ gone ++ kept)
    × (total_len kept ≤ max_burst_buffer)
    × IsFull gone kept
    × ((end.1).given ≡ head_page ∷ (kept ++ got))
    × (pages_of some_events ≡ seen ++ pending)
    × (drop (end.1).cursor (end.0).sent ≡ pending)
    × InOrder got seen
    × ((falls_behind exact_channel some_events (p, listen p) ≡ true) ⊎ (got ≡ seen))
    × (length got + idle_reads exact_channel some_events (p, listen p) ≡ reads_of some_events)
run-listen_example =
    run-listen exact_channel 64 head_page (audio_page ∷ []) some_events (λ capacity n. omega arith)
      (omega arith) (short, tt)

abbrev tags : Bytes
tags = empty_tags_page (7 ∷ 0 ∷ 0 ∷ 0 ∷ []) (1 ∷ 0 ∷ 0 ∷ 0 ∷ [])

read_ogg_page-empty_tags_page_example :
    (read_ogg_page (tags ++ audio_page) ≡ page (record { bytes = tags; granule = 0 }) audio_page)
    × (take 4 (drop 14 tags) ≡ 7 ∷ 0 ∷ 0 ∷ 0 ∷ [])
    × (take 4 (drop 18 tags) ≡ 1 ∷ 0 ∷ 0 ∷ 0 ∷ [])
    × (from_le_bytes (take 4 (drop 22 tags))
        ≡ ogg_crc (tags_page_with (7 ∷ 0 ∷ 0 ∷ 0 ∷ []) (1 ∷ 0 ∷ 0 ∷ 0 ∷ []) (0 ∷ 0 ∷ 0 ∷ 0 ∷ []))
          % 2 ^ 32)
read_ogg_page-empty_tags_page_example = read_ogg_page-empty_tags_page 7 0 0 0 1 0 0 0 audio_page
