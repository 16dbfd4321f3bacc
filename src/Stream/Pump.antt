-- ===== src/Stream/Pump.antt =====
-- src/server/stream.rs: `pump_ogg`, which feeds the pages of a reader into a pipe.
use togewire.Prelude.{
  ℕ, zero, suc, ◌+◌, ◌-◌, ◌*◌, ◌/◌, ◌%◌, Bool, true, false, Option, none, some, ◌++◌, length, take,
  drop, ltb, ◌==◌, ◌||◌, [], ◌∷◌,
}
use togewire.Prelude.Int.{ℤ, pos_part}
use togewire.Prelude.Words.{u64_modulus}
use togewire.Stream.Pipe.{Bytes, Pipe, set_headers, send}
use togewire.Stream.Ogg.{OggPage, page, end_of_file, failed, read_ogg_page, empty_tags_page}

abbrev pub opus_rate : ℕ
opus_rate = 48_000

-- Header pages carry granule 0, or -1 while a packet continues.
unfoldable pub is_header : OggPage → Bool
is_header p = p.granule == 0 || p.granule == u64_modulus - 1

-- How a loop ends: it goes on with a page and the rest of the reader, ends well, or with an error.
-- `no_fuel` stands for a loop that takes more rounds than it was given.
pub data Sought : Type 0 where
  found : Bytes → Bytes → OggPage → Bytes → Sought
  ended : Sought
  broken : Sought
  no_fuel : Sought

-- The header loop: the first header page, the sequence number of the last later one, and the first
-- page after them.
unfoldable pub read_headers : ℕ → Bytes → Option Bytes → Bytes → Sought
read_headers zero r head tags_seq = no_fuel
read_headers (suc fuel) r head tags_seq = elim (read_ogg_page r) [
  | end_of_file ↦ broken
  | failed ↦ broken
  | page p rest ↦ elim (is_header p) [
    | true ↦ elim head [
      | none ↦ read_headers fuel rest (some p.bytes) tags_seq
      | some h ↦ read_headers fuel rest (some h) (take 4 (drop 18 p.bytes))
    ]
    | false ↦ elim head [ none ↦ broken | some h ↦ found h tags_seq p rest ]
  ]
]

-- `while page.granule < base`
unfoldable pub seek : ℕ → ℕ → Bytes → Bytes → OggPage → Bytes → Sought
seek zero base head tags_seq p r = no_fuel
seek (suc fuel) base head tags_seq p r = elim (ltb p.granule base) [
  | false ↦ found head tags_seq p r
  | true ↦ elim (read_ogg_page r) [
    | end_of_file ↦ ended
    | failed ↦ broken
    | page next rest ↦ seek fuel base head tags_seq next rest
  ]
]

pub data Outcome : Type 0 where
  ok : Pipe → Outcome
  error : Pipe → Outcome
  out_of_fuel : Outcome

-- The sending loop. `retired` tells whether the pipe is found retired at a point: before the page of
-- a round, or while the next one is read.
unfoldable pub send_pages : ℕ → (ℕ → Bool) → ℕ → Pipe → OggPage → Bytes → Outcome
send_pages zero retired round pipe p r = out_of_fuel
send_pages (suc fuel) retired round pipe p r = elim (retired (2 * round)) [
  | true ↦ ok pipe
  | false ↦
      let pipe' = send p.bytes pipe in
      elim (retired (2 * round + 1)) [
        | true ↦ ok pipe'
        | false ↦ elim (read_ogg_page r) [
          | end_of_file ↦ ok pipe'
          | failed ↦ error pipe'
          | page next rest ↦ send_pages fuel retired (round + 1) pipe' next rest
        ]
      ]
]

-- Everything streamed is Opus, whose granule clock is always 48 kHz.
unfoldable pub seek_base : ℤ → ℕ
seek_base seek_ms = pos_part seek_ms * opus_rate % u64_modulus / 1000

-- From the page that the seek ends at: the headers with emptied tags, then the pages.
unfoldable pub play_found : (ℕ → Bool) → Pipe → Sought → Outcome
play_found retired pipe ended = ok pipe
play_found retired pipe broken = error pipe
play_found retired pipe no_fuel = out_of_fuel
play_found retired pipe (found head tags_seq p r) =
    send_pages (suc (length r)) retired 0
      (set_headers (head ++ empty_tags_page (take 4 (drop 14 head)) tags_seq) pipe) p r

-- From the first page behind the headers.
unfoldable pub play_headers : ℤ → (ℕ → Bool) → Pipe → Sought → Outcome
play_headers seek_ms retired pipe ended = error pipe
play_headers seek_ms retired pipe broken = error pipe
play_headers seek_ms retired pipe no_fuel = out_of_fuel
play_headers seek_ms retired pipe (found head tags_seq p r) =
    play_found retired pipe (seek (suc (length r)) (seek_base seek_ms) head tags_seq p r)

unfoldable pub pump_ogg : Bytes → ℤ → (ℕ → Bool) → Pipe → Outcome
pump_ogg r seek_ms retired pipe =
    play_headers seek_ms retired pipe (read_headers (suc (length r)) r none (1 ∷ 0 ∷ 0 ∷ 0 ∷ []))
