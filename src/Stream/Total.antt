-- ===== src/Stream/Total.antt =====
-- src/server/stream.rs: the loops of `pump_ogg` end on every input.
use togewire.Prelude.{
  ℕ, zero, suc, ◌+◌, ◌<◌, ◌≡◌, ◌≢◌, refl, Bool, Option, none, some, [], ◌∷◌, length, take, drop,
  arith, inl, inr, ◌⊎◌,
}
use togewire.Prelude.Int.{ℤ}
use togewire.Stream.Pipe.{Bytes, Pipe, send}
use togewire.Stream.Ogg.{OggPage, ReadResult, page, end_of_file, failed, read_ogg_page}
use togewire.Stream.Pump.{
  Sought, found, ended, broken, no_fuel, out_of_fuel, read_headers, seek, send_pages, pump_ogg,
  play_found, play_headers, seek_base,
}
use togewire.Stream.Pages.{read_ogg_page-shorter}

pub Read-cases :
    (r : ReadResult)
    → (r ≡ end_of_file) ⊎ (r ≡ failed) ⊎ ((p : OggPage) × (rest : Bytes) × (r ≡ page p rest))
Read-cases end_of_file = inl refl
Read-cases failed = inr (inl refl)
Read-cases (page p rest) = inr (inr (p, rest, refl))

read_headers-ne-no_fuel :
    (fuel : ℕ) (r : Bytes) (head : Option Bytes) (seq : Bytes)
    → length r < fuel
    → read_headers fuel r head seq ≢ no_fuel
unfolding read_headers
read_headers-ne-no_fuel zero r head seq h = absurd (omega arith)
read_headers-ne-no_fuel (suc fuel) r none seq h = elim (Read-cases (read_ogg_page r)) [
  | inl e ↦ ground arith
  | inr (inl e) ↦ ground arith
  | inr (inr (p, rest, e)) ↦ ground (
    arith,
    read_ogg_page-shorter r rest p e,
    read_headers-ne-no_fuel fuel rest (some p.bytes) seq,
  )
]
read_headers-ne-no_fuel (suc fuel) r (some hd) seq h = elim (Read-cases (read_ogg_page r)) [
  | inl e ↦ ground arith
  | inr (inl e) ↦ ground arith
  | inr (inr (p, rest, e)) ↦ ground (
    arith,
    read_ogg_page-shorter r rest p e,
    read_headers-ne-no_fuel fuel rest (some hd) (take 4 (drop 18 p.bytes)),
  )
]

seek-ne-no_fuel :
    (fuel base : ℕ) (head seq : Bytes) (p : OggPage) (r : Bytes)
    → length r < fuel
    → seek fuel base head seq p r ≢ no_fuel
unfolding seek
seek-ne-no_fuel zero base head seq p r h = absurd (omega arith)
seek-ne-no_fuel (suc fuel) base head seq p r h = elim (Read-cases (read_ogg_page r)) [
  | inl e ↦ ground arith
  | inr (inl e) ↦ ground arith
  | inr (inr (next, rest, e)) ↦
      ground
        (arith, read_ogg_page-shorter r rest next e, seek-ne-no_fuel fuel base head seq next rest)
]

send_pages-ne-out_of_fuel :
    (fuel : ℕ) (retired : ℕ → Bool) (round : ℕ) (pipe : Pipe) (p : OggPage) (r : Bytes)
    → length r < fuel
    → send_pages fuel retired round pipe p r ≢ out_of_fuel
unfolding send_pages
send_pages-ne-out_of_fuel zero retired round pipe p r h = absurd (omega arith)
send_pages-ne-out_of_fuel (suc fuel) retired round pipe p r h =
    elim (Read-cases (read_ogg_page r)) [
      | inl e ↦ ground arith
      | inr (inl e) ↦ ground arith
      | inr (inr (next, rest, e)) ↦ ground (
        arith,
        read_ogg_page-shorter r rest next e,
        send_pages-ne-out_of_fuel fuel retired (round + 1) (send p.bytes pipe) next rest,
      )
    ]

play_found-ne-out_of_fuel :
    (retired : ℕ → Bool) (pipe : Pipe) (s : Sought)
    → s ≢ no_fuel
    → play_found retired pipe s ≢ out_of_fuel
unfolding play_found
play_found-ne-out_of_fuel retired pipe ended h = λ q. cc
play_found-ne-out_of_fuel retired pipe broken h = λ q. cc
play_found-ne-out_of_fuel retired pipe no_fuel h = absurd (h refl)
play_found-ne-out_of_fuel retired pipe (found head seq p r) h =
    send_pages-ne-out_of_fuel (suc (length r)) retired 0 _ p r (omega arith)

play_headers-ne-out_of_fuel :
    (seek_ms : ℤ) (retired : ℕ → Bool) (pipe : Pipe) (s : Sought)
    → s ≢ no_fuel
    → play_headers seek_ms retired pipe s ≢ out_of_fuel
unfolding play_headers
play_headers-ne-out_of_fuel seek_ms retired pipe ended h = λ q. cc
play_headers-ne-out_of_fuel seek_ms retired pipe broken h = λ q. cc
play_headers-ne-out_of_fuel seek_ms retired pipe no_fuel h = absurd (h refl)
play_headers-ne-out_of_fuel seek_ms retired pipe (found head seq p r) h =
    play_found-ne-out_of_fuel retired pipe _
      (seek-ne-no_fuel (suc (length r)) (seek_base seek_ms) head seq p r (omega arith))

-- The pump ends on every input, also on one that is no Ogg stream, wherever the pipe is retired.
pub pump_ogg-ne-out_of_fuel :
    (r : Bytes) (seek_ms : ℤ) (retired : ℕ → Bool) (pipe : Pipe)
    → pump_ogg r seek_ms retired pipe ≢ out_of_fuel
unfolding pump_ogg
pump_ogg-ne-out_of_fuel r seek_ms retired pipe =
    play_headers-ne-out_of_fuel seek_ms retired pipe _
      (read_headers-ne-no_fuel (suc (length r)) r none (1 ∷ 0 ∷ 0 ∷ 0 ∷ []) (omega arith))
