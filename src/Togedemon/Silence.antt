-- ===== src/Togedemon/Silence.antt =====
-- src/bin/togedemon.rs: an upload is cut off exactly after a long run of small chunks.
use togewire.Prelude.{
  ℕ, ◌+◌, ◌≡◌, refl, Bool, true, false, ◌&&◌, List, [], ◌∷◌, arith, ltb, leb, if◌then◌else◌,
}
use togewire.Togedemon.Sender.{
  SilenceCutoff, read, elapsed_secs, silent_chunk_bytes, silence_chunks_limit, silence_timeout_secs,
}

-- The state of a new upload, and after reads, newest first, each with its time and its bytes.
abbrev pub fresh : ℕ → SilenceCutoff
fresh start = record { silent_chunks = 0; last_audio = start; silenced = false }

unfoldable pub after_reads : ℕ → List (ℕ × ℕ) → SilenceCutoff
unfolding read
after_reads start [] = fresh start
after_reads start ((now, n) ∷ older) = (read now n (after_reads start older)).0

-- How many small chunks came since the last one of 100 bytes or more, and when that one came.
abbrev pub small_since : List (ℕ × ℕ) → ℕ
small_since [] = 0
small_since ((now, n) ∷ older) =
    let before = small_since older in
    if leb silent_chunk_bytes n then 0 else if ltb 0 n then before + 1 else before

abbrev pub last_loud : ℕ → List (ℕ × ℕ) → ℕ
last_loud start [] = start
last_loud start ((now, n) ∷ older) =
    let before = last_loud start older in if leb silent_chunk_bytes n then now else before

small_since-after_reads :
    (start : ℕ) (h : List (ℕ × ℕ)) → (after_reads start h).silent_chunks ≡ small_since h
unfolding after_reads read
small_since-after_reads start [] = refl
small_since-after_reads start ((now, n) ∷ older) =
    let ih = small_since-after_reads start older in ground arith

last_loud-after_reads :
    (start : ℕ) (h : List (ℕ × ℕ)) → (after_reads start h).last_audio ≡ last_loud start h
unfolding after_reads read
last_loud-after_reads start [] = refl
last_loud-after_reads start ((now, n) ∷ older) =
    let ih = last_loud-after_reads start older in ground arith

-- The 129th small chunk in a row, or a later one, five seconds or more after the last loud one.
abbrev pub is_silence : ℕ → List (ℕ × ℕ) → ℕ → ℕ → Bool
is_silence start h now n =
    ltb n silent_chunk_bytes
    && ltb silence_chunks_limit (small_since h + 1)
    && leb silence_timeout_secs (elapsed_secs now (last_loud start h))

-- After any reads of an upload, the next one that gets bytes is handed on as it is, except that it ends
-- the upload if it is the 129th small chunk in a row or a later one and the last chunk of 100 bytes or
-- more, or the start, is at least five seconds ago.
pub read-eq_silence :
    (start : ℕ) (h : List (ℕ × ℕ)) (now n : ℕ)
    → ltb 0 n ≡ true
    → (read now n (after_reads start h)).1 ≡ (if is_silence start h now n then 0 else n)
unfolding read
read-eq_silence start h now n some_bytes =
    let count = small_since-after_reads start h in
    let time = last_loud-after_reads start h in ground arith
