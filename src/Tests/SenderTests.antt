-- ===== src/Tests/SenderTests.antt =====
-- src/bin/togedemon.rs at a long silence.
use togewire.Prelude.{ℕ, zero, suc, ◌≡◌, refl, true, List, [], ◌∷◌, if◌then◌else◌}
use togewire.Togedemon.Sender.{read}
use togewire.Togedemon.Silence.{after_reads, is_silence, read-eq_silence}

abbrev small_chunks : ℕ → List (ℕ × ℕ)
small_chunks zero = []
small_chunks (suc n) = (9000, 50) ∷ small_chunks n

abbrev silence : List (ℕ × ℕ)
silence = small_chunks 128

silence_ends : is_silence 0 silence 9000 50 ≡ true
silence_ends = refl

read-eq_silence_example :
    (read 9000 50 (after_reads 0 silence)).1 ≡ (if is_silence 0 silence 9000 50 then 0 else 50)
read-eq_silence_example = read-eq_silence 0 silence 9000 50 refl
