-- ===== src/Server/Polling.antt =====
-- src/server/workers.rs: how often Spotify is asked.
use togewire.Prelude.{ℕ, ◌+◌, ◌≤◌, true, List, [], ◌∷◌, arith, ◌≡◌, ◌⊎◌, ◌==◌, if◌then◌else◌}
use togewire.Prelude.Int.{ℤ, pos, negsuc, ◌-ℤ◌}
use togewire.Prelude.Words.{wrap_i64}
use togewire.Server.Monitor.{
  compute_poll_interval, in_range, poll_interval_steady, poll_interval_fast,
}

-- How many of the polls of a playing track, given by their durations and positions, come fast.
unfoldable pub fast_intervals : List (ℤ × ℤ) → ℕ → ℕ → ℕ
fast_intervals [] near fast = 0
fast_intervals ((duration, progress) ∷ ps) near fast =
    let r = compute_poll_interval true duration progress near fast in
    (if r.2 == poll_interval_fast then 1 else 0) + fast_intervals ps r.0 r.1

-- Each poll is at most 2.5 s before the end of the track and at most a second after it.
unfoldable pub IsNearEnd : List (ℤ × ℤ) → Type 0
IsNearEnd [] = 1 ≤ 1
IsNearEnd ((duration, progress) ∷ ps) =
    (in_range (negsuc 999) (pos 2500) (wrap_i64 (duration -ℤ progress)) ≡ true) × IsNearEnd ps

one_poll :
    (duration progress : ℤ) (near fast : ℕ)
    → near ≤ 8
    → in_range (negsuc 999) (pos 2500) (wrap_i64 (duration -ℤ progress)) ≡ true
    → let r = compute_poll_interval true duration progress near fast in
      (r.0 ≤ 8)
      × (((r.2 ≡ poll_interval_fast) × (r.0 ≡ near + 1) × (r.1 ≡ fast))
          ⊎ ((r.2 ≡ poll_interval_fast) × (r.0 ≡ near) × (r.1 + 1 ≡ fast))
          ⊎ ((r.2 ≡ poll_interval_steady) × (r.0 ≡ near) × (r.1 ≡ fast)))
unfolding compute_poll_interval
one_poll duration progress near fast h w = ground arith

-- Around the end of a playing track, however long it is polled there, the polls that come fast
-- are at most those that are left of eight, and those that are due after a change.
pub fast_intervals-bounded :
    (ps : List (ℤ × ℤ)) (near fast : ℕ)
    → near ≤ 8
    → IsNearEnd ps
    → fast_intervals ps near fast + near ≤ 8 + fast
unfolding fast_intervals IsNearEnd
fast_intervals-bounded [] near fast h w = omega arith
fast_intervals-bounded ((duration, progress) ∷ ps) near fast h (w, ws) =
    let (b, cases) = one_poll duration progress near fast h w in
    let r = compute_poll_interval true duration progress near fast in
    let ih = fast_intervals-bounded ps r.0 r.1 b ws in ground arith
