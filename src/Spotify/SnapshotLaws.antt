-- ===== src/Spotify/SnapshotLaws.antt =====
-- src/spotify/parsing.rs: the times of a snapshot.
use togewire.Prelude.{
  ℕ, ◌≡◌, refl, ◌∙◌, sym, none, some, List, [], ◌∷◌, Text, arith, Option-cases, inl, inr, codes,
}
use togewire.Prelude.Decimal.{at_most}
use togewire.Prelude.Int.{ℤ, pos, ◌≤ℤ◌, ◌+ℤ◌, ◌-ℤ◌}
use togewire.Prelude.Words.{i64_max, as_i64, wrap_i64, wrap_i64-IsI64}
use togewire.Config.{trim}
use togewire.Spotify.Json.{
  Value, Number, unsigned, negative, float, null, boolean, number, string, array, object, and_then,
  parse_int, number_as_i64, number_as_u64, value_as_i64, find_map, find_i64, find_value_by_key,
  not_negative,
}
use togewire.Spotify.Metadata.{or_zero}
use togewire.Spotify.Snapshot.{
  ConnectStateSnapshot, saturating_add, progress_at, parse_connect_state_snapshot, snapshot_of,
}

-- Within the range of the times that an `i64` holds.
abbrev pub IsTime : ℤ → Type 0
IsTime a = (pos 0 ≤ℤ a) × (a ≤ℤ pos i64_max)

as_i64-le : (n : ℕ) → as_i64 n ≤ℤ pos i64_max
unfolding as_i64
as_i64-le n = ground arith

number-le : (n : Number) (a : ℤ) → value_as_i64 (number n) ≡ some a → a ≤ℤ pos i64_max
unfolding value_as_i64 number_as_i64 number_as_u64
number-le (unsigned n) a h = ground (arith, as_i64-le n)
number-le (negative n) a h = ground arith
number-le float a h = ground arith

parse_int-le : (limit : ℕ) (s : Text) (a : ℤ) → parse_int limit s ≡ some a → a ≤ℤ pos limit
unfolding parse_int at_most
parse_int-le limit [] a h = ground arith
parse_int-le limit (c ∷ s) a h = ground arith

value_as_i64-le : (v : Value) (a : ℤ) → value_as_i64 v ≡ some a → a ≤ℤ pos i64_max
unfolding value_as_i64
value_as_i64-le (number n) a h = number-le n a h
value_as_i64-le (string s) a h = parse_int-le i64_max (trim s) a h
value_as_i64-le null a h = cc
value_as_i64-le (boolean b) a h = cc
value_as_i64-le (array xs) a h = cc
value_as_i64-le (object fs) a h = cc

find_map-le :
    (ps : Value) (keys : List Text) (a : ℤ)
    → find_map (λ k. and_then (find_value_by_key k ps) value_as_i64) keys ≡ some a
    → a ≤ℤ pos i64_max
unfolding find_map
find_map-le ps [] a h = cc
find_map-le ps (k ∷ ks) a h = elim (Option-cases (find_value_by_key k ps)) [
  | inl e ↦ find_map-le ps ks a (sym (rw e refl) ∙ h)
  | inr (v, e) ↦ elim (Option-cases (value_as_i64 v)) [
    | inl f ↦ find_map-le ps ks a (sym (rw (e, f) refl) ∙ h)
    | inr (b, f) ↦ value_as_i64-le v a (f ∙ (sym (rw (e, f) refl) ∙ h))
  ]
]

-- What `find_i64` reads, cut off at 0.
IsTime-read : (ps : Value) (keys : List Text) → IsTime (not_negative (or_zero (find_i64 ps keys)))
unfolding find_i64
IsTime-read ps keys = elim (Option-cases (find_i64 ps keys)) [
  | inl e ↦ rw e (ground arith)
  | inr (a, e) ↦ let le = find_map-le ps keys a e in rw e (ground arith)
]

IsTime-saturating_add : (a b : ℤ) → IsTime a → IsTime b → IsTime (saturating_add a b)
unfolding saturating_add ◌+ℤ◌
IsTime-saturating_add a b h k = ground arith

IsTime-wrap : (a : ℤ) → IsTime (not_negative (wrap_i64 a))
IsTime-wrap a = let w = wrap_i64-IsI64 a in let above = w.above in ground arith

IsTime-progress_at : (now : ℤ) (ps : Value) → IsTime (progress_at now ps)
unfolding progress_at
IsTime-progress_at now ps =
    let base =
      IsTime-read ps
        (codes "position_as_of_timestamp" ∷ codes "position" ∷ codes "playback_position" ∷ []) in
    let late = IsTime-wrap (now -ℤ or_zero (find_i64 ps (codes "timestamp" ∷ []))) in
    let sum = IsTime-saturating_add _ _ base late in ground arith

IsTime-duration : (now : ℤ) (ps : Value) → IsTime (or_zero ((snapshot_of now ps).duration_ms))
unfolding snapshot_of
IsTime-duration now ps =
    let read = IsTime-read ps (codes "duration" ∷ codes "duration_ms" ∷ []) in
    elim (Option-cases (find_i64 ps (codes "duration" ∷ codes "duration_ms" ∷ []))) [
      | inl e ↦ rw e (ground arith)
      | inr (a, e) ↦ rw e (ground arith)
    ]

-- Whatever numbers the service sends, the progress and the duration of a snapshot are not negative
-- and fit an `i64`; also where the sum of position and elapsed time would overflow.
pub parse_connect_state_snapshot-IsTime :
    (now : ℤ) (payload : Value) (s : ConnectStateSnapshot)
    → parse_connect_state_snapshot now payload ≡ some s
    → IsTime s.progress_ms × IsTime (or_zero s.duration_ms)
unfolding parse_connect_state_snapshot
parse_connect_state_snapshot-IsTime now payload s h =
    elim (Option-cases (find_value_by_key (codes "player_state") payload)) [
      | inl e ↦ let bad : none ≡ some s = sym (rw e refl) ∙ h in absurd (cc)
      | inr (ps, e) ↦
          let same : some (snapshot_of now ps) ≡ some s = sym (rw e refl) ∙ h in
          let eq : snapshot_of now ps ≡ s = cc in
          rw (← eq) (IsTime-progress_at now ps, IsTime-duration now ps)
    ]
