-- ===== src/Audio/Cooldown.antt =====
-- src/audio/prepare.rs: when a failed track may be attempted again.
use togewire.Prelude.{
  ℕ, ◌+◌, ◌≤◌, Bool, false, [], ◌∷◌, Text, Text-discrete, arith, ◌≡◌, refl, ◌∙◌, ltb, count, length,
  Bool-cases, inl, inr,
}
use togewire.Prelude.Maps.{
  get, keys, IsMap, get_of_count, get-remove_self, get-insert_self, IsMap-remove, IsMap-insert,
}
use togewire.Audio.Prepare.{
  Failures, retain_later, is_held_off, pruned, recently_failed, record_result, Prepared, ok, err,
  no_source, failed, busy, retry_cooldown, no_source_cooldown,
}

count-retain_later :
    (now : ℕ) (id : Text) (m : Failures)
    → count Text-discrete id (keys (retain_later now m)) ≤ count Text-discrete id (keys m)
unfolding retain_later count
count-retain_later now id [] = ground arith
count-retain_later now id ((k, u) ∷ m) = let ih = count-retain_later now id m in ground arith

IsMap-tail :
    (k : Text) (t : ℕ) (m : Failures) → IsMap Text-discrete ((k, t) ∷ m) → IsMap Text-discrete m
unfolding count
IsMap-tail k t m u q = let v = u q in ground arith

held_off-retain_later :
    (now later : ℕ) (id : Text) (m : Failures)
    → now ≤ later
    → IsMap Text-discrete m
    → is_held_off later id (retain_later now m) ≡ is_held_off later id m
unfolding retain_later is_held_off get count
held_off-retain_later now later id [] h u = refl
held_off-retain_later now later id ((k, t) ∷ m) h u =
    let v = u id in
    let c = count-retain_later now id m in
    let absent = get_of_count Text-discrete id (retain_later now m) in
    let ih = held_off-retain_later now later id m h (IsMap-tail k t m u) in
    elim (Text-discrete k id) [ yes e ↦ ground arith | no ne ↦ ground arith ]

IsMap-retain_later :
    (now : ℕ) (m : Failures) → IsMap Text-discrete m → IsMap Text-discrete (retain_later now m)
IsMap-retain_later now m u q = let c = count-retain_later now q m in let v = u q in ground arith

IsMap-pruned : (now : ℕ) (m : Failures) → IsMap Text-discrete m → IsMap Text-discrete (pruned now m)
unfolding pruned
IsMap-pruned now m u = elim (Bool-cases (ltb 64 (length m))) [
  | inl e ↦ rw e (IsMap-retain_later now m u)
  | inr e ↦ rw e u
]

held_off-pruned :
    (now later : ℕ) (id : Text) (m : Failures)
    → now ≤ later
    → IsMap Text-discrete m
    → is_held_off later id (pruned now m) ≡ is_held_off later id m
unfolding pruned
held_off-pruned now later id m h u =
    let e = held_off-retain_later now later id m h u in ground arith

-- What a question at `later` is answered, after a result at `now`.
abbrev held_off_after : ℕ → ℕ → Text → Prepared → Failures → Bool
held_off_after now later id (ok _) m = false
held_off_after now later id (err no_source) m = ltb later (now + no_source_cooldown)
held_off_after now later id (err (failed _)) m = ltb later (now + retry_cooldown)
held_off_after now later id (err busy) m = is_held_off later id m

held_off-record_result :
    (now later : ℕ) (id : Text) (r : Prepared) (m : Failures)
    → is_held_off later id (record_result now id r m) ≡ held_off_after now later id r m
unfolding record_result is_held_off
held_off-record_result now later id (ok p) m =
    let e = get-remove_self Text-discrete id m in ground arith
held_off-record_result now later id (err busy) m = refl
held_off-record_result now later id (err no_source) m =
    let e = get-insert_self Text-discrete id (now + no_source_cooldown) m in ground arith
held_off-record_result now later id (err (failed e)) m =
    let e' = get-insert_self Text-discrete id (now + retry_cooldown) m in ground arith

IsMap-record_result :
    (now : ℕ) (id : Text) (r : Prepared) (m : Failures)
    → IsMap Text-discrete m
    → IsMap Text-discrete (record_result now id r m)
unfolding record_result
IsMap-record_result now id (ok p) m u = IsMap-remove Text-discrete id m u
IsMap-record_result now id (err busy) m u = u
IsMap-record_result now id (err no_source) m u = IsMap-insert Text-discrete id _ m u
IsMap-record_result now id (err (failed e)) m u = IsMap-insert Text-discrete id _ m u

-- A track whose preparation ended at `now` is held off for ten minutes if nothing matched it, for
-- thirty seconds if it failed, and not at all if it was prepared; a result `Busy` changes
-- nothing. That holds also where the map, with each track once, was pruned in between by a
-- question about any track.
pub recently_failed-record_result :
    (now asked later : ℕ) (id other : Text) (r : Prepared) (m : Failures)
    → asked ≤ later
    → IsMap Text-discrete m
    → (recently_failed later id (recently_failed asked other (record_result now id r m)).0).1
      ≡ held_off_after now later id r m
unfolding recently_failed
recently_failed-record_result now asked later id other r m h u =
    let m' = record_result now id r m in
    let u' = IsMap-record_result now id r m u in
    held_off-pruned later later id (pruned asked m') (ground arith) (IsMap-pruned asked m' u')
    ∙ held_off-pruned asked later id m' h u'
    ∙ held_off-record_result now later id r m
