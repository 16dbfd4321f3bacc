-- ===== src/Audio/Leaders.antt =====
-- src/audio/prepare.rs: one preparation per track, and one download at a time.
use togewire.Prelude.{
  ℕ, Bool, true, false, Option, none, some, List, Text, Text-discrete, arith, ◌≡◌, refl, sym, ap,
  ◌∙◌, ◌⊎◌, inl, inr, Option-cases,
}
use togewire.Prelude.Int.{ℤ}
use togewire.Prelude.Maps.{
  get, insert, remove, get-insert_self, get-insert_ne, get-remove_self, get-remove_ne,
}
use togewire.Cache.Store.{Codec}
use togewire.Audio.Prepare.{
  Preparer, Stage, waiting, downloading, prepare_track, execute_prepare, follow, finish,
  is_preparing,
}
use togewire.Audio.Tasks.{World, set_task, Step, call, lock, download, wake, Reachable, start, next}

-- The track that a task is the leader of.
unfoldable pub leads : Stage → Option Text
leads (waiting id) = some id
leads (downloading id) = some id
leads _ = none

unfoldable pub downloads : Stage → Bool
downloads (downloading id) = true
downloads _ = false

-- The map of flights holds each leader and no one else, and the lock is held by the one that downloads.
abbrev IsExclusive : (ℕ → Stage) → List (Text × ℕ) → Option ℕ → Type 0
IsExclusive tasks flights holder =
    ((n : ℕ) (id : Text) → leads (tasks n) ≡ some id → get Text-discrete id flights ≡ some n)
    × ((n : ℕ) (id : Text) → get Text-discrete id flights ≡ some n → leads (tasks n) ≡ some id)
    × ((n : ℕ) → downloads (tasks n) ≡ true → holder ≡ some n)

module _ (tasks : ℕ → Stage) (flights : List (Text × ℕ)) (holder : Option ℕ) (n : ℕ) (st : Stage)
    (h : IsExclusive tasks flights holder) where
  -- A task that leads nothing, before or after.
  keep-IsExclusive :
      leads (tasks n) ≡ none
      → leads st ≡ none
      → downloads st ≡ false
      → IsExclusive (set_task n st tasks) flights holder
  unfolding set_task
  keep-IsExclusive was now free =
      let (to, from, locked) = h in
      (
        λ m id e. let f = to m id in ground arith,
        λ m id e. let f = from m id e in ground arith,
        λ m e. let f = locked m in ground arith,
      )

  -- A task that becomes the leader of a track that had none.
  claim-IsExclusive :
      (track : Text)
      → get Text-discrete track flights ≡ none
      → leads (tasks n) ≡ none
      → leads st ≡ some track
      → downloads st ≡ false
      → IsExclusive (set_task n st tasks) (insert Text-discrete track n flights) holder
  unfolding set_task
  claim-IsExclusive track absent was now free =
      let (to, from, locked) = h in
      let here = get-insert_self Text-discrete track n flights in
      (
        λ m id e.
            let f = to m id in
            let g = get-insert_ne Text-discrete track id n flights in ground arith,
        λ m id e.
            let f = from m id in
            let g = get-insert_ne Text-discrete track id n flights in
            elim (Text-discrete track id) [ yes q ↦ ground arith | no q ↦ ground arith ],
        λ m e. let f = locked m in ground arith,
      )

  -- A leader that takes the free lock.
  hold-IsExclusive :
      holder ≡ none
      → leads st ≡ leads (tasks n)
      → IsExclusive (set_task n st tasks) flights (some n)
  unfolding set_task
  hold-IsExclusive unheld same =
      let (to, from, locked) = h in
      (
        λ m id e. let f = to m id in ground arith,
        λ m id e. let f = from m id e in ground arith,
        λ m e. let f = locked m in ground arith,
      )

  -- A leader that ends, with the lock or just after taking it.
  release-IsExclusive :
      (track : Text)
      → leads (tasks n) ≡ some track
      → (holder ≡ none) ⊎ (holder ≡ some n)
      → leads st ≡ none
      → downloads st ≡ false
      → IsExclusive (set_task n st tasks) (remove Text-discrete track flights) none
  unfolding set_task
  release-IsExclusive track was held now free =
      let (to, from, locked) = h in
      let gone = get-remove_self Text-discrete track flights in
      let mine = to n track was in
      (
        λ m id e.
            let f = to m id in let g = get-remove_ne Text-discrete track id flights in ground arith,
        λ m id e.
            let f = from m id in
            let g = get-remove_ne Text-discrete track id flights in
            elim (Text-discrete track id) [ yes q ↦ ground arith | no q ↦ ground arith ],
        λ m e. let f = locked m in ground arith,
      )

module _ (codec : Codec) where
  prepare_track-cases :
      (unix : ℤ) (n now : ℕ) (id : Text) (p : Preparer)
      → let r = prepare_track codec unix now n id p in
        (r.0.download_lock ≡ p.download_lock)
        × (downloads r.1 ≡ false)
        × (((r.0.in_flight ≡ p.in_flight) × (leads r.1 ≡ none))
            ⊎ ((r.0.in_flight ≡ insert Text-discrete id n p.in_flight)
                × (get Text-discrete id p.in_flight ≡ none)
                × (leads r.1 ≡ some id)))
  unfolding prepare_track leads downloads
  prepare_track-cases unix n now id p = ground arith

  execute_prepare-cases :
      (unix : ℤ) (n now : ℕ) (id : Text) (p : Preparer)
      → let r = execute_prepare codec unix now n id p in
        ((r.0.in_flight ≡ remove Text-discrete id p.in_flight)
          × (r.0.download_lock ≡ none)
          × (leads r.1 ≡ none)
          × (downloads r.1 ≡ false))
        ⊎ ((r.0.in_flight ≡ p.in_flight) × (r.0.download_lock ≡ some n) × (leads r.1 ≡ some id))
  unfolding execute_prepare finish leads downloads
  execute_prepare-cases unix n now id p = ground arith

  abbrev IsExclusiveWorld : World → Type 0
  IsExclusiveWorld w = IsExclusive w.tasks w.preparer.in_flight w.preparer.download_lock

  Step-IsExclusive : (w w' : World) → Step codec w w' → IsExclusiveWorld w → IsExclusiveWorld w'
  unfolding leads downloads finish follow
  Step-IsExclusive w w' (call n unix now id _ e) h =
      let r = prepare_track codec unix now n id w.preparer in
      let (same, free, cases) = prepare_track-cases unix n now id w.preparer in
      let was = ap leads e in
      elim cases [
        | inl (flights, none_led) ↦
            rw (flights, same) (keep-IsExclusive w.tasks _ _ n r.1 h was none_led free)
        | inr (flights, absent, led) ↦
            rw (flights, same) (claim-IsExclusive w.tasks _ _ n r.1 h id absent was led free)
      ]
  Step-IsExclusive w w' (lock n unix now id _ e unheld) h =
      let r = execute_prepare codec unix now n id w.preparer in
      let was = ap leads e in
      elim (execute_prepare-cases unix n now id w.preparer) [
        | inl (flights, unlocked, none_led, free) ↦
            rw (flights, unlocked)
              (release-IsExclusive w.tasks _ _ n r.1 h id was (inl unheld) none_led free)
        | inr (flights, locked, led) ↦
            rw (flights, locked) (hold-IsExclusive w.tasks _ _ n r.1 h unheld (led ∙ sym was))
      ]
  Step-IsExclusive w w' (download n now id on librespot ytdlp store _ e) h =
      let (to, from, locked) = h in
      release-IsExclusive w.tasks _ _ n _ h id (ap leads e) (inr (locked n (ap downloads e))) refl
        refl
  Step-IsExclusive w w' (wake n unix id _ e) h =
      keep-IsExclusive w.tasks _ _ n _ h (ap leads e) refl refl

  Reachable-IsExclusive : (w : World) → Reachable codec w → IsExclusiveWorld w
  unfolding leads downloads get
  Reachable-IsExclusive w (start store) =
      (λ n id e. ground arith, λ n id e. ground arith, λ n e. ground arith)
  Reachable-IsExclusive w' (next {w} reached step) =
      Step-IsExclusive w w' step (Reachable-IsExclusive w reached)

  -- However the calls interleave: two tasks that prepare one track are the same task, a track is in flight
  -- exactly when some task prepares it, and at most one task downloads.
  pub Reachable-one_leader :
      (w : World)
      → Reachable codec w
      → ((n m : ℕ) (id : Text) → leads (w.tasks n) ≡ some id → leads (w.tasks m) ≡ some id → n ≡ m)
        × ((n : ℕ) (id : Text) → leads (w.tasks n) ≡ some id → is_preparing id w.preparer ≡ true)
        × ((id : Text)
            → is_preparing id w.preparer ≡ true
            → (n : ℕ) × (leads (w.tasks n) ≡ some id))
        × ((n m : ℕ) → downloads (w.tasks n) ≡ true → downloads (w.tasks m) ≡ true → n ≡ m)
  unfolding is_preparing
  Reachable-one_leader w reached =
      let (to, from, locked) = Reachable-IsExclusive w reached in
      (
        λ n m id e f. let a = to n id e in let b = to m id f in ground arith,
        λ n id e. rw (to n id e) refl,
        λ id e. elim (Option-cases (get Text-discrete id w.preparer.in_flight)) [
          | inl absent ↦ ground arith
          | inr (n, found) ↦ (n, from n id found)
        ],
        λ n m e f. let a = locked n e in let b = locked m f in ground arith,
      )
