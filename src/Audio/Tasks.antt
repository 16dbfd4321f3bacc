-- ===== src/Audio/Tasks.antt =====
-- src/audio/prepare.rs: the calls of `prepare_track` that run at once, as steps between awaits.
use togewire.Prelude.{ℕ, Bool, Option, none, [], Text, ◌≡◌, ℕ_discrete}
use togewire.Prelude.Int.{ℤ}
use togewire.Cache.Store.{Store, Codec}
use togewire.Audio.Prepare.{
  Preparer, Stage, idle, waiting, downloading, following, returned, Fetched, prepare_inner,
  prepare_track, execute_prepare, follow, finish,
}

pub record World : Type 0 where
  pub preparer : Preparer
  pub tasks : ℕ → Stage

unfoldable pub set_task : ℕ → Stage → (ℕ → Stage) → ℕ → Stage
set_task n st tasks m = elim (ℕ_discrete n m) [ yes _ ↦ st | no _ ↦ tasks m ]

abbrev pub moved : ℕ → World → Preparer × Stage → World
moved n w r = record { preparer = r.0; tasks = set_task n r.1 w.tasks }

-- A task calls, takes the free lock, ends its download (the fetcher has put its file in the cache), or
-- wakes up as a follower; the cache changes for other reasons too.
pub data Step (codec : Codec) : World → World → Type 0 where
  call :
      (n : ℕ) (unix : ℤ) (now : ℕ) (id : Text) (w : World)
      → w.tasks n ≡ idle
      → Step codec w (moved n w (prepare_track codec unix now n id w.preparer))
  lock :
      (n : ℕ) (unix : ℤ) (now : ℕ) (id : Text) (w : World)
      → w.tasks n ≡ waiting id
      → w.preparer.download_lock ≡ none
      → Step codec w (moved n w (execute_prepare codec unix now n id w.preparer))
  download :
      (n : ℕ) (now : ℕ) (id : Text) (on : Bool) (librespot : Option Text) (ytdlp : Fetched)
      (store : Store) (w : World)
      → w.tasks n ≡ downloading id
      → Step codec w (
          moved n w (
            finish now id
                (prepare_inner on librespot ytdlp)
                (record (w.preparer) { cache = store }),
            returned (prepare_inner on librespot ytdlp),
          ))
  wake :
      (n : ℕ) (unix : ℤ) (id : Text) (w : World)
      → w.tasks n ≡ following id
      → Step codec w (moved n w (follow codec unix id w.preparer))

pub data Reachable (codec : Codec) : World → Type 0 where
  start :
      (store : Store)
      → Reachable codec (record {
        preparer = record { cache = store; in_flight = []; failed = []; download_lock = none };
        tasks = λ n. idle;
      })
  next : {w w' : World} → Reachable codec w → Step codec w w' → Reachable codec w'
