-- ===== src/Audio/Prepare.antt =====
-- src/audio/prepare.rs: the maps of `TrackPreparer`, and `prepare_track` between its awaits.
use togewire.Prelude.{
  ℕ, ◌+◌, ◌*◌, Bool, true, false, Option, none, some, List, [], ◌∷◌, Text, Text-discrete,
  if◌then◌else◌, ltb, length, is_some,
}
use togewire.Prelude.Int.{ℤ}
use togewire.Prelude.Maps.{get, insert, remove}
use togewire.Cache.Store.{Store, Codec}
use togewire.Cache.Manager.{get_path}

-- 10 minutes and 30 seconds, in milliseconds.
abbrev pub no_source_cooldown : ℕ
no_source_cooldown = 10 * 60 * 1000

abbrev pub retry_cooldown : ℕ
retry_cooldown = 30 * 1000

pub data PrepareError : Type 0 where
  busy : PrepareError
  no_source : PrepareError
  failed : Text → PrepareError

pub data Prepared : Type 0 where
  ok : Text → Prepared
  err : PrepareError → Prepared

-- Track id to the instant it may be attempted again.
abbrev pub Failures : Type 0
Failures = List (Text × ℕ)

-- What a fetcher gives: a path, the error that nothing matches, or another error.
pub data Fetched : Type 0 where
  fetched : Text → Fetched
  no_match : Fetched
  fetch_error : Text → Fetched

-- The tasks are numbered: `in_flight` holds the task whose sender a follower waits on, and
-- `download_lock` the task that has it.
pub record Preparer : Type 0 where
  pub cache : Store
  pub in_flight : List (Text × ℕ)
  pub failed : Failures
  pub download_lock : Option ℕ

unfoldable pub is_preparing : Text → Preparer → Bool
is_preparing id p = is_some (get Text-discrete id p.in_flight)

unfoldable pub retain_later : ℕ → Failures → Failures
retain_later now [] = []
retain_later now ((id, until) ∷ m) =
    let rest = retain_later now m in if ltb now until then (id, until) ∷ rest else rest

-- The pruned map, and whether the track is still held off.
unfoldable pub is_held_off : ℕ → Text → Failures → Bool
is_held_off now id m = elim (get Text-discrete id m) [ none ↦ false | some until ↦ ltb now until ]

unfoldable pub pruned : ℕ → Failures → Failures
pruned now m = if ltb 64 (length m) then retain_later now m else m

unfoldable pub recently_failed : ℕ → Text → Failures → Failures × Bool
recently_failed now id m = (pruned now m, is_held_off now id (pruned now m))

-- `fetch_via_ytdlp`
unfoldable pub fetch_via_ytdlp : Fetched → Prepared
fetch_via_ytdlp (fetched p) = ok p
fetch_via_ytdlp no_match = err no_source
fetch_via_ytdlp (fetch_error e) = err (failed e)

-- `prepare_inner`, from what either fetcher gives: librespot first, if it is on.
unfoldable pub prepare_inner : Bool → Option Text → Fetched → Prepared
unfolding fetch_via_ytdlp
prepare_inner false librespot ytdlp = fetch_via_ytdlp ytdlp
prepare_inner true (some p) ytdlp = ok p
prepare_inner true none ytdlp = fetch_via_ytdlp ytdlp

-- The `match &result` of `execute_prepare`.
unfoldable pub record_result : ℕ → Text → Prepared → Failures → Failures
record_result now id (ok _) m = remove Text-discrete id m
record_result now id (err no_source) m = insert Text-discrete id (now + no_source_cooldown) m
record_result now id (err (failed _)) m = insert Text-discrete id (now + retry_cooldown) m
record_result now id (err busy) m = m

-- The end of `execute_prepare`, and the drop of its guard: the result is recorded first.
unfoldable pub finish : ℕ → Text → Prepared → Preparer → Preparer
finish now id r p = record p {
  failed = record_result now id r p.failed;
  in_flight = remove Text-discrete id p.in_flight;
  download_lock = none;
}

-- Where a call of `prepare_track` is: `waiting` for the download lock, `downloading` with it,
-- `following` another task, or `returned`.
pub data Stage : Type 0 where
  idle : Stage
  waiting downloading following : Text → Stage
  returned : Prepared → Stage

unfoldable pub or_busy : Option Text → Prepared
or_busy none = err busy
or_busy (some p) = ok p

module _ (codec : Codec) where
  -- `prepare_track` up to its first await, by task `n`.
  unfoldable pub prepare_track : ℤ → ℕ → ℕ → Text → Preparer → Preparer × Stage
  prepare_track unix now n id p =
      let cached = get_path codec unix id p.cache in
      let p' = record p { cache = cached.0 } in
      elim cached.1 [
        | some path ↦ (p', returned (ok path))
        | none ↦
            let recent = recently_failed now id p'.failed in
            let p'' = record p' { failed = recent.0 } in
            if recent.1
            then (p'', returned (err busy))
            else elim (get Text-discrete id p''.in_flight) [
              | some leader ↦ (p'', following id)
              | none ↦
                  (record p'' { in_flight = insert Text-discrete id n p''.in_flight }, waiting id)
            ]
      ]

  -- `execute_prepare` once it has the download lock, up to its next await or its end.
  unfoldable pub execute_prepare : ℤ → ℕ → ℕ → Text → Preparer → Preparer × Stage
  execute_prepare unix now n id p =
      let cached = get_path codec unix id p.cache in
      let p' = record p { cache = cached.0; download_lock = some n } in
      elim cached.1 [
        | some path ↦ (finish now id (ok path) p', returned (ok path))
        | none ↦
            let recent = recently_failed now id p'.failed in
            let p'' = record p' { failed = recent.0 } in
            if recent.1
            then (finish now id (err busy) p'', returned (err busy))
            else (p'', downloading id)
      ]

  -- A follower once it is woken, or has waited for a minute.
  unfoldable pub follow : ℤ → Text → Preparer → Preparer × Stage
  unfolding or_busy
  follow unix id p =
      let cached = get_path codec unix id p.cache in
      (record p { cache = cached.0 }, returned (or_busy cached.1))
