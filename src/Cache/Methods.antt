-- ===== src/Cache/Methods.antt =====
-- src/cache.rs: every public method of `Manager` keeps the bookkeeping.
use togewire.Prelude.{
  ℕ, ◌+◌, ◌≤◌, ◌≡◌, refl, ◌∙◌, none, some, [], Text, Bool, Text-discrete, count, arith,
  Option-cases, Bool-cases, inl, inr,
}
use togewire.Prelude.Int.{ℤ, pos, neg_part, ◌≤ℤ◌}
use togewire.Prelude.Words.{i64_max, as_i64, as_i64_small}
use togewire.Prelude.Maps.{get, get-insert_self}
use togewire.Cache.Disk.{file_len, exists, read_dir}
use togewire.Cache.Store.{Inner, Store, Codec, touch, max_bytes, evict_if_needed}
use togewire.Cache.Manager.{
  save, get_path, clear_entries, put, replace_old, add_entry, set_max_mb, clear, touch_and_save,
}
use togewire.Cache.Invariant.{total_size, IsValid, remove_track-IsValid}
use togewire.Cache.Steps.{
  replace_old-IsValid, get-replace_old, add_entry-IsValid, total_size-replace_old-le, touch-IsValid,
}
use togewire.Cache.Eviction.{evict_if_needed-IsValid, evict_if_needed-bounded, get-evict_if_needed}

-- A limit is at least 64 MiB and never negative, also where the product saturates.
neg_part-max_bytes : (mb : ℕ) → neg_part (max_bytes mb) ≡ 0
unfolding max_bytes
neg_part-max_bytes mb = ground arith

at_limit : (total a b : ℤ) → a ≡ b → total ≤ℤ a → total ≤ℤ b
at_limit total a b e h = rw e at h

module _ (codec : Codec) where
  pub inner-save : (s : Store) → (save codec s).inner ≡ s.inner
  unfolding save
  inner-save s = ground arith

  -- What `put` holds before it evicts.
  unfoldable pub stored : ℤ → Text → Text → Text → Bool → Store → Store
  stored now k path bitrate normalized s =
      let replaced = replace_old k path s in
      record replaced {
        inner =
            add_entry k
              (record {
                last_accessed_at = now;
                file_path = path;
                file_size = as_i64 (file_len path s.disk);
                bitrate = bitrate;
                normalized = normalized;
              })
              replaced.inner;
      }

  pub stored-IsValid :
      (now : ℤ) (k path bitrate : Text) (normalized : Bool) (s : Store)
      → IsValid s.inner
      → total_size s.inner.entries + file_len path s.disk ≤ i64_max
      → IsValid (stored now k path bitrate normalized s).inner
  unfolding stored
  stored-IsValid now k path bitrate normalized s v room =
      add_entry-IsValid k _ (replace_old k path s).inner (get-replace_old k path s)
        (ground (arith, len)) (ground (arith, len, total_size-replace_old-le k path s v))
        (replace_old-IsValid k path s v)
    where
      len : as_i64 (file_len path s.disk) ≡ pos (file_len path s.disk)
      len = as_i64_small _ (omega arith)

  module _ (now : ℤ) (k path bitrate : Text) (normalized : Bool) (s : Store) where
    pub inner-put :
        (put codec now k path bitrate normalized s).inner
        ≡ (evict_if_needed (stored now k path bitrate normalized s)).inner
    unfolding put stored
    inner-put = inner-save (evict_if_needed (stored now k path bitrate normalized s))

    max_bytes-stored : (stored now k path bitrate normalized s).inner.max_bytes ≡ s.inner.max_bytes
    unfolding stored add_entry replace_old
    max_bytes-stored = ground arith

    module _ (v : IsValid s.inner)
        (room : total_size s.inner.entries + file_len path s.disk ≤ i64_max) where
      put-IsValid : IsValid (put codec now k path bitrate normalized s).inner
      put-IsValid =
          rw inner-put
            (evict_if_needed-IsValid _ (stored-IsValid now k path bitrate normalized s v room))

      put-bounded :
          (put codec now k path bitrate normalized s).inner.total_size_bytes ≤ℤ s.inner.max_bytes
      put-bounded = rw inner-put (
          at_limit _ _ _ max_bytes-stored (
            evict_if_needed-bounded (stored now k path bitrate normalized s)
              (stored-IsValid now k path bitrate normalized s v room)))

  -- Storing a track keeps valid books, and leaves the cache within its limit, whatever the file's
  -- size, where the exact sum of the sizes fits an `i64`.
  pub put-IsValid_bounded :
      (now : ℤ) (k path bitrate : Text) (normalized : Bool) (s : Store)
      → IsValid s.inner
      → total_size s.inner.entries + file_len path s.disk ≤ i64_max
      → IsValid (put codec now k path bitrate normalized s).inner
        × ((put codec now k path bitrate normalized s).inner.total_size_bytes ≤ℤ s.inner.max_bytes)
  put-IsValid_bounded now k path bitrate normalized s v room = (
    put-IsValid now k path bitrate normalized s v room,
    put-bounded now k path bitrate normalized s v room,
  )

  -- In a cache with valid books, where the exact sum of the sizes fits an `i64`, a track is found
  -- after it was stored as it was stored, unless eviction dropped it again.
  pub get-put_self :
      (now : ℤ) (k path bitrate : Text) (normalized : Bool) (s : Store)
      → IsValid s.inner
      → total_size s.inner.entries + file_len path s.disk ≤ i64_max
      → ¬ (count Text-discrete k (put codec now k path bitrate normalized s).inner.order ≡ 0)
      → get Text-discrete k (put codec now k path bitrate normalized s).inner.entries
        ≡ some (record {
          last_accessed_at = now;
          file_path = path;
          file_size = pos (file_len path s.disk);
          bitrate = bitrate;
          normalized = normalized;
        })
  unfolding stored add_entry
  get-put_self now k path bitrate normalized s v room kept =
      let found = rw (inner-put now k path bitrate normalized s) at kept in
      rw (inner-put now k path bitrate normalized s) (
        get-evict_if_needed k (stored now k path bitrate normalized s)
          (stored-IsValid now k path bitrate normalized s v room) found
        ∙ stored_entry)
    where
      stored_entry :
          get Text-discrete k (stored now k path bitrate normalized s).inner.entries
          ≡ some (record {
            last_accessed_at = now;
            file_path = path;
            file_size = pos (file_len path s.disk);
            bitrate = bitrate;
            normalized = normalized;
          })
      stored_entry =
          rw (← as_i64_small (file_len path s.disk) (omega arith))
            (get-insert_self Text-discrete k _ (replace_old k path s).inner.entries)

  pub save-IsValid : (s : Store) → IsValid s.inner → IsValid (save codec s).inner
  save-IsValid s v = rw (inner-save s) v

  -- A new limit is met at once, and valid books are kept.
  pub set_max_mb-IsValid_bounded :
      (mb : ℕ) (s : Store)
      → IsValid s.inner
      → IsValid (set_max_mb codec mb s).inner
        × ((set_max_mb codec mb s).inner.total_size_bytes ≤ℤ max_bytes mb)
  unfolding set_max_mb
  set_max_mb-IsValid_bounded mb s v =
      rw (inner-save (evict_if_needed limited))
        (evict_if_needed-IsValid limited valid, evict_if_needed-bounded limited valid)
    where
      limited : Store
      limited = record s { inner = record (s.inner) { max_bytes = max_bytes mb } }

      valid : IsValid limited.inner
      valid = record {
        keyed = v.keyed;
        queued = v.queued;
        sized = v.sized;
        fits = v.fits;
        limited = neg_part-max_bytes mb;
        summed = v.summed;
      }

  -- Clearing a cache with valid books leaves no entry, and valid books.
  pub clear-IsValid :
      (s : Store)
      → IsValid s.inner
      → IsValid (clear codec s).inner × ((clear codec s).inner.entries ≡ [])
  unfolding clear count total_size
  clear-IsValid s v =
      rw
        (inner-save (record {
          inner = cleared;
          disk = (elim (read_dir s.inner.dir s.disk) [
            | none ↦ s.disk
            | some es ↦ clear_entries es s.disk
          ]);
        }))
        (
          record {
            keyed = λ k. omega arith;
            queued = λ k. refl;
            sized = tt;
            fits = omega arith;
            limited = v.limited;
            summed = refl;
          },
          refl,
        )
    where
      cleared : Inner
      cleared = record (s.inner) { entries = []; order = []; total_size_bytes = pos 0 }

module _ (codec : Codec) where
  touch_and_save-IsValid :
      (now : ℤ) (k : Text) (s : Store)
      → IsValid s.inner
      → IsValid (touch_and_save codec now k s).inner
  unfolding touch_and_save
  touch_and_save-IsValid now k s v = elim (Bool-cases (touch now k s.inner).1) [
    | inl e ↦ rw e (save-IsValid codec _ (touch-IsValid now k s.inner v))
    | inr e ↦ rw e (touch-IsValid now k s.inner v)
  ]

  -- Looking a track up keeps valid books, whether it is found, unknown or gone from the disk.
  pub get_path-IsValid :
      (now : ℤ) (k : Text) (s : Store) → IsValid s.inner → IsValid (get_path codec now k s).0.inner
  unfolding get_path
  get_path-IsValid now k s v = elim (Option-cases (get Text-discrete k s.inner.entries)) [
    | inl e ↦ rw (e, get_path) v
    | inr (entry, e) ↦ elim (Bool-cases (exists entry.file_path s.disk)) [
      | inl there ↦ rw (e, get_path) (rw there (touch_and_save-IsValid now k s v))
      | inr gone ↦ rw (e, get_path) (rw gone (save-IsValid codec _ (remove_track-IsValid k s v)))
    ]
  ]
