-- ===== src/Cache/Store.antt =====
-- src/cache.rs: `Entry`, `Inner` and the methods of `Inner`.
use mathlib.Core.List.{get_last?}
use togewire.Prelude.{
  ℕ, ◌-◌, ◌*◌, ◌^◌, min, max, Bool, true, false, Option, none, some, List, [], ◌∷◌, ◌++◌, Text,
  Text-discrete, ◌=?◌, if◌then◌else◌, leb, without,
}
use togewire.Prelude.Int.{ℤ, pos, ◌-ℤ◌, ltb_ℤ}
use togewire.Prelude.Words.{i64_max, u64_modulus, wrap_i64}
use togewire.Prelude.Maps.{get, insert, remove}
use togewire.Cache.Disk.{Disk, remove_file}

pub record Entry : Type 0 where
  pub last_accessed_at : ℤ
  pub file_path : Text
  pub file_size : ℤ
  pub bitrate : Text
  pub normalized : Bool

pub record Inner : Type 0 where
  pub dir : Text
  pub meta_file : Text
  pub max_bytes : ℤ
  pub entries : List (Text × Entry)
  pub order : List Text
  pub total_size_bytes : ℤ

-- The cache's state beside the disk that its methods act on.
pub record Store : Type 0 where
  pub inner : Inner
  pub disk : Disk

-- The library that writes and reads the metadata file.
pub record Codec : Type 0 where
  pub to_string : List (Text × Entry) → Option Text
  pub from_str : Text → Option (List (Text × Entry))

abbrev pub touch_persist_secs : ℤ
touch_persist_secs = pos 300

-- `max_mb` is a `u64`; the product saturates at its largest value.
unfoldable pub max_bytes : ℕ → ℤ
max_bytes max_mb =
    let product = min (max max_mb 64 * 2 ^ 20) (u64_modulus - 1) in
    if leb product i64_max then pos product else pos i64_max

abbrev pub max_ℤ : ℤ → ℤ → ℤ
max_ℤ a b = if ltb_ℤ a b then b else a

unfoldable pub remove_entry : Text → Store → Store
unfolding get remove remove_file ◌-ℤ◌ wrap_i64
remove_entry track_id s = elim (get Text-discrete track_id s.inner.entries) [
  | none ↦ s
  | some old ↦ record {
    inner = record (s.inner) {
      entries = remove Text-discrete track_id s.inner.entries;
      total_size_bytes = max_ℤ (wrap_i64 (s.inner.total_size_bytes -ℤ old.file_size)) (pos 0);
    };
    disk = remove_file old.file_path s.disk;
  }
]

abbrev pub set_order : List Text → Store → Store
set_order ids s = record s { inner = record (s.inner) { order = ids } }

-- `Inner::remove`
unfoldable pub remove_track : Text → Store → Store
unfolding remove_entry without
remove_track track_id s =
    let s' = remove_entry track_id s in set_order (without Text-discrete track_id s'.inner.order) s'

-- The `while` loop of `evict_if_needed`, over the queue that is left.
unfoldable pub evict_loop : List Text → Store → Store
unfolding remove_entry
evict_loop [] s = set_order [] s
evict_loop (oldest ∷ rest) s =
    let next = evict_loop rest (remove_entry oldest s) in
    if ltb_ℤ s.inner.max_bytes s.inner.total_size_bytes then next else set_order (oldest ∷ rest) s

unfoldable pub evict_if_needed : Store → Store
unfolding evict_loop
evict_if_needed s = evict_loop s.inner.order s

is_last : Text → Option Text → Bool
is_last track_id none = false
is_last track_id (some id) = id =? track_id

-- The entry with its new access time, moved to the end of the queue.
unfoldable pub refresh : ℤ → Text → Entry → Inner → Inner
unfolding insert without is_last
refresh now track_id entry i = record i {
  entries = insert Text-discrete track_id (record entry { last_accessed_at = now }) i.entries;
  order =
      if is_last track_id (get_last? i.order)
      then i.order
      else without Text-discrete track_id i.order ++ track_id ∷ [];
}

-- Recency bump; true when worth persisting.
unfoldable pub touch : ℤ → Text → Inner → Inner × Bool
unfolding get ◌-ℤ◌ wrap_i64
touch now track_id i = elim (get Text-discrete track_id i.entries) [
  | none ↦ (i, false)
  | some entry ↦
      if ltb_ℤ (wrap_i64 (now -ℤ entry.last_accessed_at)) touch_persist_secs
      then (i, false)
      else (refresh now track_id entry i, true)
]
