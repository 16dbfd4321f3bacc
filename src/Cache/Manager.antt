-- ===== src/Cache/Manager.antt =====
-- src/cache.rs: the public methods of `Manager`, over the state and the disk.
use togewire.Prelude.{
  ℕ, Bool, not, ◌&&◌, ◌||◌, Option, none, some, List, [], ◌∷◌, ◌++◌, Text, Text-discrete, ◌=?◌,
  if◌then◌else◌, without, length, codes, reverse,
}
use togewire.Prelude.Int.{ℤ, pos, ◌+ℤ◌, ◌-ℤ◌, ltb_ℤ}
use togewire.Prelude.Words.{as_i64, wrap_i64}
use togewire.Prelude.Maps.{get, insert, remove}
use togewire.Cache.Disk.{
  Disk, Kind, Node, exists, file_len, remove_file, remove_dir_all, read_dir, starts_with,
}
use togewire.Cache.Store.{
  Entry, Inner, Store, Codec, max_ℤ, max_bytes, remove_track, evict_if_needed, touch,
}

unfoldable pub ends_with : Text → Text → Bool
unfolding starts_with
ends_with suffix s = starts_with (reverse suffix) (reverse s)

-- What one pass over `data/track_cache` at startup does to an entry of it.
sweep_entry : Text × Node → Disk → Disk
unfolding ends_with remove_file remove_dir_all
sweep_entry (path, n) d =
    if ends_with (codes ".ytwork") n.name && not (n.name =? codes ".ytwork")
    then remove_dir_all path d
    else if ends_with (codes ".tmp") n.name
        || ends_with (codes ".tmp.ogg") n.name
        || ends_with (codes ".raw.flac") n.name
        || ends_with (codes ".raw.ogg") n.name
        || ends_with (codes ".raw.bin") n.name
    then remove_file path d
    else d

sweep_entries : List (Text × Node) → Disk → Disk
unfolding sweep_entry
sweep_entries [] d = d
sweep_entries (e ∷ es) d = sweep_entries es (sweep_entry e d)

unfoldable pub sweep_work_dirs : Text → Disk → Disk
unfolding sweep_entries read_dir
sweep_work_dirs dir d = elim (read_dir dir d) [ none ↦ d | some es ↦ sweep_entries es d ]

-- The body of the loop in `Manager::clear`.
clear_entry : Text × Node → Disk → Disk
unfolding remove_file remove_dir_all
clear_entry (path, n) d =
    if n.name =? codes "_metadata.json"
    then d
    else elim n.kind [ Kind.directory ↦ remove_dir_all path d | Kind.file _ ↦ remove_file path d ]

pub clear_entries : List (Text × Node) → Disk → Disk
unfolding clear_entry
clear_entries [] d = d
clear_entries (e ∷ es) d = clear_entries es (clear_entry e d)

-- Insertion that keeps equal keys in their order: a stable sort.
unfoldable pub insert_by_access : Text × Entry → List (Text × Entry) → List (Text × Entry)
insert_by_access e [] = e ∷ []
insert_by_access e (f ∷ fs) =
    let rest = insert_by_access e fs in
    if ltb_ℤ (f.1).last_accessed_at (e.1).last_accessed_at then f ∷ rest else e ∷ f ∷ fs

unfoldable pub sort_by_access : List (Text × Entry) → List (Text × Entry)
unfolding insert_by_access
sort_by_access [] = []
sort_by_access (e ∷ es) = insert_by_access e (sort_by_access es)

-- The lines of `put` and `load` that add an entry as the newest one.
unfoldable pub add_entry : Text → Entry → Inner → Inner
unfolding insert ◌+ℤ◌ wrap_i64
add_entry track_id entry i = record i {
  total_size_bytes = wrap_i64 (i.total_size_bytes +ℤ entry.file_size);
  entries = insert Text-discrete track_id entry i.entries;
  order = i.order ++ track_id ∷ [];
}

-- The loop of `load`, over the sorted entries.
unfoldable pub load_entries : Disk → List (Text × Entry) → Inner → Inner
load_entries d [] i = i
load_entries d ((id, entry) ∷ rest) i =
    load_entries d rest (if exists entry.file_path d then add_entry id entry i else i)

-- The part of `put` that replaces an older entry of the same track.
unfoldable pub replace_old : Text → Text → Store → Store
unfolding get remove without remove_file ◌-ℤ◌ wrap_i64
replace_old track_id file_path s = elim (get Text-discrete track_id s.inner.entries) [
  | none ↦ s
  | some old ↦ record {
    inner = record (s.inner) {
      entries = remove Text-discrete track_id s.inner.entries;
      total_size_bytes = max_ℤ (wrap_i64 (s.inner.total_size_bytes -ℤ old.file_size)) (pos 0);
      order = without Text-discrete track_id s.inner.order;
    };
    disk = if old.file_path =? file_path then s.disk else remove_file old.file_path s.disk;
  }
]

-- (`used_bytes`, `max_bytes`, `entry_count`)
unfoldable pub stats : Store → ℤ × ℤ × ℕ
stats s = (s.inner.total_size_bytes, s.inner.max_bytes, length s.inner.entries)

module _ (codec : Codec) where
  -- `Inner::save`: a failure to serialise, write or rename leaves the old file.
  unfoldable pub save : Store → Store
  save s = elim (codec.to_string s.inner.entries) [
    | none ↦ s
    | some text ↦
        if s.disk.refuses s.inner.meta_file
        then s
        else record s { disk = record (s.disk) { metadata = some text } }
  ]

  unfoldable pub load : Disk → Inner → Inner
  load d i = elim d.metadata [
    | none ↦ i
    | some text ↦ elim (codec.from_str text) [
      | none ↦ i
      | some entries ↦
          let loaded =
            load_entries d (sort_by_access entries)
              (record i { entries = []; order = []; total_size_bytes = pos 0 }) in
          loaded
    ]
  ]

  unfoldable pub new : Text → Text → ℕ → Disk → Store
  new dir meta_file max_mb d =
      let swept = sweep_work_dirs dir d in
      record {
        inner = load swept (record {
          dir = dir;
          meta_file = meta_file;
          max_bytes = max_bytes max_mb;
          entries = [];
          order = [];
          total_size_bytes = pos 0;
        });
        disk = swept;
      }

  -- `if inner.touch(track_id) { inner.save(); }`
  unfoldable pub touch_and_save : ℤ → Text → Store → Store
  touch_and_save now track_id s =
      let t = touch now track_id s.inner in
      let s' = record s { inner = t.0 } in if t.1 then save s' else s'

  -- Path of a cached track, dropping the entry if the file vanished.
  unfoldable pub get_path : ℤ → Text → Store → Store × Option Text
  get_path now track_id s = elim (get Text-discrete track_id s.inner.entries) [
    | none ↦ (s, none)
    | some entry ↦
        if exists entry.file_path s.disk
        then (touch_and_save now track_id s, some entry.file_path)
        else (save (remove_track track_id s), none)
  ]

  unfoldable pub put : ℤ → Text → Text → Text → Bool → Store → Store
  put now track_id file_path bitrate normalized s =
      let entry : Entry = record {
        last_accessed_at = now;
        file_path = file_path;
        file_size = as_i64 (file_len file_path s.disk);
        bitrate = bitrate;
        normalized = normalized;
      } in
      let replaced = replace_old track_id file_path s in
      save (evict_if_needed (record replaced { inner = add_entry track_id entry replaced.inner }))

  unfoldable pub set_max_mb : ℕ → Store → Store
  set_max_mb max_mb s =
      save
        (evict_if_needed (record s { inner = record (s.inner) { max_bytes = max_bytes max_mb } }))

  unfoldable pub clear : Store → Store
  clear s = save (record {
    inner = record (s.inner) { entries = []; order = []; total_size_bytes = pos 0 };
    disk = elim (read_dir s.inner.dir s.disk) [ none ↦ s.disk | some es ↦ clear_entries es s.disk ];
  })
