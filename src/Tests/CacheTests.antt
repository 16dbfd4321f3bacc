-- ===== src/Tests/CacheTests.antt =====
-- src/cache.rs at a cache of two tracks, of which only the newer one fits the limit.
use mathlib.Core.List.{Perm}
use togewire.Prelude.{
  ◌≤◌, true, false, some, List, [], ◌∷◌, Text, Text-discrete, arith, ◌≡◌, refl, count, ◌+◌,
}
use togewire.Prelude.Int.{pos, ◌≤ℤ◌}
use togewire.Prelude.Words.{i64_max}
use togewire.Prelude.Maps.{get, keys, remove, insert}
use togewire.Cache.Disk.{Disk, file, file_len, remove_file}
use togewire.Cache.Store.{Entry, Store, Codec, evict_if_needed, evict_loop, remove_entry, max_bytes}
use togewire.Cache.Manager.{put, replace_old, add_entry, save, set_max_mb, clear, get_path, load}
use togewire.Cache.Invariant.{IsValid, total_size}
use togewire.Cache.Eviction.{IsLongestFit, evict_if_needed-IsLongestFit, get-evict_if_needed}
use togewire.Cache.Methods.{
  put-IsValid_bounded, get-put_self, set_max_mb-IsValid_bounded, clear-IsValid, get_path-IsValid,
}
use togewire.Cache.Loading.{load-IsValid_order, existing_ids, IsOldestFirst}

abbrev track_a : Text
track_a = 1 ∷ []

abbrev track_b : Text
track_b = 2 ∷ []

abbrev track_c : Text
track_c = 3 ∷ []

abbrev entry_a : Entry
entry_a = record {
  last_accessed_at = pos 10;
  file_path = 11 ∷ [];
  file_size = pos 40;
  bitrate = [];
  normalized = false;
}

abbrev entry_b : Entry
entry_b = record {
  last_accessed_at = pos 20;
  file_path = 12 ∷ [];
  file_size = pos 50;
  bitrate = [];
  normalized = false;
}

abbrev two_entries : List (Text × Entry)
two_entries = (track_a, entry_a) ∷ (track_b, entry_b) ∷ []

abbrev empty_disk : Disk
empty_disk = record { nodes = []; refuses = λ p. false; lists = λ p. true; metadata = some [] }

abbrev two_tracks : Store
two_tracks = record {
  inner = record {
    dir = [];
    meta_file = [];
    max_bytes = pos 60;
    entries = two_entries;
    order = track_a ∷ track_b ∷ [];
    total_size_bytes = pos 90;
  };
  disk = empty_disk;
}

-- A metadata file is always read as the two entries.
abbrev two_codec : Codec
two_codec = record { to_string = λ m. some []; from_str = λ t. some two_entries }

two_tracks-IsValid : IsValid two_tracks.inner
unfolding count total_size
two_tracks-IsValid = record {
  keyed = λ k. ground arith;
  queued = λ k. refl;
  sized = (refl, (refl, tt));
  fits = omega arith;
  limited = refl;
  summed = refl;
}

-- The older track goes, the newer one stays.
kept_b : count Text-discrete track_b (evict_if_needed two_tracks).inner.order ≡ 1
unfolding evict_if_needed evict_loop remove_entry count Text-discrete get remove remove_file
kept_b = refl

kept_c :
    count Text-discrete track_c (put two_codec (pos 30) track_c [] [] false two_tracks).inner.order
    ≡ 1
unfolding put replace_old add_entry save evict_if_needed evict_loop remove_entry count Text-discrete
    get remove insert remove_file file_len
kept_c = refl

small : total_size two_entries + file_len [] empty_disk ≤ i64_max
unfolding total_size file_len get
small = omega arith

two_entries-IsMap : (k : Text) → count Text-discrete k (keys two_entries) ≤ 1
two_entries-IsMap = two_tracks-IsValid.keyed

evict_if_needed-IsLongestFit_example :
    IsLongestFit two_tracks.inner.order
      (evict_if_needed two_tracks).inner.order
      two_entries
      (pos 60)
evict_if_needed-IsLongestFit_example = evict_if_needed-IsLongestFit two_tracks two_tracks-IsValid

second_is_kept : get Text-discrete track_b (evict_if_needed two_tracks).inner.entries ≡ some entry_b
unfolding get Text-discrete
second_is_kept =
    get-evict_if_needed track_b two_tracks two_tracks-IsValid (λ e. ground (arith, kept_b))

put-IsValid_bounded_example :
    IsValid (put two_codec (pos 30) track_c [] [] false two_tracks).inner
    × ((put two_codec (pos 30) track_c [] [] false two_tracks).inner.total_size_bytes ≤ℤ pos 60)
put-IsValid_bounded_example =
    put-IsValid_bounded two_codec (pos 30) track_c [] [] false two_tracks two_tracks-IsValid small

get-put_self_example :
    get Text-discrete track_c (put two_codec (pos 30) track_c [] [] false two_tracks).inner.entries
    ≡ some (record {
      last_accessed_at = pos 30;
      file_path = [];
      file_size = pos (file_len [] empty_disk);
      bitrate = [];
      normalized = false;
    })
get-put_self_example =
    get-put_self two_codec (pos 30) track_c [] [] false two_tracks two_tracks-IsValid small
      (λ e. ground (arith, kept_c))

books_at_new_limit :
    IsValid (set_max_mb two_codec 100 two_tracks).inner
    × ((set_max_mb two_codec 100 two_tracks).inner.total_size_bytes ≤ℤ max_bytes 100)
books_at_new_limit = set_max_mb-IsValid_bounded two_codec 100 two_tracks two_tracks-IsValid

cleared_books :
    IsValid (clear two_codec two_tracks).inner × ((clear two_codec two_tracks).inner.entries ≡ [])
cleared_books = clear-IsValid two_codec two_tracks two_tracks-IsValid

looked_up_books : IsValid (get_path two_codec (pos 400) track_a two_tracks).0.inner
looked_up_books = get_path-IsValid two_codec (pos 400) track_a two_tracks two_tracks-IsValid

abbrev full_disk : Disk
full_disk = record empty_disk {
  nodes =
      (11 ∷ [], record { folder = []; name = 11 ∷ []; kind = file 40 })
      ∷ (12 ∷ [], record { folder = []; name = 12 ∷ []; kind = file 50 })
      ∷ [];
}

load-IsValid_order_example :
    (sorted : List (Text × Entry)) × IsValid (load two_codec full_disk two_tracks.inner)
    × ((load two_codec full_disk two_tracks.inner).order ≡ existing_ids full_disk sorted)
    × IsOldestFirst sorted
    × Perm sorted two_entries
unfolding total_size
load-IsValid_order_example =
    load-IsValid_order two_codec full_disk two_tracks.inner [] two_entries refl refl
      two_entries-IsMap (refl, (refl, tt)) (omega arith) refl
