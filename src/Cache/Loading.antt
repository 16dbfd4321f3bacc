-- ===== src/Cache/Loading.antt =====
-- src/cache.rs: `load` rebuilds the books, and the queue in order of last access, from the metadata
-- file.
use mathlib.Core.List.{append-nil, append_assoc, Perm}
use mathlib.Core.List.Perm
use togewire.Prelude.{
  ◌+◌, ◌≤◌, ◌≡◌, refl, ◌∙◌, none, some, List, [], ◌∷◌, ◌++◌, Text, Text-discrete, count, arith,
  Bool-cases, inl, inr, if◌then◌else◌,
}
use togewire.Prelude.Int.{ℤ, pos, neg_part, ◌≤ℤ◌, ltb_ℤ}
use togewire.Prelude.Words.{i64_max}
use togewire.Prelude.Maps.{keys, get, IsMap, get_of_count, remove_absent}
use togewire.Cache.Disk.{Disk, exists}
use togewire.Cache.Store.{Entry, Inner, Codec}
use togewire.Cache.Manager.{load, load_entries, add_entry, sort_by_access, insert_by_access}
use togewire.Cache.Invariant.{size, total_size, IsValid, NoNegative}
use togewire.Cache.Steps.{add_entry-IsValid}

abbrev Entries : Type 0
Entries = List (Text × Entry)

count-insert_by_access :
    (q : Text) (e : Text × Entry) (m : Entries)
    → count Text-discrete q (keys (insert_by_access e m)) ≡ count Text-discrete q (keys (e ∷ m))
unfolding count insert_by_access
count-insert_by_access q (k, e) [] = refl
count-insert_by_access q (k, e) ((j, f) ∷ m) = ground (arith, count-insert_by_access q (k, e) m)

count-sort_by_access :
    (q : Text) (m : Entries)
    → count Text-discrete q (keys (sort_by_access m)) ≡ count Text-discrete q (keys m)
unfolding count sort_by_access
count-sort_by_access q [] = refl
count-sort_by_access q ((k, e) ∷ m) =
    ground (arith, count-sort_by_access q m, count-insert_by_access q (k, e) (sort_by_access m))

total_size-insert_by_access :
    (e : Text × Entry) (m : Entries) → total_size (insert_by_access e m) ≡ size e.1 + total_size m
unfolding total_size insert_by_access
total_size-insert_by_access (k, e) [] = refl
total_size-insert_by_access (k, e) ((j, f) ∷ m) =
    ground (arith, total_size-insert_by_access (k, e) m)

total_size-sort_by_access : (m : Entries) → total_size (sort_by_access m) ≡ total_size m
unfolding total_size sort_by_access
total_size-sort_by_access [] = refl
total_size-sort_by_access ((k, e) ∷ m) =
    omega
      (arith, total_size-insert_by_access (k, e) (sort_by_access m), total_size-sort_by_access m)

NoNegative-insert_by_access :
    (e : Text × Entry) (m : Entries)
    → neg_part (e.1).file_size ≡ 0
    → NoNegative m
    → NoNegative (insert_by_access e m)
unfolding insert_by_access
NoNegative-insert_by_access (k, e) [] n h = (n, tt)
NoNegative-insert_by_access (k, e) ((j, f) ∷ m) n h =
    ground (arith, NoNegative-insert_by_access (k, e) m n h.1)

NoNegative-sort_by_access : (m : Entries) → NoNegative m → NoNegative (sort_by_access m)
unfolding sort_by_access
NoNegative-sort_by_access [] h = tt
NoNegative-sort_by_access ((k, e) ∷ m) h =
    NoNegative-insert_by_access (k, e) (sort_by_access m) h.0 (NoNegative-sort_by_access m h.1)

-- The keys of a state and those still to be loaded, each once.
abbrev IsApart : Inner → Entries → Type 0
IsApart i m =
    (q : Text) → count Text-discrete q (keys i.entries) + count Text-discrete q (keys m) ≤ 1

count-add_entry :
    (k q : Text) (e : Entry) (i : Inner)
    → get Text-discrete k i.entries ≡ none
    → count Text-discrete q (keys (add_entry k e i).entries)
      ≡ count Text-discrete q (k ∷ keys i.entries)
unfolding add_entry count
count-add_entry k q e i fresh = ground (arith, remove_absent Text-discrete k i.entries fresh)

total_size-add_entry :
    (k : Text) (e : Entry) (i : Inner)
    → get Text-discrete k i.entries ≡ none
    → total_size (add_entry k e i).entries ≡ size e + total_size i.entries
unfolding add_entry total_size
total_size-add_entry k e i fresh = ground (arith, remove_absent Text-discrete k i.entries fresh)

load_entries-IsValid :
    (d : Disk) (m : Entries) (i : Inner)
    → IsValid i
    → NoNegative m
    → IsApart i m
    → total_size i.entries + total_size m ≤ i64_max
    → IsValid (load_entries d m i)
unfolding load_entries total_size count
load_entries-IsValid d [] i v n apart room = v
load_entries-IsValid d ((k, e) ∷ m) i v n apart room = elim (Bool-cases (exists e.file_path d)) [
  | inl there ↦ rw there (
      load_entries-IsValid d m (add_entry k e i) (add_entry-IsValid k e i fresh n.0 (omega arith) v)
        n.1 (λ q. ground (arith, apart q, count-add_entry k q e i fresh))
        (omega (arith, total_size-add_entry k e i fresh)))
  | inr gone ↦
      rw gone (load_entries-IsValid d m i v n.1 (λ q. ground (arith, apart q)) (omega arith))
]
  where
    fresh : get Text-discrete k i.entries ≡ none
    fresh = get_of_count Text-discrete k i.entries (ground (arith, apart k))

-- The ids of the entries whose file is still there.
unfoldable pub existing_ids : Disk → Entries → List Text
existing_ids d [] = []
existing_ids d ((k, e) ∷ m) =
    let rest = existing_ids d m in if exists e.file_path d then k ∷ rest else rest

order-load_entries :
    (d : Disk) (m : Entries) (i : Inner) → (load_entries d m i).order ≡ i.order ++ existing_ids d m
unfolding load_entries existing_ids
order-load_entries d [] i = rw append-nil
order-load_entries d ((k, e) ∷ m) i = elim (Bool-cases (exists e.file_path d)) [
  | inl there ↦ rw (there, load_entries) (order-load_entries d m (add_entry k e i) ∙ order_add)
  | inr gone ↦ rw (gone, load_entries) (order-load_entries d m i)
]
  where
    order_add : (add_entry k e i).order ++ existing_ids d m ≡ i.order ++ k ∷ existing_ids d m
    order_add = unfold add_entry in rw append_assoc

-- Least recently used first.
abbrev pub AllAfter : ℤ → Entries → Type 0
AllAfter at [] = Unit {0}
AllAfter at ((k, e) ∷ m) = (at ≤ℤ e.last_accessed_at) × AllAfter at m

abbrev pub IsOldestFirst : Entries → Type 0
IsOldestFirst [] = Unit {0}
IsOldestFirst ((k, e) ∷ m) = AllAfter e.last_accessed_at m × IsOldestFirst m

AllAfter-insert_by_access :
    (at : ℤ) (e : Text × Entry) (m : Entries)
    → at ≤ℤ (e.1).last_accessed_at
    → AllAfter at m
    → AllAfter at (insert_by_access e m)
unfolding insert_by_access
AllAfter-insert_by_access at (k, e) [] h all = (h, tt)
AllAfter-insert_by_access at (k, e) ((j, f) ∷ m) h all =
    ground (arith, AllAfter-insert_by_access at (k, e) m h all.1)

AllAfter-mono : (a b : ℤ) (m : Entries) → a ≤ℤ b → AllAfter b m → AllAfter a m
AllAfter-mono a b [] h all = tt
AllAfter-mono a b ((k, e) ∷ m) h all = (omega (arith, all.0), AllAfter-mono a b m h all.1)

IsOldestFirst-insert_by_access :
    (e : Text × Entry) (m : Entries) → IsOldestFirst m → IsOldestFirst (insert_by_access e m)
unfolding insert_by_access
IsOldestFirst-insert_by_access (k, e) [] s = (tt, tt)
IsOldestFirst-insert_by_access (k, e) ((j, f) ∷ m) s =
    elim (Bool-cases (ltb_ℤ f.last_accessed_at e.last_accessed_at)) [
      | inl older ↦ rw older (
        AllAfter-insert_by_access f.last_accessed_at (k, e) m (ground arith) s.0,
        IsOldestFirst-insert_by_access (k, e) m s.1,
      )
      | inr newer ↦ rw newer (
        (ground arith, AllAfter-mono e.last_accessed_at f.last_accessed_at m (ground arith) s.0),
        s,
      )
    ]

IsOldestFirst-sort_by_access : (m : Entries) → IsOldestFirst (sort_by_access m)
unfolding sort_by_access
IsOldestFirst-sort_by_access [] = tt
IsOldestFirst-sort_by_access ((k, e) ∷ m) =
    IsOldestFirst-insert_by_access (k, e) (sort_by_access m) (IsOldestFirst-sort_by_access m)

Perm-insert_by_access : (e : Text × Entry) (m : Entries) → Perm (insert_by_access e m) (e ∷ m)
unfolding insert_by_access
Perm-insert_by_access e [] = Perm.rfl
Perm-insert_by_access e (f ∷ m) =
    elim (Bool-cases (ltb_ℤ (f.1).last_accessed_at (e.1).last_accessed_at)) [
      | inl older ↦
          rw older (Perm.trans (Perm.cons f (Perm-insert_by_access e m)) (Perm.swap e f m))
      | inr newer ↦ rw newer Perm.rfl
    ]

Perm-sort_by_access : (m : Entries) → Perm (sort_by_access m) m
unfolding sort_by_access
Perm-sort_by_access [] = Perm.rfl
Perm-sort_by_access (e ∷ m) =
    Perm.trans (Perm-insert_by_access e (sort_by_access m)) (Perm.cons e (Perm-sort_by_access m))

-- What `load` starts from.
empty-IsValid :
    (i : Inner)
    → neg_part i.max_bytes ≡ 0
    → IsValid (record i { entries = []; order = []; total_size_bytes = pos 0 })
unfolding count total_size
empty-IsValid i h = record {
  keyed = λ k. omega arith;
  queued = λ k. refl;
  sized = tt;
  fits = omega arith;
  limited = h;
  summed = refl;
}

load_lem :
    (codec : Codec) (d : Disk) (i : Inner) (text : Text) (m : Entries)
    → d.metadata ≡ some text
    → codec.from_str text ≡ some m
    → load codec d i
      ≡ load_entries d
          (sort_by_access m)
          (record i { entries = []; order = []; total_size_bytes = pos 0 })
unfolding load
load_lem codec d i text m ht hm = ground arith

-- From metadata with each track once, sizes that are not negative and whose sum fits an `i64`,
-- startup rebuilds valid books under a limit that is not negative. Its queue is the tracks whose file
-- is still there, in the order of the metadata's own entries by last access, the oldest first.
pub load-IsValid_order :
    (codec : Codec) (d : Disk) (i : Inner) (text : Text) (m : Entries)
    → d.metadata ≡ some text
    → codec.from_str text ≡ some m
    → IsMap Text-discrete m
    → NoNegative m
    → total_size m ≤ i64_max
    → neg_part i.max_bytes ≡ 0
    → (sorted : Entries) × IsValid (load codec d i)
      × ((load codec d i).order ≡ existing_ids d sorted)
      × IsOldestFirst sorted
      × Perm sorted m
unfolding count total_size
load-IsValid_order codec d i text m ht hm u n fits limit = rw (load_lem codec d i text m ht hm) (
  sort_by_access m,
  load_entries-IsValid d (sort_by_access m) _ (empty-IsValid i limit)
      (NoNegative-sort_by_access m n) (λ q. omega (arith, count-sort_by_access q m, u q))
      (omega (arith, total_size-sort_by_access m)),
  order-load_entries d (sort_by_access m) _,
  IsOldestFirst-sort_by_access m,
  Perm-sort_by_access m,
)
