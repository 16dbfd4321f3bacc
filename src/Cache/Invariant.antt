-- ===== src/Cache/Invariant.antt =====
-- src/cache.rs: the bookkeeping that ties the entries, the recency queue and the byte total together.
use togewire.Prelude.{
  ℕ, ◌+◌, ◌≤◌, ◌≡◌, some, List, [], ◌∷◌, Text, Text-discrete, count, without, arith, Option-cases,
  inl, inr, count-without_self, count-without_ne,
}
use togewire.Prelude.Int.{ℤ, pos, pos_part, neg_part, ◌-ℤ◌}
use togewire.Prelude.Words.{i64_max, wrap_i64, wrap_i64_id}
use togewire.Prelude.Maps.{
  keys, get, remove, IsMap, count-remove_self, count-remove_ne, remove_absent, get_of_count,
  IsMap-remove,
}
use togewire.Cache.Store.{Entry, Inner, Store, max_ℤ, remove_entry, remove_track}

abbrev pub size : Entry → ℕ
size e = pos_part e.file_size

unfoldable pub total_size : List (Text × Entry) → ℕ
total_size [] = 0
total_size ((k, e) ∷ m) = size e + total_size m

abbrev pub NoNegative : List (Text × Entry) → Type 0
NoNegative [] = Unit {0}
NoNegative ((k, e) ∷ m) = (neg_part e.file_size ≡ 0) × NoNegative m

-- The queue holds each cached track once, and the byte total is the exact sum of the sizes.
pub record IsValid (i : Inner) : Type 0 where
  pub keyed : IsMap Text-discrete i.entries
  pub queued : (k : Text) → count Text-discrete k i.order ≡ count Text-discrete k (keys i.entries)
  pub sized : NoNegative i.entries
  pub fits : total_size i.entries ≤ i64_max
  pub limited : neg_part i.max_bytes ≡ 0
  pub summed : i.total_size_bytes ≡ pos (total_size i.entries)

pub NoNegative-remove :
    (k : Text) (m : List (Text × Entry)) → NoNegative m → NoNegative (remove Text-discrete k m)
unfolding remove
NoNegative-remove k [] h = tt
NoNegative-remove k ((j, e) ∷ m) h = ground (arith, NoNegative-remove k m)

-- What a removed entry took goes out of the sum, where each key stands once.
pub total_size-remove :
    (k : Text) (m : List (Text × Entry)) (e : Entry)
    → count Text-discrete k (keys m) ≤ 1
    → get Text-discrete k m ≡ some e
    → total_size (remove Text-discrete k m) + size e ≡ total_size m
unfolding total_size get remove count
total_size-remove k [] e u h = cc
total_size-remove k ((j, f) ∷ m) e u h = ground (
  arith,
  total_size-remove k m e,
  get_of_count Text-discrete k m,
  remove_absent Text-discrete k m,
)

pub NoNegative-get :
    (k : Text) (m : List (Text × Entry)) (e : Entry)
    → NoNegative m
    → get Text-discrete k m ≡ some e
    → neg_part e.file_size ≡ 0
unfolding get
NoNegative-get k [] e n h = cc
NoNegative-get k ((j, f) ∷ m) e n h = ground (arith, NoNegative-get k m e)

-- The saturating subtraction of a removed entry is exact.
pub subtract_size :
    (total part : ℕ) (size_of : ℤ)
    → neg_part size_of ≡ 0
    → part + pos_part size_of ≡ total
    → total ≤ i64_max
    → max_ℤ (wrap_i64 (pos total -ℤ size_of)) (pos 0) ≡ pos part
unfolding ◌-ℤ◌
subtract_size total part size_of n e h = ground (arith, wrap_i64_id (pos part))

-- The states of one removal: the entry goes, and so does its place in the queue.
pub remove_entry-IsValid :
    (k : Text) (s : Store) (before ids : List Text)
    → IsValid (record (s.inner) { order = before })
    → ((q : Text)
        → count Text-discrete q ids
          ≡ count Text-discrete q (keys (remove Text-discrete k s.inner.entries)))
    → IsValid (record ((remove_entry k s).inner) { order = ids })
unfolding remove_entry
remove_entry-IsValid k s before ids v same =
    elim (Option-cases (get Text-discrete k s.inner.entries)) [
      | inl e ↦
          rw (e, remove_entry)
            (record {
              keyed = v.keyed;
              queued = λ q. rw (remove_absent Text-discrete k s.inner.entries e) at (same q);
              sized = v.sized;
              fits = v.fits;
              limited = v.limited;
              summed = v.summed;
            })
      | inr (old, e) ↦
          let gone = total_size-remove k s.inner.entries old (v.keyed k) e in
          rw (e, remove_entry)
            (record {
              keyed = IsMap-remove Text-discrete k s.inner.entries v.keyed;
              queued = same;
              sized = NoNegative-remove k s.inner.entries v.sized;
              fits = omega (arith, gone, v.fits);
              limited = v.limited;
              summed = rw (v.summed) (
                  subtract_size _ _ old.file_size (NoNegative-get k s.inner.entries old v.sized e)
                    gone v.fits);
            })
    ]

pub without-keys :
    (k q : Text) (ids : List Text) (m : List (Text × Entry))
    → count Text-discrete q ids ≡ count Text-discrete q (keys m)
    → count Text-discrete q (without Text-discrete k ids)
      ≡ count Text-discrete q (keys (remove Text-discrete k m))
without-keys k q ids m h = elim (Text-discrete k q) [
  | yes p ↦ rw (← p, count-remove_self Text-discrete k m) (count-without_self Text-discrete k ids)
  | no n ↦ rw (count-remove_ne Text-discrete k q m n, count-without_ne Text-discrete k q ids n) h
]

pub order-remove_entry : (k : Text) (s : Store) → (remove_entry k s).inner.order ≡ s.inner.order
unfolding remove_entry
order-remove_entry k s = ground arith

pub remove_track-IsValid :
    (k : Text) (s : Store) → IsValid s.inner → IsValid (remove_track k s).inner
unfolding remove_track
remove_track-IsValid k s v =
    remove_entry-IsValid k s s.inner.order _ v
      λ q. rw (order-remove_entry k s) (without-keys k q _ s.inner.entries (v.queued q))
