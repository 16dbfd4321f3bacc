-- ===== src/Cache/Eviction.antt =====
-- src/cache.rs: `evict_if_needed` keeps the newest tracks that fit.
use togewire.Prelude.{
  ℕ, ◌+◌, ◌≤◌, ◌≡◌, refl, none, some, List, [], ◌∷◌, ◌++◌, Text, Text-discrete, count, arith,
  Option-cases, Bool-cases, true, false, inl, inr, length, length-append, ap, count-append,
}
use togewire.Prelude.Int.{ℤ, pos, ◌≤ℤ◌, ltb_ℤ}
use togewire.Prelude.Maps.{
  keys, get, remove, IsMap, count-remove_self, count-remove_ne, get-remove_ne, count_of_get,
  IsMap-remove, remove_absent,
}
use togewire.Cache.Store.{Entry, Inner, Store, set_order, remove_entry, evict_loop, evict_if_needed}
use togewire.Cache.Invariant.{size, total_size, IsValid, total_size-remove, remove_entry-IsValid}

-- Dropping the front of a queue that names each key as often as the map does.
count-tail :
    (k q : Text) (ids : List Text) (m : List (Text × Entry))
    → IsMap Text-discrete m
    → ((p : Text) → count Text-discrete p (k ∷ ids) ≡ count Text-discrete p (keys m))
    → count Text-discrete q ids ≡ count Text-discrete q (keys (remove Text-discrete k m))
unfolding count
count-tail k q ids m u h = elim (Text-discrete k q) [
  | yes p ↦ rw (← p, count-remove_self Text-discrete k m) (ground (arith, h k, u k))
  | no n ↦ rw (count-remove_ne Text-discrete k q m n) (ground (arith, h q))
]

abbrev queue : List Text → Store → Inner
queue ids s = record (s.inner) { order = ids }

evict_loop-IsValid :
    (ids : List Text) (s : Store) → IsValid (queue ids s) → IsValid (evict_loop ids s).inner
unfolding evict_loop
evict_loop-IsValid [] s v = v
evict_loop-IsValid (k ∷ ids) s v =
    elim (Bool-cases (ltb_ℤ s.inner.max_bytes s.inner.total_size_bytes)) [
      | inl over ↦ rw over (
          evict_loop-IsValid ids (remove_entry k s) (
            remove_entry-IsValid k s (k ∷ ids) ids v
              (λ q. count-tail k q ids s.inner.entries v.keyed v.queued)))
      | inr fits ↦ rw fits v
    ]

-- Eviction keeps the bookkeeping.
pub evict_if_needed-IsValid : (s : Store) → IsValid s.inner → IsValid (evict_if_needed s).inner
unfolding evict_if_needed
evict_if_needed-IsValid s v = evict_loop-IsValid s.inner.order s v

-- The bytes of the entries that a queue names.
unfoldable pub queue_size : List (Text × Entry) → List Text → ℕ
queue_size m [] = 0
queue_size m (k ∷ ids) =
    (elim (get Text-discrete k m) [ none ↦ 0 | some e ↦ size e ]) + queue_size m ids

queue_size-remove :
    (k : Text) (m : List (Text × Entry)) (ids : List Text)
    → count Text-discrete k ids ≡ 0
    → queue_size (remove Text-discrete k m) ids ≡ queue_size m ids
unfolding queue_size count
queue_size-remove k m [] h = refl
queue_size-remove k m (j ∷ ids) h = elim (Text-discrete k j) [
  | yes p ↦ absurd (ground arith)
  | no n ↦ rw (get-remove_ne Text-discrete k j m n) (ground (arith, queue_size-remove k m ids))
]

total_size-eq-zero :
    (m : List (Text × Entry)) → ((k : Text) → 0 ≡ count Text-discrete k (keys m)) → total_size m ≡ 0
unfolding total_size count
total_size-eq-zero [] h = refl
total_size-eq-zero ((k, e) ∷ m) h = ground (arith, h k)

-- Where queue and map agree, the queue names every byte.
pub total_size-eq-queue_size :
    (ids : List Text) (m : List (Text × Entry))
    → IsMap Text-discrete m
    → ((k : Text) → count Text-discrete k ids ≡ count Text-discrete k (keys m))
    → total_size m ≡ queue_size m ids
unfolding queue_size count
total_size-eq-queue_size [] m u h = total_size-eq-zero m h
total_size-eq-queue_size (k ∷ ids) m u h = elim (Option-cases (get Text-discrete k m)) [
  | inl e ↦ absurd (ground (arith, h k, count_of_get Text-discrete k m e))
  | inr (old, e) ↦ rw e (
      omega (
        arith,
        total_size-remove k m old (u k) e,
        total_size-eq-queue_size ids (remove Text-discrete k m) (IsMap-remove Text-discrete k m u)
            (λ q. count-tail k q ids m u h),
        queue_size-remove k m ids (ground (arith, h k, u k)),
      ))
]

-- What is left of the queue.
abbrev left : List Text → Store → List Text
left ids s = (evict_loop ids s).inner.order

max_bytes-remove_entry :
    (k : Text) (s : Store) → (remove_entry k s).inner.max_bytes ≡ s.inner.max_bytes
unfolding remove_entry
max_bytes-remove_entry k s = ground arith

-- The queue that is left, against any end of the queue that fits.
pub record IsLongestFit (ids kept : List Text) (m : List (Text × Entry)) (limit : ℤ) : Type 0 where
  pub fits : pos (queue_size m kept) ≤ℤ limit
  pub suffix : (gone : List Text) × (ids ≡ gone ++ kept)
  pub longest :
      (gone rest : List Text)
      → ids ≡ gone ++ rest
      → pos (queue_size m rest) ≤ℤ limit
      → length rest ≤ length kept

entries-remove_entry :
    (k : Text) (s : Store)
    → (remove_entry k s).inner.entries ≡ remove Text-discrete k s.inner.entries
unfolding remove_entry
entries-remove_entry k s = ground (arith, remove_absent Text-discrete k s.inner.entries)

count-suffix :
    (k : Text) (ids gone rest : List Text)
    → ids ≡ gone ++ rest
    → count Text-discrete k ids ≡ 0
    → count Text-discrete k rest ≡ 0
count-suffix k ids gone rest e h =
    omega (arith, ap (count Text-discrete k) e, count-append Text-discrete k gone rest)

-- Nothing has to go: the whole queue fits.
fit_all :
    (ids : List Text) (m : List (Text × Entry)) (limit : ℤ)
    → pos (queue_size m ids) ≤ℤ limit
    → IsLongestFit ids ids m limit
fit_all ids m limit h = record {
  fits = h;
  suffix = ([], refl);
  longest = λ gone rest e _. omega (arith, ap length e, length-append gone rest);
}

-- The front has to go; `m'` is what the map is without it.
fit_tail :
    (k : Text) (ids kept : List Text) (m m' : List (Text × Entry)) (limit limit' : ℤ)
    → m' ≡ remove Text-discrete k m
    → limit' ≡ limit
    → count Text-discrete k ids ≡ 0
    → ¬ (pos (queue_size m (k ∷ ids)) ≤ℤ limit)
    → IsLongestFit ids kept m' limit'
    → IsLongestFit (k ∷ ids) kept m limit
fit_tail k ids kept m m' limit limit' em el once over f' = record {
  fits = rw (same kept (count-suffix k ids f.suffix.0 kept f.suffix.1 once)) at f.fits;
  suffix = (k ∷ f.suffix.0, ap (◌∷◌ k) f.suffix.1);
  longest = go;
}
  where
    f : IsLongestFit ids kept (remove Text-discrete k m) limit
    f = rw (em, el) at f'

    same :
        (rest : List Text)
        → count Text-discrete k rest ≡ 0
        → queue_size (remove Text-discrete k m) rest ≡ queue_size m rest
    same rest = queue_size-remove k m rest

    go :
        (gone rest : List Text)
        → k ∷ ids ≡ gone ++ rest
        → pos (queue_size m rest) ≤ℤ limit
        → length rest ≤ length kept
    go [] rest e h = absurd (over (rw e h))
    go (j ∷ gone) rest e h =
        let e' : ids ≡ gone ++ rest = cc in
        f.longest gone rest e' (rw (same rest (count-suffix k ids gone rest e' once)) h)

evict_loop-over :
    (k : Text) (ids : List Text) (s : Store)
    → ltb_ℤ s.inner.max_bytes s.inner.total_size_bytes ≡ true
    → evict_loop (k ∷ ids) s ≡ evict_loop ids (remove_entry k s)
unfolding evict_loop
evict_loop-over k ids s h = rw h

evict_loop-under :
    (k : Text) (ids : List Text) (s : Store)
    → ltb_ℤ s.inner.max_bytes s.inner.total_size_bytes ≡ false
    → evict_loop (k ∷ ids) s ≡ set_order (k ∷ ids) s
unfolding evict_loop
evict_loop-under k ids s h = rw h

order-evict_loop-nil : (s : Store) → (evict_loop [] s).inner.order ≡ []
unfolding evict_loop
order-evict_loop-nil s = refl

-- The total of a valid state, as what the queue names.
summed :
    (ids : List Text) (s : Store)
    → IsValid (queue ids s)
    → s.inner.total_size_bytes ≡ pos (queue_size s.inner.entries ids)
summed ids s v = rw (← total_size-eq-queue_size ids s.inner.entries v.keyed v.queued) v.summed

evict_loop-IsLongestFit :
    (ids : List Text) (s : Store)
    → IsValid (queue ids s)
    → IsLongestFit ids (evict_loop ids s).inner.order s.inner.entries s.inner.max_bytes
unfolding queue_size count
evict_loop-IsLongestFit [] s v =
    rw (order-evict_loop-nil s)
      (fit_all [] s.inner.entries s.inner.max_bytes (ground (arith, v.limited)))
evict_loop-IsLongestFit (k ∷ ids) s v =
    elim (Bool-cases (ltb_ℤ s.inner.max_bytes s.inner.total_size_bytes)) [
      | inl over ↦ rw (evict_loop-over k ids s over) (
          fit_tail k ids _ s.inner.entries _ s.inner.max_bytes _ (entries-remove_entry k s)
            (max_bytes-remove_entry k s) (ground (arith, v.queued k, v.keyed k))
            (λ h. ground (arith, summed (k ∷ ids) s v))
            (evict_loop-IsLongestFit ids (remove_entry k s) (
              remove_entry-IsValid k s (k ∷ ids) ids v
                (λ q. count-tail k q ids s.inner.entries v.keyed v.queued))))
      | inr fits ↦ rw (evict_loop-under k ids s fits) (
          fit_all (k ∷ ids) s.inner.entries s.inner.max_bytes
            (ground (arith, summed (k ∷ ids) s v)))
    ]

evict_loop-bounded :
    (ids : List Text) (s : Store)
    → IsValid (queue ids s)
    → (evict_loop ids s).inner.total_size_bytes ≤ℤ s.inner.max_bytes
unfolding evict_loop queue_size
evict_loop-bounded [] s v = ground (arith, summed [] s v, v.limited)
evict_loop-bounded (k ∷ ids) s v = ground (
  arith,
  max_bytes-remove_entry k s,
  evict_loop-bounded ids (remove_entry k s) (
      remove_entry-IsValid k s (k ∷ ids) ids v
        (λ q. count-tail k q ids s.inner.entries v.keyed v.queued)),
)

-- In a cache with valid books, eviction drops the least recently used tracks and no more of them
-- than the limit asks for: what stays is the longest end of the queue that fits.
pub evict_if_needed-IsLongestFit :
    (s : Store)
    → IsValid s.inner
    → IsLongestFit s.inner.order (evict_if_needed s).inner.order s.inner.entries s.inner.max_bytes
unfolding evict_if_needed
evict_if_needed-IsLongestFit s v = evict_loop-IsLongestFit s.inner.order s v

count-evict_loop-le :
    (q : Text) (ids : List Text) (s : Store)
    → count Text-discrete q (evict_loop ids s).inner.order ≤ count Text-discrete q ids
unfolding count evict_loop
count-evict_loop-le q [] s = omega arith
count-evict_loop-le q (k ∷ ids) s = ground (arith, count-evict_loop-le q ids (remove_entry k s))

get-evict_loop :
    (q : Text) (ids : List Text) (s : Store)
    → ¬ (count Text-discrete q (evict_loop ids s).inner.order ≡ 0)
    → count Text-discrete q ids ≤ 1
    → get Text-discrete q (evict_loop ids s).inner.entries ≡ get Text-discrete q s.inner.entries
unfolding count evict_loop
get-evict_loop q [] s h u = refl
get-evict_loop q (k ∷ ids) s h u = ground (
  arith,
  count-evict_loop-le q ids (remove_entry k s),
  get-evict_loop q ids (remove_entry k s),
  entries-remove_entry k s,
  get-remove_ne Text-discrete k q s.inner.entries,
)

-- In a cache with valid books, a track that stays in the queue through an eviction keeps its
-- entry.
pub get-evict_if_needed :
    (q : Text) (s : Store)
    → IsValid s.inner
    → ¬ (count Text-discrete q (evict_if_needed s).inner.order ≡ 0)
    → get Text-discrete q (evict_if_needed s).inner.entries ≡ get Text-discrete q s.inner.entries
unfolding evict_if_needed
get-evict_if_needed q s v h =
    get-evict_loop q s.inner.order s h (omega (arith, v.queued q, v.keyed q))

-- After eviction the byte total is within the limit.
pub evict_if_needed-bounded :
    (s : Store) → IsValid s.inner → (evict_if_needed s).inner.total_size_bytes ≤ℤ s.inner.max_bytes
unfolding evict_if_needed
evict_if_needed-bounded s v = evict_loop-bounded s.inner.order s v
