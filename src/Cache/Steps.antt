-- ===== src/Cache/Steps.antt =====
-- src/cache.rs: the parts of `put`, `load` and `get_path` keep the bookkeeping.
use togewire.Prelude.{
  ℕ, ◌+◌, ◌≤◌, ◌≡◌, refl, sym, ap, ◌∙◌, if◌then◌else◌, none, some, List, [], ◌∷◌, ◌++◌, Text, Bool,
  true, false, Text-discrete, count, without, arith, Option-cases, inl, inr, count-append,
  count-without_self, count-without_ne,
}
use togewire.Prelude.Int.{ℤ, pos, pos_part, neg_part, ◌+ℤ◌}
use togewire.Prelude.Words.{i64_max, wrap_i64, wrap_i64_id}
use togewire.Prelude.Maps.{
  keys, get, insert, IsMap, IsMap-remove, IsMap-insert, remove_absent, count-insert_old,
  count-pos_of_get, get-remove_self,
}
use togewire.Cache.Store.{Entry, Inner, Store, touch, refresh}
use togewire.Cache.Manager.{replace_old, add_entry}
use togewire.Cache.Invariant.{
  size, total_size, IsValid, NoNegative-remove, NoNegative-get, subtract_size, total_size-remove,
  without-keys,
}

-- The state of `put` once the older entry is out.
pub replace_old-IsValid :
    (k path : Text) (s : Store) → IsValid s.inner → IsValid (replace_old k path s).inner
unfolding replace_old
replace_old-IsValid k path s v = elim (Option-cases (get Text-discrete k s.inner.entries)) [
  | inl e ↦ rw (e, replace_old) v
  | inr (old, e) ↦
      let gone = total_size-remove k s.inner.entries old (v.keyed k) e in
      rw (e, replace_old)
        (record {
          keyed = IsMap-remove Text-discrete k s.inner.entries v.keyed;
          queued = λ q. without-keys k q s.inner.order s.inner.entries (v.queued q);
          sized = NoNegative-remove k s.inner.entries v.sized;
          fits = omega (arith, gone, v.fits);
          limited = v.limited;
          summed = rw v.summed (
              subtract_size _ _ old.file_size (NoNegative-get k s.inner.entries old v.sized e) gone
                v.fits);
        })
]

-- No entry of the track is left by then.
pub get-replace_old :
    (k path : Text) (s : Store) → get Text-discrete k (replace_old k path s).inner.entries ≡ none
unfolding replace_old
get-replace_old k path s = ground (arith, get-remove_self Text-discrete k s.inner.entries)

-- The wrapping addition of a new entry is exact.
add_size :
    (total : ℕ) (size_of : ℤ)
    → neg_part size_of ≡ 0
    → total + pos_part size_of ≤ i64_max
    → wrap_i64 (pos total +ℤ size_of) ≡ pos (pos_part size_of + total)
unfolding ◌+ℤ◌
add_size total size_of n h = ground (arith, wrap_i64_id (pos (pos_part size_of + total)))

-- A new entry goes to the end of the queue.
queued-add :
    (k q : Text) (e : Entry) (ids : List Text) (m : List (Text × Entry))
    → get Text-discrete k m ≡ none
    → ((p : Text) → count Text-discrete p ids ≡ count Text-discrete p (keys m))
    → count Text-discrete q (ids ++ k ∷ [])
      ≡ count Text-discrete q (keys (insert Text-discrete k e m))
unfolding count insert
queued-add k q e ids m fresh h =
    ground
      (arith, count-append Text-discrete q ids (k ∷ []), h q, remove_absent Text-discrete k m fresh)

pub add_entry-IsValid :
    (k : Text) (e : Entry) (i : Inner)
    → get Text-discrete k i.entries ≡ none
    → neg_part e.file_size ≡ 0
    → total_size i.entries + size e ≤ i64_max
    → IsValid i
    → IsValid (add_entry k e i)
unfolding add_entry insert total_size
add_entry-IsValid k e i fresh n room v = record {
  keyed = IsMap-insert Text-discrete k e i.entries v.keyed;
  queued = λ q. queued-add k q e i.order i.entries fresh v.queued;
  sized = (n, NoNegative-remove k i.entries v.sized);
  fits = rw (remove_absent Text-discrete k i.entries fresh) (omega arith);
  limited = v.limited;
  summed =
      rw (v.summed, remove_absent Text-discrete k i.entries fresh)
        (add_size (total_size i.entries) e.file_size n room);
}

pub total_size-replace_old-le :
    (k path : Text) (s : Store)
    → IsValid s.inner
    → total_size (replace_old k path s).inner.entries ≤ total_size s.inner.entries
unfolding replace_old
total_size-replace_old-le k path s v = elim (Option-cases (get Text-discrete k s.inner.entries)) [
  | inl e ↦ rw (e, replace_old) (omega arith)
  | inr (old, e) ↦
      rw (e, replace_old) (omega (arith, total_size-remove k s.inner.entries old (v.keyed k) e))
]

total_size-insert_old :
    (k : Text) (e e' : Entry) (m : List (Text × Entry))
    → IsMap Text-discrete m
    → get Text-discrete k m ≡ some e
    → e'.file_size ≡ e.file_size
    → total_size (insert Text-discrete k e' m) ≡ total_size m
unfolding total_size insert
total_size-insert_old k e e' m u h same =
    omega (arith, total_size-remove k m e (u k) h, ap pos_part same)

-- A move to the end of the queue.
count-move :
    (k q : Text) (ids : List Text)
    → count Text-discrete k ids ≡ 1
    → count Text-discrete q (without Text-discrete k ids ++ k ∷ []) ≡ count Text-discrete q ids
unfolding count
count-move k q ids h = elim (Text-discrete k q) [
  | yes p ↦ rw (← p) (
      ground (
        arith,
        count-append Text-discrete k (without Text-discrete k ids) (k ∷ []),
        count-without_self Text-discrete k ids,
      ))
  | no n ↦ ground (
    arith,
    count-append Text-discrete q (without Text-discrete k ids) (k ∷ []),
    count-without_ne Text-discrete k q ids n,
  )
]

count-either :
    (b : Bool) (q : Text) (ids moved : List Text) {n : ℕ}
    → count Text-discrete q ids ≡ n
    → count Text-discrete q moved ≡ n
    → count Text-discrete q (if b then ids else moved) ≡ n
count-either true q ids moved h h' = h
count-either false q ids moved h h' = h'

-- A recency bump changes no key and no size.
refresh-IsValid :
    (now : ℤ) (k : Text) (e : Entry) (i : Inner)
    → get Text-discrete k i.entries ≡ some e
    → IsValid i
    → IsValid (refresh now k e i)
unfolding refresh
refresh-IsValid now k e i h v = record {
  keyed = IsMap-insert Text-discrete k (record e { last_accessed_at = now }) i.entries v.keyed;
  queued = λ q.
      let same =
        count-insert_old Text-discrete k q e (record e { last_accessed_at = now }) i.entries v.keyed
          h in
      count-either _ q i.order _ (v.queued q ∙ sym same)
        (count-move k q i.order once ∙ v.queued q ∙ sym same);
  sized = (NoNegative-get k i.entries e v.sized h, NoNegative-remove k i.entries v.sized);
  fits =
      rw (total_size-insert_old k e (record e { last_accessed_at = now }) i.entries v.keyed h refl)
        v.fits;
  limited = v.limited;
  summed =
      rw (total_size-insert_old k e (record e { last_accessed_at = now }) i.entries v.keyed h refl)
        v.summed;
}
  where
    once : count Text-discrete k i.order ≡ 1
    once = omega (arith, v.queued k, v.keyed k, count-pos_of_get Text-discrete k i.entries e h)

pub touch-IsValid : (now : ℤ) (k : Text) (i : Inner) → IsValid i → IsValid (touch now k i).0
unfolding touch
touch-IsValid now k i v = elim (Option-cases (get Text-discrete k i.entries)) [
  | inl e ↦ rw (e, touch) v
  | inr (entry, e) ↦ rw (e, touch) (either _ (refresh-IsValid now k entry i e v))
]
  where
    either :
        {j : Inner} (b : Bool)
        → IsValid j
        → IsValid (if◌then◌else◌ {A = Inner × Bool} b (i, false) (j, true)).0
    either true w = v
    either false w = w
