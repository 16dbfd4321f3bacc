-- ===== src/Cache/FreeNames.antt =====
-- src/cache.rs: `track_path` finds a free name in the folder of the cache.
use mathlib.Core.List.{append_cancel_left, append_cancel_right}
use togewire.Prelude.{
  ℕ, zero, suc, ◌+◌, ◌≤◌, ◌<◌, ◌≡◌, ◌≢◌, refl, ◌∙◌, sym, ap, subst, [], ◌∷◌, ◌++◌, List, Text,
  Text-discrete, if◌then◌else◌, arith, length, Bool-cases, Option-cases, none, some, inl, inr, true,
  false, all, codes, is_some,
}
use togewire.Prelude.Maps.{get, remove, get-remove_ne, length-remove-lt}
use togewire.Prelude.Decimal.{decimal}
use togewire.Prelude.DecimalLaws.{decimal-injective}
use togewire.Types.{Track}
use togewire.Cache.Disk.{Node, exists, starts_with}
use togewire.Cache.Store.{Store}
use togewire.Cache.Manager.{ends_with}
use togewire.Cache.Naming.{file_stem, join_path, numbered, numbered_as, first_free, track_path}
use togewire.Cache.NamingLaws.{IsFileName, file_stem-IsFileName}

-- Among more different names than there are files, one is free.
free_name :
    (name : ℕ → Text) (fuel i : ℕ) (m : List (Text × Node))
    → ((a b : ℕ) → a < i + fuel → b < i + fuel → name a ≡ name b → a ≡ b)
    → length m < fuel
    → (k : ℕ) × (i ≤ k) × (k < i + fuel) × (get Text-discrete (name k) m ≡ none)
free_name name zero i m inj le = absurd (omega arith)
free_name name (suc fuel) i m inj le = elim (Option-cases (get Text-discrete (name i) m)) [
  | inl e ↦ (i, omega arith, omega arith, e)
  | inr (n, e) ↦
      let taken : get Text-discrete (name i) m ≢ none =
        λ h. let bad : none ≡ some n = sym h ∙ e in absurd (cc) in
      let shorter = length-remove-lt Text-discrete (name i) m taken in
      let (k, low, high, free) =
        free_name name fuel (suc i) (remove Text-discrete (name i) m)
          (λ a b p q. inj a b (omega arith) (omega arith)) (omega arith) in
      let other : name i ≢ name k =
        λ h. let same = inj i k (omega arith) (omega arith) h in omega arith in
      (
        k,
        omega arith,
        omega arith,
        sym (get-remove_ne Text-discrete (name i) (name k) m other) ∙ free,
      )
]

module _ (base ext : Text) (s : Store) where
  -- The path of the `i`th try.
  abbrev path_of : ℕ → Text
  path_of i = join_path s.inner.dir (numbered base ext i)

  -- The loop ends at a free path if there is one within the fuel.
  first_free-found :
      (fuel i k : ℕ)
      → i ≤ k
      → k < i + fuel
      → exists (path_of k) s.disk ≡ false
      → (n : ℕ) × (first_free fuel i base ext s ≡ some (path_of n))
        × (exists (path_of n) s.disk ≡ false)
  unfolding first_free
  first_free-found zero i k low high free = absurd (omega arith)
  first_free-found (suc fuel) i k low high free = elim (Bool-cases (exists (path_of i) s.disk)) [
    | inr e ↦ (i, rw e refl, e)
    | inl e ↦
        let later : i ≢ k = λ h.
          let bad : true ≡ false =
            sym e ∙ subst (λ x. exists (path_of x) s.disk ≡ false) (sym h) free in
          absurd (cc) in
        let (n, found, gone) = first_free-found fuel (i + 1) k (omega arith) (omega arith) free in
        (n, rw e found, gone)
  ]

apart : (x y : Text) → codes "." ++ x ≢ codes " (" ++ y
apart x y e = cc

module _ (print : ℕ → Text) (ext : Text) where
  abbrev tail_of : ℕ → Text
  tail_of i = codes " (" ++ (print (suc i) ++ (codes ")." ++ ext))

  same_number : (i j : ℕ) → tail_of i ≡ tail_of j → print (suc i) ≡ print (suc j)
  same_number i j e = append_cancel_right (print (suc i)) (print (suc j)) (codes ")." ++ ext) (
      append_cancel_left (codes " (") (print (suc i) ++ (codes ")." ++ ext))
        (print (suc j) ++ (codes ")." ++ ext)) e)

  numbered_as-injective :
      (base : Text) (most i j : ℕ)
      → ((n m : ℕ) → n < most → m < most → print n ≡ print m → n ≡ m)
      → i < most
      → j < most
      → numbered_as print base ext i ≡ numbered_as print base ext j
      → i ≡ j
  unfolding numbered_as
  numbered_as-injective base most zero zero inj a b e = refl
  numbered_as-injective base most zero (suc j) inj a b e = absurd (
      apart ext (print (suc j) ++ (codes ")." ++ ext))
        (append_cancel_left base (codes "." ++ ext) (tail_of j) e))
  numbered_as-injective base most (suc i) zero inj a b e = absurd (
      apart ext (print (suc i) ++ (codes ")." ++ ext))
        (append_cancel_left base (codes "." ++ ext) (tail_of i) (sym e)))
  numbered_as-injective base most (suc i) (suc j) inj a b e =
      inj (suc i) (suc j) a b (same_number i j (append_cancel_left base (tail_of i) (tail_of j) e))

  numbered_as-tail : (base : Text) (i : ℕ) → (t : Text) × (numbered_as print base ext i ≡ base ++ t)
  unfolding numbered_as
  numbered_as-tail base zero = (codes "." ++ ext, refl)
  numbered_as-tail base (suc i) = (tail_of i, refl)

numbered-injective :
    (base ext : Text) (i j : ℕ)
    → i < 2147483648
    → j < 2147483648
    → numbered base ext i ≡ numbered base ext j
    → i ≡ j
unfolding numbered
numbered-injective base ext i j a b e =
    numbered_as-injective decimal ext base 2147483648 i j decimal-injective a b e

-- A name without a separator stays below the folder.
abbrev pub under : Text → Text
under dir = if ends_with (codes "/") dir then dir else dir ++ codes "/"

join_path-under :
    (dir name : Text)
    → starts_with (codes "/") name ≡ false
    → join_path dir name ≡ under dir ++ name
unfolding join_path
join_path-under dir name h = elim (Bool-cases (ends_with (codes "/") dir)) [
  | inl e ↦ rw (h, e) refl
  | inr e ↦ rw (h, e) refl
]

starts_with-name : (base t : Text) → IsFileName base → starts_with (codes "/") (base ++ t) ≡ false
unfolding starts_with all
starts_with-name [] t h = absurd (h.some_char refl)
starts_with-name (c ∷ s) t h = let safe = h.chars in ground arith

numbered-tail : (base ext : Text) (i : ℕ) → (t : Text) × (numbered base ext i ≡ base ++ t)
unfolding numbered
numbered-tail base ext i = numbered_as-tail decimal ext base i

path-under :
    (base ext : Text) (s : Store) (i : ℕ)
    → IsFileName base
    → path_of base ext s i ≡ under s.inner.dir ++ numbered base ext i
path-under base ext s i h =
    let (t, e) = numbered-tail base ext i in
    join_path-under s.inner.dir (numbered base ext i)
      (ap (starts_with (codes "/")) e ∙ starts_with-name base t h)

-- Below 2 ^ 31 files on the disk, a new file always gets a path: one that does not exist, directly in
-- the folder of the cache, whose name is the stem of the track with a number or none and the
-- extension. The stem is a safe name, so that no artist or title leads out of the folder.
pub track_path-free :
    (t : Track) (ext : Text) (s : Store)
    → length s.disk.nodes < 2147483647
    → (p : Text) × (track_path t ext s ≡ some p)
      × (exists p s.disk ≡ false)
      × (n : ℕ) × (p ≡ under s.inner.dir ++ numbered (file_stem t) ext n)
      × IsFileName (file_stem t)
unfolding track_path exists
track_path-free t ext s bound =
    let base = file_stem t in
    let safe = file_stem-IsFileName t in
    let nodes = s.disk.nodes in
    let (k, low, high, free) =
      free_name (path_of base ext s) (suc (length nodes)) 0 nodes
        (λ a b p q e. numbered-injective base ext a b (omega arith) (omega arith) (
          append_cancel_left (under s.inner.dir) (numbered base ext a) (numbered base ext b)
            (sym (path-under base ext s a safe) ∙ e ∙ path-under base ext s b safe)))
        (omega arith) in
    let (n, found, gone) =
      first_free-found base ext s (suc (length nodes)) 0 k low high (ap is_some free) in
    (path_of base ext s n, found, gone, n, path-under base ext s n safe, safe)
