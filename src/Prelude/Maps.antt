-- ===== src/Prelude/Maps.antt =====
-- Hash maps as association lists with a decision on keys. A write puts its entry in front, so the
-- order of a list promises nothing.
use togewire.Prelude.{
  ◌+◌, suc, ◌≤◌, ◌≡◌, refl, ◌≢◌, Bool, Option, none, some, List, [], ◌∷◌, arith, length, count,
  is_some,
}

module _ {ℓ κ} {K : Type ℓ} {V : Type κ} where
  abbrev pub keys : List (K × V) → List K
  keys [] = []
  keys ((k, v) ∷ m) = k ∷ keys m

  abbrev pub values : List (K × V) → List V
  values [] = []
  values ((k, v) ∷ m) = v ∷ values m

module _ {ℓ κ} {K : Type ℓ} {V : Type κ} (dec : Discrete K) where
  unfoldable pub get : K → List (K × V) → Option V
  get k [] = none
  get k ((j, v) ∷ m) = elim (dec j k) [ yes _ ↦ some v | no _ ↦ get k m ]

  unfoldable pub remove : K → List (K × V) → List (K × V)
  remove k [] = []
  remove k ((j, v) ∷ m) = elim (dec j k) [ yes _ ↦ remove k m | no _ ↦ (j, v) ∷ remove k m ]

  unfoldable pub insert : K → V → List (K × V) → List (K × V)
  unfolding remove
  insert k v m = (k, v) ∷ remove k m

  abbrev pub contains_key : K → List (K × V) → Bool
  contains_key k m = is_some (get k m)

  -- Each key stands once.
  abbrev pub IsMap : List (K × V) → Type ℓ
  IsMap m = (k : K) → count dec k (keys m) ≤ 1

  pub get-remove_self : (k : K) (m : List (K × V)) → get k (remove k m) ≡ none
  unfolding get remove
  get-remove_self k [] = refl
  get-remove_self k ((j, v) ∷ m) = ground (arith, get-remove_self k m)

  pub get-remove_ne : (k q : K) (m : List (K × V)) → k ≢ q → get q (remove k m) ≡ get q m
  unfolding get remove
  get-remove_ne k q [] h = refl
  get-remove_ne k q ((j, v) ∷ m) h = ground (arith, get-remove_ne k q m)

  pub get-insert_self : (k : K) (v : V) (m : List (K × V)) → get k (insert k v m) ≡ some v
  unfolding get insert
  get-insert_self k v m = ground arith

  pub get-insert_ne : (k q : K) (v : V) (m : List (K × V)) → k ≢ q → get q (insert k v m) ≡ get q m
  unfolding get insert
  get-insert_ne k q v m h = ground (arith, get-remove_ne k q m)

  pub count-remove_self : (k : K) (m : List (K × V)) → count dec k (keys (remove k m)) ≡ 0
  unfolding count remove
  count-remove_self k [] = refl
  count-remove_self k ((j, v) ∷ m) = ground (arith, count-remove_self k m)

  pub count-remove_ne :
      (k q : K) (m : List (K × V)) → k ≢ q → count dec q (keys (remove k m)) ≡ count dec q (keys m)
  unfolding count remove
  count-remove_ne k q [] h = refl
  count-remove_ne k q ((j, v) ∷ m) h = ground (arith, count-remove_ne k q m)

  pub count-insert_self : (k : K) (v : V) (m : List (K × V)) → count dec k (keys (insert k v m)) ≡ 1
  unfolding insert count
  count-insert_self k v m = ground (arith, count-remove_self k m)

  pub count-insert_ne :
      (k q : K) (v : V) (m : List (K × V))
      → k ≢ q
      → count dec q (keys (insert k v m)) ≡ count dec q (keys m)
  unfolding insert count
  count-insert_ne k q v m h = ground (arith, count-remove_ne k q m)

  -- A key is found exactly where it stands in the list of keys.
  pub get_of_count : (k : K) (m : List (K × V)) → count dec k (keys m) ≡ 0 → get k m ≡ none
  unfolding get count
  get_of_count k [] h = refl
  get_of_count k ((j, v) ∷ m) h = ground (arith, get_of_count k m)

  pub count_of_get : (k : K) (m : List (K × V)) → get k m ≡ none → count dec k (keys m) ≡ 0
  unfolding get count
  count_of_get k [] h = refl
  count_of_get k ((j, v) ∷ m) h = ground (arith, count_of_get k m)

  pub remove_absent : (k : K) (m : List (K × V)) → get k m ≡ none → remove k m ≡ m
  unfolding get remove
  remove_absent k [] h = refl
  remove_absent k ((j, v) ∷ m) h = ground (arith, remove_absent k m)

  pub length-remove-le : (k : K) (m : List (K × V)) → length (remove k m) ≤ length m
  unfolding remove
  length-remove-le k [] = omega arith
  length-remove-le k ((j, v) ∷ m) = ground (arith, length-remove-le k m)

  -- A key that is there goes with its entries.
  pub length-remove-lt :
      (k : K) (m : List (K × V)) → get k m ≢ none → suc (length (remove k m)) ≤ length m
  unfolding get remove
  length-remove-lt k [] h = absurd (h refl)
  length-remove-lt k ((j, v) ∷ m) h = ground (arith, length-remove-lt k m, length-remove-le k m)

  pub IsMap-remove : (k : K) (m : List (K × V)) → IsMap m → IsMap (remove k m)
  IsMap-remove k m u q = elim (dec k q) [
    | yes p ↦ rw (← p, count-remove_self k m) (omega arith)
    | no n ↦ rw (count-remove_ne k q m n) (u q)
  ]

  pub IsMap-insert : (k : K) (v : V) (m : List (K × V)) → IsMap m → IsMap (insert k v m)
  IsMap-insert k v m u q = elim (dec k q) [
    | yes p ↦ rw (← p, count-insert_self k v m) (omega arith)
    | no n ↦ rw (count-insert_ne k q v m n) (u q)
  ]

  pub count-pos_of_get :
      (k : K) (m : List (K × V)) (v : V) → get k m ≡ some v → 1 ≤ count dec k (keys m)
  unfolding get count
  count-pos_of_get k [] v h = cc
  count-pos_of_get k ((j, w) ∷ m) v h = ground (arith, count-pos_of_get k m v)

  -- A write at a key that is there leaves the keys as they are.
  pub count-insert_old :
      (k q : K) (v w : V) (m : List (K × V))
      → IsMap m
      → get k m ≡ some v
      → count dec q (keys (insert k w m)) ≡ count dec q (keys m)
  count-insert_old k q v w m u h = elim (dec k q) [
    | yes p ↦ rw (← p, count-insert_self k w m) (omega (arith, u k, count-pos_of_get k m v h))
    | no n ↦ count-insert_ne k q w m n
  ]

  pub length-remove :
      (k : K) (m : List (K × V)) → length (remove k m) + count dec k (keys m) ≡ length m
  unfolding remove count
  length-remove k [] = omega arith
  length-remove k ((j, v) ∷ m) = ground (arith, length-remove k m)
