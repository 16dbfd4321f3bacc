-- ===== src/Prelude/Lists.antt =====
-- Lists measured by native numbers, under the library's names, and texts as lists of characters.
use Prim.Native.Char.{code}
use Prim.Native.Nat.{ℕ, zero, suc, ◌+◌}
use Prim.Native.String.{String}
use mathlib.Core.Path.{◌≡◌, refl}
use mathlib.Core.Bool.{Bool, true, false, ◌&&◌}
use mathlib.Core.List.{List, [], ◌∷◌, ◌++◌}
use mathlib.Core.Option.{Option, none, some}
use native.Mathlib.Decide.{ℕ_discrete}
use native.Mathlib.Omega.{arith}

module _ {ℓ} {A : Type ℓ} where
  abbrev pub length : List A → ℕ
  length [] = 0
  length (x ∷ xs) = suc (length xs)

  abbrev pub take : ℕ → List A → List A
  take zero xs = []
  take (suc n) [] = []
  take (suc n) (x ∷ xs) = x ∷ take n xs

  abbrev pub drop : ℕ → List A → List A
  drop zero xs = xs
  drop (suc n) [] = []
  drop (suc n) (x ∷ xs) = drop n xs

  pub length-append : (xs ys : List A) → length (xs ++ ys) ≡ length xs + length ys
  length-append [] ys = omega arith
  length-append (x ∷ xs) ys = omega (arith, length-append xs ys)

  -- `unwrap_or`, and the test for `Some`.
  abbrev pub or_else : Option A → A → A
  or_else none d = d
  or_else (some a) d = a

  abbrev pub is_some : Option A → Bool
  is_some none = false
  is_some (some a) = true

-- A text is the list of its characters.
abbrev pub Text : Type 0
Text = List ℕ

abbrev pub codes : String → Text
codes String.[] = []
codes (String.◌∷◌ c s) = code c ∷ codes s

unfoldable pub Text-discrete : Discrete Text
unfolding ℕ_discrete
Text-discrete [] [] = yes refl
Text-discrete [] (b ∷ bs) = no (λ e. cc)
Text-discrete (a ∷ as') [] = no (λ e. cc)
Text-discrete (a ∷ as') (b ∷ bs) = elim (Text-discrete as' bs) [
  | no n ↦ no (λ e. n (cc))
  | yes q ↦ elim (ℕ_discrete a b) [ yes p ↦ yes (cc) | no n ↦ no (λ e. n (cc)) ]
]

-- `chars().all(p)`
unfoldable pub all : (ℕ → Bool) → Text → Bool
all p [] = true
all p (c ∷ s) = p c && all p s

infix 50 ◌=?◌
abbrev pub ◌=?◌ : Text → Text → Bool
a =? b = elim (Text-discrete a b) [ yes _ ↦ true | no _ ↦ false ]

module _ {ℓ} {K : Type ℓ} (dec : Discrete K) where
  -- How often a key stands in a list.
  unfoldable pub count : K → List K → ℕ
  count k [] = 0
  count k (j ∷ js) = (elim (dec j k) [ yes _ ↦ suc (count k js) | no _ ↦ count k js ])

  -- `retain(|id| id != k)`
  unfoldable pub without : K → List K → List K
  without k [] = []
  without k (j ∷ js) = elim (dec j k) [ yes _ ↦ without k js | no _ ↦ j ∷ without k js ]

  pub count-without_self : (k : K) (js : List K) → count k (without k js) ≡ 0
  unfolding count without
  count-without_self k [] = refl
  count-without_self k (j ∷ js) = ground (arith, count-without_self k js)

  pub count-without_ne : (k q : K) (js : List K) → ¬ (k ≡ q) → count q (without k js) ≡ count q js
  unfolding count without
  count-without_ne k q [] h = refl
  count-without_ne k q (j ∷ js) h = ground (arith, count-without_ne k q js)

  pub without_absent : (k : K) (js : List K) → count k js ≡ 0 → without k js ≡ js
  unfolding count without
  without_absent k [] h = refl
  without_absent k (j ∷ js) h = ground (arith, without_absent k js)

  pub count-append : (k : K) (xs ys : List K) → count k (xs ++ ys) ≡ count k xs + count k ys
  unfolding count
  count-append k [] ys = omega arith
  count-append k (x ∷ xs) ys = ground (arith, count-append k xs ys)
