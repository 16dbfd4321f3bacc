-- ===== src/Prelude/DecimalLaws.antt =====
-- Printed numbers are different.
use togewire.Prelude.{
  ℕ, zero, suc, ◌+◌, ◌*◌, ◌/◌, ◌%◌, ◌<◌, ◌≡◌, ◌≢◌, refl, ◌∙◌, sym, ap, [], ◌∷◌, ◌++◌, Text, ltb,
  arith, length, length-append, Bool-cases, inl, inr, true, false,
}
use togewire.Prelude.Decimal.{decimal, decimal_digits}

-- The numbers below have at most `f` digits.
pub limit : ℕ → ℕ
limit zero = 1
limit (suc f) = 10 * limit f

snoc_inj : (s t : Text) (a b : ℕ) → s ++ a ∷ [] ≡ t ++ b ∷ [] → (s ≡ t) × (a ≡ b)
snoc_inj [] [] a b e = (refl, cc)
snoc_inj [] (y ∷ t) a b e = absurd (apart (ap length e))
  where
    apart : length (a ∷ []) ≡ length (y ∷ t ++ b ∷ []) → ⊥
    apart h = let l = length-append t (b ∷ []) in omega arith
snoc_inj (x ∷ s) [] a b e = absurd (apart (ap length e))
  where
    apart : length (x ∷ s ++ a ∷ []) ≡ length (b ∷ []) → ⊥
    apart h = let l = length-append s (a ∷ []) in omega arith
snoc_inj (x ∷ s) (y ∷ t) a b e =
    let rest : s ++ a ∷ [] ≡ t ++ b ∷ [] = cc in
    let (same, last) = snoc_inj s t a b rest in let first : x ≡ y = cc in (cc, last)

decimal_digits-small : (f n : ℕ) → ltb n 10 ≡ true → decimal_digits (suc f) n ≡ (48 + n) ∷ []
unfolding decimal_digits
decimal_digits-small f n h = rw h refl

decimal_digits-big :
    (f n : ℕ)
    → ltb n 10 ≡ false
    → decimal_digits (suc f) n ≡ decimal_digits f (n / 10) ++ (48 + n % 10) ∷ []
unfolding decimal_digits
decimal_digits-big f n h = rw h refl

ne_snoc : (s : Text) (a : ℕ) → s ++ a ∷ [] ≢ []
ne_snoc [] a e = cc
ne_snoc (x ∷ s) a e = cc

decimal_digits-ne : (f n : ℕ) → decimal_digits (suc f) n ≢ []
decimal_digits-ne f n e = elim (Bool-cases (ltb n 10)) [
  | inl h ↦ ne_snoc [] (48 + n) (sym (decimal_digits-small f n h) ∙ e)
  | inr h ↦ ne_snoc (decimal_digits f (n / 10)) (48 + n % 10) (sym (decimal_digits-big f n h) ∙ e)
]

-- A number of one digit is printed apart from a longer one.
one_digit :
    (f n m : ℕ)
    → ltb n 10 ≡ true
    → ltb m 10 ≡ false
    → m < limit (suc f)
    → decimal_digits (suc f) n ≢ decimal_digits (suc f) m
unfolding limit
one_digit zero n m h k b e = ground arith
one_digit (suc f) n m h k b e =
    let (nothing, _) =
      snoc_inj [] (decimal_digits (suc f) (m / 10)) (48 + n) (48 + m % 10)
        (sym (decimal_digits-small (suc f) n h) ∙ e ∙ decimal_digits-big (suc f) m k) in
    decimal_digits-ne f (m / 10) (sym nothing)

decimal_digits-injective :
    (f n m : ℕ) → n < limit f → m < limit f → decimal_digits f n ≡ decimal_digits f m → n ≡ m
unfolding limit
decimal_digits-injective zero n m a b e = omega arith
decimal_digits-injective (suc f) n m a b e = elim (Bool-cases (ltb n 10)) [
  | inl h ↦ elim (Bool-cases (ltb m 10)) [
    | inl k ↦
        let same : (48 + n) ∷ [] ≡ (48 + m) ∷ [] =
          sym (decimal_digits-small f n h) ∙ e ∙ decimal_digits-small f m k in
        let digit : 48 + n ≡ 48 + m = cc in omega arith
    | inr k ↦ absurd (one_digit f n m h k b e)
  ]
  | inr h ↦ elim (Bool-cases (ltb m 10)) [
    | inl k ↦ absurd (one_digit f m n k h a (sym e))
    | inr k ↦
        let (front, last) =
          snoc_inj (decimal_digits f (n / 10)) (decimal_digits f (m / 10)) (48 + n % 10)
            (48 + m % 10) (sym (decimal_digits-big f n h) ∙ e ∙ decimal_digits-big f m k) in
        let quotient =
          decimal_digits-injective f (n / 10) (m / 10) (omega arith) (omega arith) front in
        omega arith
  ]
]

-- Numbers below 2 ^ 31 print the same only if they are the same.
pub decimal-injective : (n m : ℕ) → n < 2147483648 → m < 2147483648 → decimal n ≡ decimal m → n ≡ m
unfolding decimal limit
decimal-injective n m a b e = decimal_digits-injective 20 n m (omega arith) (omega arith) e
