-- ===== src/Prelude/Words.antt =====
-- Machine integers: `i64` as an integer with the wrap-around of release builds, `u64` and `u32` as
-- numbers reduced by their modulus.
use togewire.Prelude.{ℕ, ◌+◌, ◌-◌, ◌%◌, ◌≤◌, ◌^◌, ◌≡◌, arith, ltb, if◌then◌else◌}
use togewire.Prelude.Int.{ℤ, pos, negsuc, pos_part, neg_part}

abbrev pub i64_max : ℕ
i64_max = 2 ^ 63 - 1

abbrev pub u64_modulus : ℕ
u64_modulus = 2 ^ 64

-- `x as i64` of an unsigned word, and back.
unfoldable pub as_i64 : ℕ → ℤ
as_i64 n =
    if ltb (n % u64_modulus) (2 ^ 63)
    then pos (n % u64_modulus)
    else negsuc (u64_modulus - 1 - n % u64_modulus)

unfoldable pub as_u64 : ℤ → ℕ
as_u64 (pos n) = n % u64_modulus
as_u64 (negsuc n) = u64_modulus - 1 - n % u64_modulus

-- The value that an `i64` operation leaves when its exact result is `a`.
unfoldable pub wrap_i64 : ℤ → ℤ
unfolding as_i64 as_u64
wrap_i64 a = as_i64 (as_u64 a)

pub record IsI64 (a : ℤ) : Type 0 where
  pub above : pos_part a ≤ i64_max
  pub below : neg_part a ≤ i64_max + 1

pub wrap_i64_id : (a : ℤ) → IsI64 a → wrap_i64 a ≡ a
unfolding wrap_i64
wrap_i64_id (pos n) h = ground arith
wrap_i64_id (negsuc n) h = ground arith

pub wrap_i64-IsI64 : (a : ℤ) → IsI64 (wrap_i64 a)
unfolding wrap_i64
wrap_i64-IsI64 (pos n) = ground arith
wrap_i64-IsI64 (negsuc n) = ground arith

pub as_i64_small : (n : ℕ) → n ≤ i64_max → as_i64 n ≡ pos n
unfolding as_i64
as_i64_small n h = ground arith
