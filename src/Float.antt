-- ===== src/Float.antt =====
-- Python's floats, which the program computes with and does not implement: a type with the
-- operations that the code calls, and what IEEE 754 says of them on finite values. Values that `==`
-- identifies (0.0 and -0.0) are one value here, and no operation overflows or underflows.
-- Float/Fixed.antt is an implementation, in fixed point.
pub mod Fixed
pub mod Laws
use generatorpi.Base.{ℤ, ℕ, suc, ◌+◌, ◌*◌, ◌≤◌, ◌<◌, ◌≡◌, ◌⊎◌, Bool, true}

pub record Float (F : Type 0) : Type 0 where
  -- The literal with these digits, so many of them behind the point: `decimal 64 1` is 6.4.
  pub decimal : ℕ → ℕ → F
  pub add : F → F → F
  pub sub : F → F → F
  pub mul : F → F → F
  pub div : F → F → F
  -- `a <= b`
  pub le : F → F → Bool
  -- `round(x, places)`
  pub round : ℕ → F → F
  -- `int(x)`
  pub to_int : F → ℤ
  -- `<=` is a total order.
  pub le_refl : (a : F) → le a a ≡ true
  pub le_trans : (a b c : F) → le a b ≡ true → le b c ≡ true → le a c ≡ true
  pub le_total : (a b : F) → (le a b ≡ true) ⊎ (le b a ≡ true)
  pub le_antisymm : (a b : F) → le a b ≡ true → le b a ≡ true → a ≡ b
  -- Literals: more digits behind the point change nothing, and the order is that of the digits.
  pub decimal_places : (n k : ℕ) → k < 3 → decimal n k ≡ decimal (n * 10) (k + 1)
  pub decimal_mono : (n m k : ℕ) → k ≤ 3 → n ≤ m → le (decimal n k) (decimal m k) ≡ true
  -- Exact cases of the operations.
  pub add_zero : (a : F) → add a (decimal 0 0) ≡ a
  pub sub_zero : (a : F) → sub a (decimal 0 0) ≡ a
  pub sub_self : (a : F) → sub a a ≡ decimal 0 0
  pub zero_div : (m : ℕ) → div (decimal 0 0) (decimal (suc m) 0) ≡ decimal 0 0
  -- Rounding to the nearest float is monotone.
  pub add_mono : (a b c d : F) → le a b ≡ true → le c d ≡ true → le (add a c) (add b d) ≡ true
  pub sub_mono : (a b c : F) → le a b ≡ true → le (sub a c) (sub b c) ≡ true
  pub sub_anti : (a b c : F) → le a b ≡ true → le (sub c b) (sub c a) ≡ true
  pub mul_mono :
      (a b c : F) → le (decimal 0 0) c ≡ true → le a b ≡ true → le (mul c a) (mul c b) ≡ true
  pub div_mono :
      (a b : F) (m : ℕ)
      → le a b ≡ true
      → le (div a (decimal (suc m) 0)) (div b (decimal (suc m) 0)) ≡ true
  -- The mean `0.5 * a + 0.5 * b` is at least what both are.
  pub mean_ge :
      (a b c : F)
      → le c a ≡ true
      → le c b ≡ true
      → le c (add (mul (decimal 5 1) a) (mul (decimal 5 1) b)) ≡ true
  -- Rounding to decimal places is monotone, and leaves what has no more places.
  pub round_mono : (k : ℕ) (a b : F) → le a b ≡ true → le (round k a) (round k b) ≡ true
  pub round_decimal : (n j k : ℕ) → j ≤ k → k ≤ 3 → round k (decimal n j) ≡ decimal n j
