-- ===== src/Float/Fixed.antt =====
-- Floats in fixed point: integers that count thousandths.
use generatorpi.Base.{
  ℤ, pos, negsuc, pos_part, neg_part, sub_ℕ, ◌+ℤ◌, ◌-ℤ◌, leb_ℤ, ℕ, zero, suc, ◌+◌, ◌*◌, ◌/◌, ◌≤◌,
  ◌<◌, ◌≡◌, refl, ◌⊎◌, true, arith,
}
use native.Mathlib.Nat.{le-div_iff_mul-le, div-mul-le_self, mul-add, mul-le-mul_left}
use generatorpi.Float.{Float}

abbrev pub scaled : ℕ → ℕ → ℤ
scaled n zero = pos (n * 1000)
scaled n (suc zero) = pos (n * 100)
scaled n (suc (suc zero)) = pos (n * 10)
scaled n (suc (suc (suc k))) = pos n

-- A product is in millionths: back to thousandths, rounded up.
abbrev pub up : ℤ → ℤ
up (pos n) = pos ((n + 999) / 1000)
up (negsuc n) = pos 0 -ℤ pos ((n + 1) / 1000)

abbrev pub times : ℤ → ℤ → ℤ
times a b = up (
    sub_ℕ (pos_part a * pos_part b + neg_part a * neg_part b)
      (pos_part a * neg_part b + neg_part a * pos_part b))

-- Division by a positive number; the program divides by no other.
abbrev pub over : ℤ → ℤ → ℤ
over (pos n) b = pos (n * 1000 / pos_part b)
over (negsuc n) b = pos 0 -ℤ pos ((n + 1) * 1000 / pos_part b)

-- Towards zero.
abbrev pub whole : ℤ → ℤ
whole (pos n) = pos (n / 1000)
whole (negsuc n) = pos 0 -ℤ pos ((n + 1) / 1000)

abbrev pub round_ℕ : ℕ → ℕ → ℕ
round_ℕ zero n = (n + 500) / 1000 * 1000
round_ℕ (suc zero) n = (n + 50) / 100 * 100
round_ℕ (suc (suc zero)) n = (n + 5) / 10 * 10
round_ℕ (suc (suc (suc k))) n = n

abbrev pub rounded : ℕ → ℤ → ℤ
rounded k (pos n) = pos (round_ℕ k n)
rounded k (negsuc n) = pos 0 -ℤ pos (round_ℕ k (n + 1))

pub leb_ℤ_refl : (a : ℤ) → leb_ℤ a a ≡ true
leb_ℤ_refl a = ground arith

pub leb_ℤ_trans : (a b c : ℤ) → leb_ℤ a b ≡ true → leb_ℤ b c ≡ true → leb_ℤ a c ≡ true
leb_ℤ_trans a b c = ground arith

pub leb_ℤ_total : (a b : ℤ) → (leb_ℤ a b ≡ true) ⊎ (leb_ℤ b a ≡ true)
leb_ℤ_total a b = ground arith

pub leb_ℤ_antisymm : (a b : ℤ) → leb_ℤ a b ≡ true → leb_ℤ b a ≡ true → a ≡ b
leb_ℤ_antisymm a b = ground arith

pub scaled_places : (n k : ℕ) → k < 3 → scaled n k ≡ scaled (n * 10) (k + 1)
scaled_places n zero h = ground arith
scaled_places n (suc zero) h = ground arith
scaled_places n (suc (suc zero)) h = ground arith
scaled_places n (suc (suc (suc k))) h = absurd (omega arith)

pub scaled_mono : (n m k : ℕ) → k ≤ 3 → n ≤ m → leb_ℤ (scaled n k) (scaled m k) ≡ true
scaled_mono n m zero h = ground arith
scaled_mono n m (suc zero) h = ground arith
scaled_mono n m (suc (suc zero)) h = ground arith
scaled_mono n m (suc (suc (suc k))) h = ground arith

pub add_mono_ℤ :
    (a b c d : ℤ) → leb_ℤ a b ≡ true → leb_ℤ c d ≡ true → leb_ℤ (a +ℤ c) (b +ℤ d) ≡ true
add_mono_ℤ a b c d = ground arith

pub sub_mono_ℤ : (a b c : ℤ) → leb_ℤ a b ≡ true → leb_ℤ (a -ℤ c) (b -ℤ c) ≡ true
sub_mono_ℤ a b c = ground arith

pub sub_anti_ℤ : (a b c : ℤ) → leb_ℤ a b ≡ true → leb_ℤ (c -ℤ b) (c -ℤ a) ≡ true
sub_anti_ℤ a b c = ground arith

pub up_mono : (a b : ℤ) → leb_ℤ a b ≡ true → leb_ℤ (up a) (up b) ≡ true
up_mono a b = ground arith

product_mono : (a b c d k : ℕ) → a + d ≤ b + c → k * a + k * d ≤ k * b + k * c
product_mono a b c d k h = omega (arith, mul-add k a d, mul-add k b c, mul-le-mul_left k h)

pub times_mono :
    (a b c : ℤ)
    → leb_ℤ (scaled 0 0) c ≡ true
    → leb_ℤ a b ≡ true
    → leb_ℤ (times c a) (times c b) ≡ true
times_mono a b (pos k) h l =
    let product =
      λ (x : ℤ). sub_ℕ (k * pos_part x + 0 * neg_part x) (k * neg_part x + 0 * pos_part x) in
    up_mono (product a) (product b)
      (ground (arith, product_mono (pos_part a) (pos_part b) (neg_part a) (neg_part b) k))
times_mono a b (negsuc k) h l = absurd (ground arith)

pub add_zero_ℤ : (a : ℤ) → a +ℤ pos 0 ≡ a
add_zero_ℤ a = ground arith

pub sub_zero_ℤ : (a : ℤ) → a -ℤ pos 0 ≡ a
sub_zero_ℤ a = ground arith

pub sub_self_ℤ : (a : ℤ) → a -ℤ a ≡ pos 0
sub_self_ℤ a = ground arith

pub zero_over : (m : ℕ) → over (scaled 0 0) (scaled (suc m) 0) ≡ scaled 0 0
zero_over m = ground arith

div_mono_left : (n m k : ℕ) → 0 < k → n ≤ m → n / k ≤ m / k
div_mono_left n m k pos_k h = (le-div_iff_mul-le pos_k).1 (omega (arith, div-mul-le_self n k))

pub over_mono :
    (a b : ℤ) (m : ℕ)
    → leb_ℤ a b ≡ true
    → leb_ℤ (over a (scaled (suc m) 0)) (over b (scaled (suc m) 0)) ≡ true
over_mono (pos n) (pos k) m h = ground (arith, div_mono_left (n * 1000) (k * 1000) (suc m * 1000))
over_mono (pos n) (negsuc k) m h = ground arith
over_mono (negsuc n) (pos k) m h = ground arith
over_mono (negsuc n) (negsuc k) m h =
    ground (arith, div_mono_left ((k + 1) * 1000) ((n + 1) * 1000) (suc m * 1000))

pub mean_ge_ℤ :
    (a b c : ℤ)
    → leb_ℤ c a ≡ true
    → leb_ℤ c b ≡ true
    → leb_ℤ c (times (pos 500) a +ℤ times (pos 500) b) ≡ true
mean_ge_ℤ a b c = ground arith

pub rounded_mono : (k : ℕ) (a b : ℤ) → leb_ℤ a b ≡ true → leb_ℤ (rounded k a) (rounded k b) ≡ true
rounded_mono zero a b = ground arith
rounded_mono (suc zero) a b = ground arith
rounded_mono (suc (suc zero)) a b = ground arith
rounded_mono (suc (suc (suc k))) a b = ground arith

pub rounded-scaled : (n j k : ℕ) → j ≤ k → k ≤ 3 → rounded k (scaled n j) ≡ scaled n j
rounded-scaled n zero zero h l = ground arith
rounded-scaled n zero (suc zero) h l = ground arith
rounded-scaled n zero (suc (suc zero)) h l = ground arith
rounded-scaled n zero (suc (suc (suc k))) h l = refl
rounded-scaled n (suc zero) zero h l = absurd (omega arith)
rounded-scaled n (suc zero) (suc zero) h l = ground arith
rounded-scaled n (suc zero) (suc (suc zero)) h l = ground arith
rounded-scaled n (suc zero) (suc (suc (suc k))) h l = refl
rounded-scaled n (suc (suc zero)) zero h l = absurd (omega arith)
rounded-scaled n (suc (suc zero)) (suc zero) h l = absurd (omega arith)
rounded-scaled n (suc (suc zero)) (suc (suc zero)) h l = ground arith
rounded-scaled n (suc (suc zero)) (suc (suc (suc k))) h l = refl
rounded-scaled n (suc (suc (suc j))) zero h l = absurd (omega arith)
rounded-scaled n (suc (suc (suc j))) (suc zero) h l = absurd (omega arith)
rounded-scaled n (suc (suc (suc j))) (suc (suc zero)) h l = absurd (omega arith)
rounded-scaled n (suc (suc (suc j))) (suc (suc (suc k))) h l = refl

instance abbrev pub fixed : Float ℤ
fixed = record {
  decimal = scaled;
  add = ◌+ℤ◌;
  sub = ◌-ℤ◌;
  mul = times;
  div = over;
  le = leb_ℤ;
  round = rounded;
  to_int = whole;
  le_refl = leb_ℤ_refl;
  le_trans = leb_ℤ_trans;
  le_total = leb_ℤ_total;
  le_antisymm = leb_ℤ_antisymm;
  decimal_places = scaled_places;
  decimal_mono = scaled_mono;
  add_zero = add_zero_ℤ;
  sub_zero = sub_zero_ℤ;
  sub_self = sub_self_ℤ;
  zero_div = zero_over;
  add_mono = add_mono_ℤ;
  sub_mono = sub_mono_ℤ;
  sub_anti = sub_anti_ℤ;
  mul_mono = times_mono;
  div_mono = over_mono;
  mean_ge = mean_ge_ℤ;
  round_mono = rounded_mono;
  round_decimal = rounded-scaled;
}
