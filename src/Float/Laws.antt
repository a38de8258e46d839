-- ===== src/Float/Laws.antt =====
-- What follows for the comparisons and clamps that the code writes with `max` and `min`.
use generatorpi.Base.{if◌then◌else◌, ℕ, suc, ◌≤◌, ◌≡◌, subst, Bool, true, not, arith}
use generatorpi.Float.{Float}

module _ {F : Type 0} ⦃n : Float F⦄ where
  open n use {decimal, add, sub, div, le, round}

  -- `a < b`
  abbrev pub lt : F → F → Bool
  lt a b = not (le b a)

  -- Python's `max(a, b)` and `min(a, b)`: the first argument, unless the second is strictly beyond.
  abbrev pub fmax : F → F → F
  fmax a b = if le b a then a else b

  abbrev pub fmin : F → F → F
  fmin a b = if le a b then a else b

  abbrev pub zero_f : F
  zero_f = decimal 0 0

  -- `max(low, min(high, x))`
  abbrev pub clamp : F → F → F → F
  clamp low high x = fmax low (fmin high x)

  pub le-fmax_left : (a b : F) → le a (fmax a b) ≡ true
  le-fmax_left a b = ground (arith, n.le_refl a, n.le_total a b)

  pub le-fmax_right : (a b : F) → le b (fmax a b) ≡ true
  le-fmax_right a b = ground (arith, n.le_refl b)

  pub fmax_eq_right : (a b : F) → le a b ≡ true → fmax a b ≡ b
  fmax_eq_right a b h = ground (arith, n.le_antisymm a b)

  pub fmax_self : (a : F) → fmax a a ≡ a
  fmax_self a = ground arith

  pub clamp_bounds :
      (low high x : F)
      → le low high ≡ true
      → (le low (clamp low high x) ≡ true) × (le (clamp low high x) high ≡ true)
  clamp_bounds low high x h =
      ground (arith, le-fmax_left low (fmin high x), n.le_refl high, n.le_total high x)

  -- A value in range is not clamped.
  pub clamp_eq : (low high x : F) → le low x ≡ true → le x high ≡ true → clamp low high x ≡ x
  clamp_eq low high x h k = ground (arith, n.le_antisymm x high, n.le_antisymm x low)

  pub sub_nonneg : (a b : F) → le b a ≡ true → le zero_f (sub a b) ≡ true
  sub_nonneg a b h = rw (← n.sub_self b) (n.sub_mono b a b h)

  pub le-add_nonneg : (a b : F) → le zero_f b ≡ true → le a (add a b) ≡ true
  le-add_nonneg a b h =
      subst (λ c. le c (add a b) ≡ true) (n.add_zero a) (n.add_mono a a zero_f b (n.le_refl a) h)

  pub ratio_nonneg :
      (a : F) (m : ℕ) → le zero_f a ≡ true → le zero_f (div a (decimal (suc m) 0)) ≡ true
  ratio_nonneg a m h =
      subst (λ c. le c (div a (decimal (suc m) 0)) ≡ true) (n.zero_div m) (n.div_mono zero_f a m h)

  -- Rounding keeps a range whose ends have no more places.
  pub round_bounds :
      (k low high j : ℕ) (x : F)
      → j ≤ k
      → k ≤ 3
      → le (decimal low j) x ≡ true
      → le x (decimal high j) ≡ true
      → (le (decimal low j) (round k x) ≡ true) × (le (round k x) (decimal high j) ≡ true)
  round_bounds k low high j x places small h l = (
    subst (λ c. le c (round k x) ≡ true) (n.round_decimal low j k places small)
        (n.round_mono k (decimal low j) x h),
    subst (λ c. le (round k x) c ≡ true) (n.round_decimal high j k places small)
        (n.round_mono k x (decimal high j) l),
  )

  pub fmax_mono : (a b c : F) → le b c ≡ true → le (fmax a b) (fmax a c) ≡ true
  fmax_mono a b c h =
      ground (arith, n.le_trans b c a h, n.le_refl a, n.le_total a c, n.le_trans a b c)

  fmin_mono : (a b c : F) → le b c ≡ true → le (fmin a b) (fmin a c) ≡ true
  fmin_mono a b c h =
      ground (arith, n.le_trans a b c, n.le_refl a, n.le_total a b, n.le_trans b c a)

  pub clamp_mono :
      (low high x y : F) → le x y ≡ true → le (clamp low high x) (clamp low high y) ≡ true
  clamp_mono low high x y h = fmax_mono low (fmin high x) (fmin high y) (fmin_mono high x y h)
