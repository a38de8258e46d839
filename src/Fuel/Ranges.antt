-- ===== src/Fuel/Ranges.antt =====
-- The ranges of the fuel model and of the alert settings, and what the projection reads.
use generatorpi.Base.{
  Bool-cases, ℤ, ◌≤◌, ◌≡◌, subst, inl, inr, Bool, true, Option, none, some, arith,
}
use generatorpi.Float.{Float}
use generatorpi.Float.Laws.{zero_f, clamp, le-fmax_left, clamp_bounds, lt, fmax_mono, clamp_mono}
use generatorpi.State.{State, Fuel, Alerts, save_fuel, save_alerts, run_since_fill}
use generatorpi.Fuel.{
  clamped_threshold, new_threshold, projected_fuel_level, lowest_rate, blended_rate, set_rate,
  record_fuel_reading, set_fuel_rate, reset_fuel_rate, set_fuel_fill, set_alerts,
  min_run_since_fill,
}
use generatorpi.State.Odometer.{live_total_run_hours_mono}

pub record InRange (a : Alerts) : Type 0 where
  pub at_least : 5 ≤ a.alert_threshold
  pub at_most : a.alert_threshold ≤ 40

pub clamped_threshold_bounds : (t : ℤ) → (5 ≤ clamped_threshold t) × (clamped_threshold t ≤ 40)
unfolding clamped_threshold
clamped_threshold_bounds t = ground arith

module _ {F : Type 0} ⦃n : Float F⦄ where
  open n use {decimal, add, sub, mul, div, le, round, to_int}

  pub record IsSane (f : Fuel F) : Type 0 where
    pub level_low : le zero_f f.fill_level ≡ true
    pub level_high : le f.fill_level (decimal 100 0) ≡ true
    pub rate_low : le lowest_rate f.drain_rate ≡ true
    pub default_fixed : f.default_rate ≡ decimal 64 1

  level_bounds :
      (x : F)
      → (le zero_f (clamp zero_f (decimal 100 0) x) ≡ true)
        × (le (clamp zero_f (decimal 100 0) x) (decimal 100 0) ≡ true)
  level_bounds x =
      clamp_bounds zero_f (decimal 100 0) x (n.decimal_mono 0 100 0 (omega arith) (omega arith))

  run_since_fill_mono :
      (now now' : F) (s : State F)
      → le now now' ≡ true
      → le (run_since_fill now s) (run_since_fill now' s) ≡ true
  unfolding run_since_fill
  run_since_fill_mono now now' s later =
      fmax_mono {F = F} zero_f _ _ (
        n.sub_mono _ _ s.fuel.fill_run_hours (live_total_run_hours_mono now now' s.generator later))

  -- The projected level is a percentage, and does not rise with time as long as nothing else changes. The
  -- condition is a drain rate of at least 0.1 %/hr.
  pub projected_fuel_level_bounds :
      (now now' : F) (s : State F)
      → le now now' ≡ true
      → le lowest_rate s.fuel.drain_rate ≡ true
      → (le zero_f (projected_fuel_level now s) ≡ true)
        × (le (projected_fuel_level now s) (decimal 100 0) ≡ true)
        × (le (projected_fuel_level now' s) (projected_fuel_level now s) ≡ true)
  unfolding projected_fuel_level
  projected_fuel_level_bounds now now' s later rate =
      let rate_nonneg = n.le_trans zero_f lowest_rate s.fuel.drain_rate tenth_nonneg rate in
      let used =
        n.mul_mono _ _ s.fuel.drain_rate rate_nonneg (run_since_fill_mono now now' s later) in
      let (low, high) =
        level_bounds (sub s.fuel.fill_level (mul s.fuel.drain_rate (run_since_fill now s))) in
      (
        low,
        high,
        clamp_mono {F = F} zero_f (decimal 100 0) _ _ (n.sub_anti _ _ s.fuel.fill_level used),
      )
    where
      tenth_nonneg : le zero_f lowest_rate ≡ true
      tenth_nonneg =
          rw (n.decimal_places 0 0 (omega arith)) (n.decimal_mono 0 1 1 (omega arith) (omega arith))

  blended_rate_low :
      (old new : F)
      → le lowest_rate old ≡ true
      → le lowest_rate new ≡ true
      → le lowest_rate (blended_rate old new) ≡ true
  unfolding blended_rate
  blended_rate_low old new h k =
      subst (λ c. le c (blended_rate old new) ≡ true)
        (n.round_decimal 1 1 1 (omega arith) (omega arith))
        (n.round_mono 1 lowest_rate _ (n.mean_ge old new lowest_rate h k))

  save_fuel-fuel : (ok : Bool) (s : State F) → (save_fuel ok s).fuel ≡ s.fuel
  unfolding save_fuel
  save_fuel-fuel ok s = ground arith

  pub set_rate-IsSane :
      (ok : Bool) (rate : F) (s : State F)
      → IsSane s.fuel
      → le lowest_rate rate ≡ true
      → IsSane (set_rate ok rate s).fuel
  unfolding set_rate save_fuel
  set_rate-IsSane ok rate s v h = ground arith

  pub record_fuel_reading-IsSane :
      (now : F) (ok : Bool) (level : F) (s : State F)
      → IsSane s.fuel
      → IsSane (record_fuel_reading now ok level s).1.fuel
  unfolding record_fuel_reading
  record_fuel_reading-IsSane now ok level s v =
      elim (Bool-cases (lt (run_since_fill now s) min_run_since_fill)) [
        | inl soon ↦ rw soon v
        | inr late ↦ rw late (
            set_rate-IsSane ok _ s v (
              blended_rate_low s.fuel.drain_rate _ v.rate_low (le-fmax_left {F = F} lowest_rate _)))
      ]

  pub set_fuel_rate-IsSane :
      (ok : Bool) (rate : F) (s : State F) → IsSane s.fuel → IsSane (set_fuel_rate ok rate s).1.fuel
  unfolding set_fuel_rate
  set_fuel_rate-IsSane ok rate s v =
      set_rate-IsSane ok _ s v (le-fmax_left lowest_rate (round 1 rate))

  pub reset_fuel_rate-IsSane :
      (ok : Bool) (s : State F) → IsSane s.fuel → IsSane (reset_fuel_rate ok s).1.fuel
  unfolding reset_fuel_rate
  reset_fuel_rate-IsSane ok s v = set_rate-IsSane ok _ s v (
      rw v.default_fixed (
        rw (n.round_decimal 64 1 1 (omega arith) (omega arith))
          (n.decimal_mono 1 64 1 (omega arith) (omega arith))))

  pub set_fuel_fill-IsSane :
      (now : F) (ok : Bool) (level : F) (s : State F)
      → IsSane s.fuel
      → IsSane (set_fuel_fill now ok level s).1.fuel
  unfolding set_fuel_fill save_fuel
  set_fuel_fill-IsSane now ok level s v = ground (arith, level_bounds level)

  pub set_alerts-InRange :
      (ok : Bool) (enabled : Option Bool) (threshold : Option ℤ) (fuel_enabled : Option Bool)
      (s : State F)
      → InRange s.alerts
      → InRange (set_alerts ok enabled threshold fuel_enabled s).1.alerts
  unfolding set_alerts save_alerts new_threshold
  set_alerts-InRange ok enabled none fuel_enabled s v = ground arith
  set_alerts-InRange ok enabled (some t) fuel_enabled s v =
      ground (arith, clamped_threshold_bounds t)
