-- ===== src/Tracked/Ranges.antt =====
-- The ranges of the tracked values, whatever is done to them.
use generatorpi.Base.{ℤ, ◌≡◌, refl, Bool, true, Option, arith}
use generatorpi.Float.{Float}
use generatorpi.Float.Laws.{zero_f, fmax, clamp}
use generatorpi.State.{
  State, Rows, save_total, save_fuel, save_alerts, initial, live_total_run_hours,
  apply_running_transition, run_since_fill, set_total_run_hours,
}
use generatorpi.State.Odometer.{
  IsClocked, apply_running_transition-IsClocked, set_total_run_hours-IsClocked,
  elapsed_since_nonneg,
}
use generatorpi.Fuel.Ranges.{
  IsSane, InRange, record_fuel_reading-IsSane, set_fuel_rate-IsSane, reset_fuel_rate-IsSane,
  set_fuel_fill-IsSane, set_alerts-InRange,
}
use generatorpi.Tracked.{
  Op, transition, hours, reading, rate, rate_reset, fill, alerts, monitor, factory_reset,
  reset_state, step,
}
use generatorpi.Fuel.{
  set_alerts, evaluate_low_fuel, set_fuel_rate, set_fuel_fill, set_rate, record_fuel_reading,
  lowest_rate, blended_rate, reset_fuel_rate,
}

module _ {F : Type 0} ⦃n : Float F⦄ where
  open n use {decimal, sub, div, le}

  pub record IsTracked (s : State F) : Type 0 where
    pub clocked : IsClocked s
    pub sane : IsSane s.fuel
    pub in_range : InRange s.alerts

  reset_state-IsTracked : (s : State F) → IsTracked (reset_state s)
  unfolding reset_state
  reset_state-IsTracked s = record {
    clocked = record {
      stamped = refl;
      total_nonneg = n.le_refl zero_f;
      fill_nonneg = n.le_refl zero_f;
    };
    sane = record {
      level_low = n.decimal_mono 0 100 0 (omega arith) (omega arith);
      level_high = n.le_refl (decimal 100 0);
      rate_low = n.decimal_mono 1 64 1 (omega arith) (omega arith);
      default_fixed = refl;
    };
    in_range = record { at_least = omega arith; at_most = omega arith };
  }

  -- A change of the drain rate alone.
  set_rate-IsTracked :
      (ok : Bool) (r : F) (s : State F)
      → IsTracked s
      → IsSane (set_rate ok r s).fuel
      → IsTracked (set_rate ok r s)
  unfolding set_rate save_fuel
  set_rate-IsTracked ok r s v sane = ground arith

  reading-IsTracked :
      (now : F) (ok : Bool) (level : F) (s : State F)
      → IsTracked s
      → IsTracked (record_fuel_reading now ok level s).1
  unfolding record_fuel_reading
  reading-IsTracked now ok level s v = ground (
    arith,
    record_fuel_reading-IsSane now ok level s v.sane,
    set_rate-IsTracked ok
        (blended_rate s.fuel.drain_rate (
          fmax lowest_rate (
            div (sub s.fuel.fill_level (clamp zero_f (decimal 100 0) level))
              (run_since_fill now s))))
        s v,
  )

  live_nonneg :
      (now : F) (s : State F)
      → IsClocked s
      → le zero_f (live_total_run_hours now s.generator) ≡ true
  unfolding live_total_run_hours
  live_nonneg now s v = ground (
    arith,
    elapsed_since_nonneg now s.generator.total_run_hours s.generator.current_run_started_at,
  )

  fill-IsTracked :
      (now : F) (ok : Bool) (level : F) (s : State F)
      → IsTracked s
      → IsTracked (set_fuel_fill now ok level s).1
  unfolding set_fuel_fill save_fuel
  fill-IsTracked now ok level s v =
      ground (arith, set_fuel_fill-IsSane now ok level s v.sane, live_nonneg now s v.clocked)

  transition-IsTracked :
      (now : F) (ok new_running : Bool) (s : State F)
      → IsTracked s
      → IsTracked (apply_running_transition now ok new_running s)
  unfolding apply_running_transition save_total
  transition-IsTracked now ok new_running s v =
      ground (arith, apply_running_transition-IsClocked now ok new_running s v.clocked)

  hours-IsTracked :
      (now now' h : F) (ok ok' : Bool) (s : State F)
      → IsTracked s
      → IsTracked (set_total_run_hours now now' ok ok' h s).1
  unfolding set_total_run_hours save_total save_fuel
  hours-IsTracked now now' h ok ok' s v =
      ground (arith, set_total_run_hours-IsClocked now now' h ok ok' s v.clocked)

  alerts-IsTracked :
      (ok : Bool) (on : Option Bool) (threshold : Option ℤ) (enabled : Option Bool) (s : State F)
      → IsTracked s
      → IsTracked (set_alerts ok on threshold enabled s).1
  unfolding set_alerts save_alerts
  alerts-IsTracked ok on threshold enabled s v =
      ground (arith, set_alerts-InRange ok on threshold enabled s v.in_range)

  monitor-IsTracked : (now : F) (s : State F) → IsTracked s → IsTracked (evaluate_low_fuel now s).1
  unfolding evaluate_low_fuel
  monitor-IsTracked now s v = ground arith

  pub step-IsTracked : (op : Op F) (s : State F) → IsTracked s → IsTracked (step op s).1
  unfolding step
  step-IsTracked (transition now ok new_running) s v = transition-IsTracked now ok new_running s v
  step-IsTracked (hours now now' ok ok' h) s v = hours-IsTracked now now' h ok ok' s v
  step-IsTracked (reading now ok level) s v = reading-IsTracked now ok level s v
  step-IsTracked (rate ok r) s v =
      unfold set_fuel_rate in set_rate-IsTracked ok _ s v (set_fuel_rate-IsSane ok r s v.sane)
  step-IsTracked (rate_reset ok) s v =
      unfold reset_fuel_rate in set_rate-IsTracked ok _ s v (reset_fuel_rate-IsSane ok s v.sane)
  step-IsTracked (fill now ok level) s v = fill-IsTracked now ok level s v
  step-IsTracked (alerts ok on threshold enabled) s v = alerts-IsTracked ok on threshold enabled s v
  step-IsTracked (monitor now) s v = monitor-IsTracked now s v
  step-IsTracked factory_reset s v = reset_state-IsTracked s

  -- The state at the first start of the program.
  pub initial-IsTracked : (rows : Rows F) → IsTracked (initial rows)
  unfolding reset_state
  initial-IsTracked rows =
      let record { clocked = c; sane = f; in_range = a } = reset_state-IsTracked (initial rows) in
      record {
        clocked = record {
          stamped = c.stamped;
          total_nonneg = c.total_nonneg;
          fill_nonneg = c.fill_nonneg;
        };
        sane = f;
        in_range = a;
      }
