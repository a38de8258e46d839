-- ===== src/Tracked.antt =====
-- Everything that changes the tracked state, as one step: the run transitions of genpi/control.py and
-- /api/set_running, the manual odometer, the fuel and alert mutators of genpi/fuel.py, a round of the
-- fuel monitor, and the state part of `factory_reset` of genpi/routes/core.py. Each holds
-- `state_lock` while it runs, so that a history is a sequence of steps.
pub mod Ranges
pub mod Lives
pub mod Pushes
pub mod Restart
mod Tests
use generatorpi.Base.{ℤ, Bool, false, Option, none, List, [], ◌∷◌}
use generatorpi.Float.{Float}
use generatorpi.State.{
  State, default_alerts, empty_rows, default_fuel, apply_running_transition, set_total_run_hours,
}
use generatorpi.Fuel.{
  Action, skip, evaluate_low_fuel, record_fuel_reading, set_fuel_rate, reset_fuel_rate,
  set_fuel_fill, set_alerts,
}
use generatorpi.Float.Laws.{zero_f}

-- A Bool is whether the database takes a write; the first F's are readings of the clock.
pub data Op (F : Type 0) : Type 0 where
  transition : F → Bool → Bool → Op F
  hours : F → F → Bool → Bool → F → Op F
  reading : F → Bool → F → Op F
  rate : Bool → F → Op F
  rate_reset : Bool → Op F
  fill : F → Bool → F → Op F
  alerts : Bool → Option Bool → Option ℤ → Option Bool → Op F
  monitor : F → Op F
  factory_reset : Op F

module _ {F : Type 0} ⦃n : Float F⦄ where
  -- `factory_reset` on a database that takes the deletions: the rows go, then the globals are reset.
  unfoldable pub reset_state : State F → State F
  reset_state s = record s {
    generator = record s.generator {
      running = false;
      current_run_started_at = none;
      total_run_hours = zero_f;
    };
    fuel = default_fuel;
    alerts = default_alerts;
    rows = empty_rows;
  }

  unfoldable pub step : Op F → State F → Action × State F
  step (transition now ok new_running) s = (skip, apply_running_transition now ok new_running s)
  step (hours now now' ok ok' h) s = (skip, (set_total_run_hours now now' ok ok' h s).1)
  step (reading now ok level) s = (skip, (record_fuel_reading now ok level s).1)
  step (rate ok r) s = (skip, (set_fuel_rate ok r s).1)
  step (rate_reset ok) s = (skip, (reset_fuel_rate ok s).1)
  step (fill now ok level) s = (skip, (set_fuel_fill now ok level s).1)
  step (alerts ok on threshold enabled) s = (skip, (set_alerts ok on threshold enabled s).1)
  step (monitor now) s = evaluate_low_fuel now s
  step factory_reset s = (skip, reset_state s)

  -- The actions in order, and the last state.
  unfoldable pub run : List (Op F) → State F → List Action × State F
  run [] s = ([], s)
  run (op ∷ ops) s =
      let (action, s') = step op s in let (actions, last) = run ops s' in (action ∷ actions, last)
