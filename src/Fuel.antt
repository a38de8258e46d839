-- ===== src/Fuel.antt =====
-- genpi/fuel.py: the linear fuel projection, the low-fuel evaluator, and the operator's mutators.
-- Clock readings and the outcome of the write to the database are arguments, as in State.antt.
pub mod Ranges
mod Tests
use generatorpi.Base.{
  if◌then◌else◌, ℤ, pos, pos_part, leb_ℤ, ℕ, ◌+◌, Bool, true, false, not, ◌&&◌, ◌||◌, Option, none,
  some,
}
use generatorpi.Float.{Float}
use generatorpi.Float.Laws.{fmax, lt, zero_f, clamp}
use generatorpi.State.{
  State, Fuel, Alerts, override, save_fuel, save_alerts, live_total_run_hours, run_since_fill,
}

-- `FUEL_ALERT_REARM_MARGIN`
abbrev pub rearm_margin : ℕ
rearm_margin = 5

-- What `evaluate_low_fuel` did; a push, and its event, name the rounded level.
pub data Action : Type 0 where
  push : ℤ → Action
  rearm skip : Action

-- `int(max(5, min(40, int(threshold))))`
unfoldable pub clamped_threshold : ℤ → ℕ
clamped_threshold t = if leb_ℤ (pos 40) t then 40 else if leb_ℤ t (pos 5) then 5 else pos_part t

unfoldable pub new_threshold : Option ℤ → ℕ → ℕ
unfolding clamped_threshold
new_threshold none old = old
new_threshold (some t) old = clamped_threshold t

module _ {F : Type 0} ⦃n : Float F⦄ where
  open n use {decimal, add, sub, mul, div, le, round, to_int}

  unfoldable pub projected_fuel_level : F → State F → F
  unfolding run_since_fill
  projected_fuel_level now s =
      clamp zero_f (decimal 100 0)
        (sub s.fuel.fill_level (mul s.fuel.drain_rate (run_since_fill now s)))

  unfoldable pub threshold_reached : F → State F → Bool
  unfolding projected_fuel_level
  threshold_reached now s = le (projected_fuel_level now s) (decimal s.alerts.alert_threshold 0)

  unfoldable pub level_recovered : F → State F → Bool
  unfolding projected_fuel_level
  level_recovered now s =
      lt (decimal (s.alerts.alert_threshold + rearm_margin) 0) (projected_fuel_level now s)

  unfoldable pub evaluate_low_fuel : F → State F → Action × State F
  unfolding threshold_reached level_recovered
  evaluate_low_fuel now s =
      if not s.alerts.fuel_enabled || not s.alerts.alerts_on
      then (skip, s)
      else if not s.generator.running
      then (skip, record s { low_fuel_alerted = false })
      else if threshold_reached now s && not s.low_fuel_alerted
      then (
        push (to_int (round 0 (projected_fuel_level now s))),
        record s { low_fuel_alerted = true },
      )
      else if level_recovered now s && s.low_fuel_alerted
      then (rearm, record s { low_fuel_alerted = false })
      else (skip, s)

  -- `FUEL_MIN_RUN_SINCE_FILL`
  abbrev pub min_run_since_fill : F
  min_run_since_fill = decimal 5 2

  abbrev pub lowest_rate : F
  lowest_rate = decimal 1 1

  -- `_round1(0.5 * old + 0.5 * new)`
  unfoldable pub blended_rate : F → F → F
  blended_rate old new = round 1 (add (mul (decimal 5 1) old) (mul (decimal 5 1) new))

  unfoldable pub set_rate : Bool → F → State F → State F
  unfolding save_fuel
  set_rate ok rate s = save_fuel ok (record s { fuel = record s.fuel { drain_rate = rate } })

  unfoldable pub record_fuel_reading : F → Bool → F → State F → F × State F
  unfolding blended_rate set_rate run_since_fill
  record_fuel_reading now ok level s =
      let observed = clamp zero_f (decimal 100 0) level in
      let since = run_since_fill now s in
      let new_rate = fmax lowest_rate (div (sub s.fuel.fill_level observed) since) in
      let rate = blended_rate s.fuel.drain_rate new_rate in
      if lt since min_run_since_fill then (s.fuel.drain_rate, s) else (rate, set_rate ok rate s)

  unfoldable pub set_fuel_rate : Bool → F → State F → F × State F
  unfolding set_rate
  set_fuel_rate ok rate s =
      let floored = fmax lowest_rate (round 1 rate) in (floored, set_rate ok floored s)

  unfoldable pub reset_fuel_rate : Bool → State F → F × State F
  unfolding set_rate
  reset_fuel_rate ok s = let rate = round 1 s.fuel.default_rate in (rate, set_rate ok rate s)

  unfoldable pub set_fuel_fill : F → Bool → F → State F → Fuel F × State F
  unfolding save_fuel
  set_fuel_fill now ok level s =
      let fuel = record s.fuel {
        fill_level = clamp zero_f (decimal 100 0) level;
        fill_run_hours = live_total_run_hours now s.generator;
      } in
      (fuel, save_fuel ok (record s { fuel = fuel; low_fuel_alerted = false }))

  -- Every argument may be left out; `threshold` is `int` of what the caller gave.
  unfoldable pub set_alerts :
      Bool → Option Bool → Option ℤ → Option Bool → State F → Alerts × State F
  unfolding save_alerts new_threshold
  set_alerts ok enabled threshold fuel_enabled s =
      let alerts : Alerts = record {
        alerts_on = override enabled s.alerts.alerts_on;
        alert_threshold = new_threshold threshold s.alerts.alert_threshold;
        fuel_enabled = override fuel_enabled s.alerts.fuel_enabled;
      } in
      (alerts, save_alerts ok (record s { alerts = alerts }))
