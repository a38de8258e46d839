-- ===== src/Tracked/Pushes.antt =====
-- The low-fuel push is edge-triggered.
use generatorpi.Base.{
  ℕ, ◌+◌, ◌≤◌, ◌≡◌, refl, ◌⊎◌, inl, inr, Bool, true, false, not, ◌&&◌, List, [], ◌∷◌, arith,
}
use generatorpi.Float.{Float}
use generatorpi.State.{
  State, save_total, save_fuel, save_alerts, apply_running_transition, set_total_run_hours,
}
use generatorpi.Fuel.{
  Action, push, rearm, skip, threshold_reached, level_recovered, evaluate_low_fuel, set_rate,
  record_fuel_reading, set_fuel_rate, reset_fuel_rate, set_fuel_fill, set_alerts,
}
use generatorpi.Tracked.{
  Op, transition, hours, reading, rate, rate_reset, fill, alerts, monitor, factory_reset,
  reset_state, step, run,
}

abbrev pub bit : Bool → ℕ
bit true = 1
bit false = 0

bit_le_one : (b : Bool) → bit b ≤ 1
bit_le_one true = omega arith
bit_le_one false = omega arith

abbrev pub is_push : Action → Bool
is_push (push level) = true
is_push rearm = false
is_push skip = false

abbrev pub pushes : List Action → ℕ
pushes [] = 0
pushes (a ∷ actions) = bit (is_push a) + pushes actions

module _ {F : Type 0} ⦃n : Float F⦄ where
  open n use {le}

  -- The conditions under which the monitor pushes, in one test.
  abbrev pub alert_due : F → State F → Bool
  alert_due now s =
      s.alerts.fuel_enabled
      && s.alerts.alerts_on
      && s.generator.running
      && threshold_reached now s
      && not s.low_fuel_alerted

  -- A round of the monitor pushes exactly when alerts are on, the generator counts as running, the
  -- level is at or below the threshold and this crossing was not pushed yet. Of the
  -- state it changes nothing but the flag.
  pub evaluate_low_fuel_pushes :
      (now : F) (s : State F)
      → (is_push (evaluate_low_fuel now s).0 ≡ alert_due now s)
        × ((evaluate_low_fuel now s).1
            ≡ record s { low_fuel_alerted = (evaluate_low_fuel now s).1.low_fuel_alerted })
  unfolding evaluate_low_fuel
  evaluate_low_fuel_pushes now s = (ground arith, ground arith)

  -- A step that takes the flag back.
  abbrev pub rearms : Op F → State F → Bool
  rearms op s = s.low_fuel_alerted && not (step op s).1.low_fuel_alerted

  abbrev pub rearm_count : List (Op F) → State F → ℕ
  rearm_count [] s = 0
  rearm_count (op ∷ ops) s = bit (rearms op s) + rearm_count ops (step op s).1

  -- What a step does to the flag: it is raised by a push, and otherwise kept or taken back.
  step_flag :
      (op : Op F) (s : State F)
      → bit (is_push (step op s).0) + bit s.low_fuel_alerted
        ≡ bit (rearms op s) + bit (step op s).1.low_fuel_alerted
  unfolding step
  step_flag (transition now ok new_running) s =
      unfold apply_running_transition save_total in ground arith
  step_flag (hours now now' ok ok' h) s =
      unfold set_total_run_hours save_total save_fuel in ground arith
  step_flag (reading now ok level) s = unfold record_fuel_reading set_rate save_fuel in ground arith
  step_flag (rate ok r) s = unfold set_fuel_rate set_rate save_fuel in ground arith
  step_flag (rate_reset ok) s = unfold reset_fuel_rate set_rate save_fuel in ground arith
  step_flag (fill now ok level) s = unfold set_fuel_fill save_fuel in ground arith
  step_flag (alerts ok on threshold enabled) s = unfold set_alerts save_alerts in ground arith
  step_flag (monitor now) s = unfold evaluate_low_fuel in ground arith
  step_flag factory_reset s = unfold reset_state in ground arith

  -- Over any history the pushes and the re-arms alternate: there is one push for each re-arm, give or
  -- take the flag at the two ends; so never more than one push beyond the number of re-arms.
  pub pushes_balance :
      (ops : List (Op F)) (s : State F)
      → (pushes (run ops s).0 + bit s.low_fuel_alerted
          ≡ rearm_count ops s + bit (run ops s).1.low_fuel_alerted)
        × (pushes (run ops s).0 ≤ rearm_count ops s + 1)
  unfolding run
  pushes_balance [] s = (omega arith, omega arith)
  pushes_balance (op ∷ ops) s =
      let (rest, most) = pushes_balance ops (step op s).1 in
      (
        omega (arith, step_flag op s),
        omega (arith, step_flag op s, bit_le_one (run ops (step op s).1).1.low_fuel_alerted),
      )

  -- What re-arms: a refuel; or a round of the monitor with alerts on that finds the generator not
  -- running, or the level more than 5 above the threshold. A stop alone does not.
  pub rearms_only :
      (op : Op F) (s : State F)
      → rearms op s ≡ true
      → ((now : F) × (ok : Bool) × (level : F) × (op ≡ fill now ok level))
        ⊎ ((now : F) × (op ≡ monitor now)
            × (s.alerts.fuel_enabled && s.alerts.alerts_on ≡ true)
            × ((s.generator.running ≡ false) ⊎ (level_recovered now s ≡ true)))
  unfolding step
  rearms_only (transition now ok new_running) s h =
      absurd (unfold apply_running_transition save_total in ground arith)
  rearms_only (hours now now' ok ok' t) s h =
      absurd (unfold set_total_run_hours save_total save_fuel in ground arith)
  rearms_only (reading now ok level) s h =
      absurd (unfold record_fuel_reading set_rate save_fuel in ground arith)
  rearms_only (rate ok r) s h = absurd (unfold set_fuel_rate set_rate save_fuel in ground arith)
  rearms_only (rate_reset ok) s h =
      absurd (unfold reset_fuel_rate set_rate save_fuel in ground arith)
  rearms_only (fill now ok level) s h = inl (now, ok, level, refl)
  rearms_only (alerts ok on threshold enabled) s h =
      absurd (unfold set_alerts save_alerts in ground arith)
  rearms_only (monitor now) s h = inr (
    now,
    refl,
    unfold evaluate_low_fuel in ground arith,
    unfold evaluate_low_fuel in ground arith,
  )
  rearms_only factory_reset s h = absurd (unfold reset_state in ground arith)
