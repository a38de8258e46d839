-- ===== src/Tracked/Restart.antt =====
-- What a restart of the process brings back.
use generatorpi.Base.{
  Bool-cases, All, ℤ, String, ◌≡◌, refl, ◌⊎◌, inl, inr, Bool, true, false, Option, none, some, List,
  [], ◌∷◌, arith,
}
use generatorpi.Float.{Float}
use generatorpi.Float.Laws.{zero_f, lt}
use generatorpi.State.{
  State, number, default_alerts, empty_rows, saved_fuel, save_total, save_fuel, saved_alerts,
  save_alerts, default_fuel, initial, load_persisted_state, apply_running_transition,
  run_since_fill, set_total_run_hours,
}
use generatorpi.Fuel.{
  evaluate_low_fuel, min_run_since_fill, set_rate, record_fuel_reading, set_fuel_rate,
  reset_fuel_rate, set_fuel_fill, set_alerts,
}
use generatorpi.Tracked.{
  Op, transition, hours, reading, rate, rate_reset, fill, alerts, monitor, factory_reset,
  reset_state, step, run,
}

-- The database takes every write of the step.
abbrev pub Written : {F : Type 0} → Op F → Type 0
Written (transition now ok new_running) = ok ≡ true
Written (hours now now' ok ok' h) = (ok ≡ true) × (ok' ≡ true)
Written (reading now ok level) = ok ≡ true
Written (rate ok r) = ok ≡ true
Written (rate_reset ok) = ok ≡ true
Written (fill now ok level) = ok ≡ true
Written (alerts ok on threshold enabled) = ok ≡ true
Written (monitor now) = Unit
Written factory_reset = Unit

module _ {F : Type 0} ⦃n : Float F⦄ where
  -- A row is missing, and its part of the state at the default, or it holds that part.
  abbrev TotalKept : State F → Type 0
  TotalKept s =
      ((s.rows.total_row ≡ none) × (s.generator.total_run_hours ≡ zero_f))
      ⊎ (s.rows.total_row ≡ some (number s.generator.total_run_hours))

  abbrev FuelKept : State F → Type 0
  FuelKept s =
      ((s.rows.fuel_row ≡ none) × (s.fuel ≡ default_fuel))
      ⊎ (s.rows.fuel_row ≡ some (saved_fuel s.fuel))

  abbrev AlertsKept : State F → Type 0
  AlertsKept s =
      ((s.rows.alerts_row ≡ none) × (s.alerts ≡ default_alerts))
      ⊎ (s.rows.alerts_row ≡ some (saved_alerts s.alerts))

  record IsSynced (s : State F) : Type 0 where
    total : TotalKept s
    fuel : FuelKept s
    alert : AlertsKept s

  transition-IsSynced :
      (now : F) (new_running : Bool) (s : State F)
      → IsSynced s
      → IsSynced (apply_running_transition now true new_running s)
  unfolding apply_running_transition save_total
  transition-IsSynced now new_running s v = ground arith

  hours-IsSynced :
      (now now' h : F) (s : State F)
      → IsSynced s
      → IsSynced (set_total_run_hours now now' true true h s).1
  unfolding set_total_run_hours save_total save_fuel
  hours-IsSynced now now' h s v = record { total = inr refl; fuel = inr refl; alert = v.alert }

  set_rate-IsSynced : (r : F) (s : State F) → IsSynced s → IsSynced (set_rate true r s)
  unfolding set_rate save_fuel
  set_rate-IsSynced r s v = record { total = v.total; fuel = inr refl; alert = v.alert }

  reading-IsSynced :
      (now level : F) (s : State F) → IsSynced s → IsSynced (record_fuel_reading now true level s).1
  unfolding record_fuel_reading
  reading-IsSynced now level s v =
      elim (Bool-cases (lt (run_since_fill now s) min_run_since_fill)) [
        | inl soon ↦ rw soon v
        | inr late ↦ rw late (set_rate-IsSynced _ s v)
      ]

  fill-IsSynced :
      (now level : F) (s : State F) → IsSynced s → IsSynced (set_fuel_fill now true level s).1
  unfolding set_fuel_fill save_fuel
  fill-IsSynced now level s v = record { total = v.total; fuel = inr refl; alert = v.alert }

  alerts-IsSynced :
      (on : Option Bool) (threshold : Option ℤ) (enabled : Option Bool) (s : State F)
      → IsSynced s
      → IsSynced (set_alerts true on threshold enabled s).1
  unfolding set_alerts save_alerts
  alerts-IsSynced on threshold enabled s v = record {
    total = v.total;
    fuel = v.fuel;
    alert = inr refl;
  }

  monitor-IsSynced : (now : F) (s : State F) → IsSynced s → IsSynced (evaluate_low_fuel now s).1
  unfolding evaluate_low_fuel
  monitor-IsSynced now s v = ground arith

  step-IsSynced : (op : Op F) (s : State F) → Written op → IsSynced s → IsSynced (step op s).1
  unfolding step
  step-IsSynced (transition now ok new_running) s w v =
      rw w (transition-IsSynced now new_running s v)
  step-IsSynced (hours now now' ok ok' h) s w v = rw w.0 (rw w.1 (hours-IsSynced now now' h s v))
  step-IsSynced (reading now ok level) s w v = rw w (reading-IsSynced now level s v)
  step-IsSynced (rate ok r) s w v = unfold set_fuel_rate in rw w (set_rate-IsSynced _ s v)
  step-IsSynced (rate_reset ok) s w v = unfold reset_fuel_rate in rw w (set_rate-IsSynced _ s v)
  step-IsSynced (fill now ok level) s w v = rw w (fill-IsSynced now level s v)
  step-IsSynced (alerts ok on threshold enabled) s w v =
      rw w (alerts-IsSynced on threshold enabled s v)
  step-IsSynced (monitor now) s w v = monitor-IsSynced now s v
  step-IsSynced factory_reset s w v =
      unfold reset_state in
      record { total = inl (refl, refl); fuel = inl (refl, refl); alert = inl (refl, refl) }

  run-IsSynced :
      (ops : List (Op F)) (s : State F) → All Written ops → IsSynced s → IsSynced (run ops s).1
  unfolding run
  run-IsSynced [] s w v = v
  run-IsSynced (op ∷ ops) s w v = run-IsSynced ops (step op s).1 w.1 (step-IsSynced op s w.0 v)

  synced_restores :
      (parse : String → Option F) (s : State F)
      → IsSynced s
      → let s' = load_persisted_state parse (initial s.rows) in
        (s'.generator.total_run_hours ≡ s.generator.total_run_hours)
        × (s'.fuel ≡ s.fuel)
        × (s'.alerts ≡ s.alerts)
        × (s'.generator.running ≡ false)
  unfolding load_persisted_state
  synced_restores parse s v = ground arith

  -- From the first start on an empty database, after any history whose writes the database took, a
  -- restart of the process brings back the lifetime total, the fuel model and the alert settings as
  -- they were in memory. The generator counts as stopped then; the part of a run in progress that
  -- was not banked is lost.
  pub restart_restores :
      (parse : String → Option F) (ops : List (Op F))
      → All Written ops
      → let s = (run ops (initial empty_rows)).1 in
        let s' = load_persisted_state parse (initial s.rows) in
        (s'.generator.total_run_hours ≡ s.generator.total_run_hours)
        × (s'.fuel ≡ s.fuel)
        × (s'.alerts ≡ s.alerts)
        × (s'.generator.running ≡ false)
  restart_restores parse ops w = synced_restores parse _ (
      run-IsSynced ops (initial empty_rows) w
        (record { total = inl (refl, refl); fuel = inl (refl, refl); alert = inl (refl, refl) }))
