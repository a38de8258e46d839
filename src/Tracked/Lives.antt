-- ===== src/Tracked/Lives.antt =====
-- The ranges of the tracked values over restarts of the process, with the rows of genpi/store.py that each start
-- of genpi/state.py loads.
use generatorpi.Base.{
  ℤ, String, ◌≡◌, refl, sym, subst, ◌⊎◌, inl, inr, Bool, true, Option, none, some, List, [], ◌∷◌,
  arith,
}
use generatorpi.Float.{Float}
use generatorpi.State.{
  State, number, saved_fuel, saved_alerts, save_total, save_fuel, save_alerts,
  apply_running_transition, set_total_run_hours, Fuel, Json, SavedFuel, Alerts, SavedAlerts, Rows,
  empty_rows, restore_fuel, restore_alerts, initial, load_persisted_state, default_alerts,
  default_fuel, restore_total,
}
use generatorpi.Fuel.{
  set_rate, record_fuel_reading, set_fuel_rate, reset_fuel_rate, set_fuel_fill, set_alerts,
  evaluate_low_fuel,
}
use generatorpi.Tracked.{
  Op, transition, hours, reading, rate, rate_reset, fill, alerts, monitor, factory_reset,
  reset_state, step, run,
}
use generatorpi.Fuel.Ranges.{IsSane, InRange}
use generatorpi.Float.Laws.{zero_f}
use generatorpi.Tracked.Ranges.{IsTracked, step-IsTracked, initial-IsTracked}

-- A row was left alone, deleted, or written with what is in memory now.
abbrev KeptOr : {A : Type 0} → (old written new : Option A) → Type 0
KeptOr old written new = (new ≡ old) ⊎ ((new ≡ none) ⊎ (new ≡ written))

-- What the row of the alerts may hold.
abbrev AlertsSound : Option SavedAlerts → Type 0
AlertsSound o = (o ≡ none) ⊎ ((a : Alerts) × (o ≡ some (saved_alerts a)) × InRange a)

alerts_follow :
    (old new : Option SavedAlerts) (a : Alerts)
    → KeptOr old (some (saved_alerts a)) new
    → AlertsSound old
    → InRange a
    → AlertsSound new
alerts_follow old new a (inl same) o v = subst AlertsSound (sym same) o
alerts_follow old new a (inr (inl gone)) o v = inl gone
alerts_follow old new a (inr (inr now)) o v = inr (a, now, v)

alerts_restored :
    (o : Option SavedAlerts) → AlertsSound o → InRange (restore_alerts o default_alerts)
unfolding restore_alerts
alerts_restored o (inl e) =
    subst (λ t. InRange (restore_alerts t default_alerts)) (sym e)
      (record { at_least = omega arith; at_most = omega arith })
alerts_restored o (inr (a, e, v)) = subst (λ t. InRange (restore_alerts t default_alerts)) (sym e) v

module _ {F : Type 0} ⦃n : Float F⦄ where
  open n use {le}

  abbrev RowsFollow : State F → State F → Type 0
  RowsFollow s s' =
      KeptOr s.rows.total_row (some (number s'.generator.total_run_hours)) s'.rows.total_row
      × KeptOr s.rows.fuel_row (some (saved_fuel s'.fuel)) s'.rows.fuel_row
      × KeptOr s.rows.alerts_row (some (saved_alerts s'.alerts)) s'.rows.alerts_row

  transition-RowsFollow :
      (now : F) (ok new_running : Bool) (s : State F)
      → RowsFollow s (apply_running_transition now ok new_running s)
  unfolding apply_running_transition save_total
  transition-RowsFollow now ok new_running s = ground arith

  hours-RowsFollow :
      (now now' h : F) (ok ok' : Bool) (s : State F)
      → RowsFollow s (set_total_run_hours now now' ok ok' h s).1
  unfolding set_total_run_hours save_total save_fuel
  hours-RowsFollow now now' h ok ok' s = ground arith

  set_rate-RowsFollow : (ok : Bool) (r : F) (s : State F) → RowsFollow s (set_rate ok r s)
  unfolding set_rate save_fuel
  set_rate-RowsFollow ok r s = ground arith

  reading-RowsFollow :
      (now : F) (ok : Bool) (level : F) (s : State F)
      → RowsFollow s (record_fuel_reading now ok level s).1
  unfolding record_fuel_reading set_rate save_fuel
  reading-RowsFollow now ok level s = ground arith

  fill-RowsFollow :
      (now : F) (ok : Bool) (level : F) (s : State F)
      → RowsFollow s (set_fuel_fill now ok level s).1
  unfolding set_fuel_fill save_fuel
  fill-RowsFollow now ok level s = ground arith

  alerts-RowsFollow :
      (ok : Bool) (on : Option Bool) (threshold : Option ℤ) (enabled : Option Bool) (s : State F)
      → RowsFollow s (set_alerts ok on threshold enabled s).1
  unfolding set_alerts save_alerts
  alerts-RowsFollow ok on threshold enabled s = ground arith

  monitor-RowsFollow : (now : F) (s : State F) → RowsFollow s (evaluate_low_fuel now s).1
  unfolding evaluate_low_fuel
  monitor-RowsFollow now s = ground arith

  step-RowsFollow : (op : Op F) (s : State F) → RowsFollow s (step op s).1
  unfolding step
  step-RowsFollow (transition now ok new_running) s = transition-RowsFollow now ok new_running s
  step-RowsFollow (hours now now' ok ok' h) s = hours-RowsFollow now now' h ok ok' s
  step-RowsFollow (reading now ok level) s = reading-RowsFollow now ok level s
  step-RowsFollow (rate ok r) s = unfold set_fuel_rate in set_rate-RowsFollow ok _ s
  step-RowsFollow (rate_reset ok) s = unfold reset_fuel_rate in set_rate-RowsFollow ok _ s
  step-RowsFollow (fill now ok level) s = fill-RowsFollow now ok level s
  step-RowsFollow (alerts ok on threshold enabled) s = alerts-RowsFollow ok on threshold enabled s
  step-RowsFollow (monitor now) s = monitor-RowsFollow now s
  step-RowsFollow factory_reset s =
      unfold reset_state in (inr (inl refl), inr (inl refl), inr (inl refl))

  -- What a row may hold for a start to be sound.
  abbrev TotalSound : Option (Json F) → Type 0
  TotalSound o = (o ≡ none) ⊎ ((h : F) × (o ≡ some (number h)) × (le zero_f h ≡ true))

  abbrev FuelSound : Option (SavedFuel F) → Type 0
  FuelSound o =
      (o ≡ none)
      ⊎ ((f : Fuel F) × (o ≡ some (saved_fuel f)) × IsSane f × (le zero_f f.fill_run_hours ≡ true))

  abbrev RowsSound : Rows F → Type 0
  RowsSound r = TotalSound r.total_row × FuelSound r.fuel_row × AlertsSound r.alerts_row

  total_follows :
      (old new : Option (Json F)) (h : F)
      → KeptOr old (some (number h)) new
      → TotalSound old
      → le zero_f h ≡ true
      → TotalSound new
  total_follows old new h (inl same) o k = subst TotalSound (sym same) o
  total_follows old new h (inr (inl gone)) o k = inl gone
  total_follows old new h (inr (inr now)) o k = inr (h, now, k)

  fuel_follows :
      (old new : Option (SavedFuel F)) (f : Fuel F)
      → KeptOr old (some (saved_fuel f)) new
      → FuelSound old
      → IsSane f
      → le zero_f f.fill_run_hours ≡ true
      → FuelSound new
  fuel_follows old new f (inl same) o v k = subst FuelSound (sym same) o
  fuel_follows old new f (inr (inl gone)) o v k = inl gone
  fuel_follows old new f (inr (inr now)) o v k = inr (f, now, v, k)

  step-RowsSound :
      (op : Op F) (s : State F) → IsTracked s → RowsSound s.rows → RowsSound (step op s).1.rows
  step-RowsSound op s v r =
      let t = step-IsTracked op s v in
      let f = step-RowsFollow op s in
      (
        total_follows _ _ _ f.0 r.0 t.clocked.total_nonneg,
        fuel_follows _ _ _ f.1 r.1 t.sane t.clocked.fill_nonneg,
        alerts_follow _ _ _ f.2 r.2 t.in_range,
      )

  run-RowsSound :
      (ops : List (Op F)) (s : State F)
      → IsTracked s
      → RowsSound s.rows
      → IsTracked (run ops s).1 × RowsSound (run ops s).1.rows
  unfolding run
  run-RowsSound [] s v r = (v, r)
  run-RowsSound (op ∷ ops) s v r =
      run-RowsSound ops (step op s).1 (step-IsTracked op s v) (step-RowsSound op s v r)

  -- A start of the process: the globals at import, and then the rows of the database.
  unfoldable pub restarted : (String → Option F) → Rows F → State F
  unfolding load_persisted_state
  restarted parse rows = load_persisted_state parse (initial rows)

  total_restored :
      (parse : String → Option F) (o : Option (Json F))
      → TotalSound o
      → le zero_f (restore_total parse o zero_f) ≡ true
  total_restored parse o (inl e) =
      subst (λ t. le zero_f (restore_total parse t zero_f) ≡ true) (sym e) (n.le_refl zero_f)
  total_restored parse o (inr (h, e, k)) =
      subst (λ t. le zero_f (restore_total parse t zero_f) ≡ true) (sym e) k

  abbrev FuelFine : Fuel F → Type 0
  FuelFine f = IsSane f × (le zero_f f.fill_run_hours ≡ true)

  fuel_restored : (o : Option (SavedFuel F)) → FuelSound o → FuelFine (restore_fuel o default_fuel)
  unfolding restore_fuel
  fuel_restored o (inl e) =
      let v = initial-IsTracked empty_rows in
      subst (λ t. FuelFine (restore_fuel t default_fuel)) (sym e) (v.sane, v.clocked.fill_nonneg)
  fuel_restored o (inr (f, e, v, k)) =
      subst (λ t. FuelFine (restore_fuel t default_fuel)) (sym e) (v, k)

  restarted-IsTracked :
      (parse : String → Option F) (rows : Rows F)
      → RowsSound rows
      → IsTracked (restarted parse rows)
  unfolding restarted load_persisted_state
  restarted-IsTracked parse rows r =
      let fuel = fuel_restored rows.fuel_row r.1 in
      record {
        clocked = record {
          stamped = refl;
          total_nonneg = total_restored parse rows.total_row r.0;
          fill_nonneg = fuel.1;
        };
        sane = fuel.0;
        in_range = alerts_restored rows.alerts_row r.2;
      }

  -- The processes one after another, each with its history, over the rows that the one before left.
  unfoldable pub lives : (String → Option F) → List (List (Op F)) → Rows F → Rows F
  unfolding restarted run
  lives parse [] rows = rows
  lives parse (ops ∷ rest) rows = lives parse rest (run ops (restarted parse rows)).1.rows

  lives-RowsSound :
      (parse : String → Option F) (past : List (List (Op F))) (rows : Rows F)
      → RowsSound rows
      → RowsSound (lives parse past rows)
  unfolding lives
  lives-RowsSound parse [] rows r = r
  lives-RowsSound parse (ops ∷ rest) rows r =
      lives-RowsSound parse rest (run ops (restarted parse rows)).1.rows
        (run-RowsSound ops (restarted parse rows) (restarted-IsTracked parse rows r) r).1

  -- From an empty database, over any number of processes one after another, each of which loads what the
  -- one before left in the database and then does whatever the operator, the monitor and the run
  -- transitions ask for, at whatever times and with whatever success of the writes: at every moment a run is
  -- stamped exactly while the generator counts as running, no count of hours is negative, the fill level is a
  -- percentage, the drain rate is at least 0.1 %/hr, its default is 6.4, and the alert threshold is
  -- within 5..40.
  pub lives-IsTracked :
      (parse : String → Option F) (past : List (List (Op F))) (ops : List (Op F))
      → IsTracked (run ops (restarted parse (lives parse past empty_rows))).1
  unfolding restarted
  lives-IsTracked parse past ops =
      let rows = lives parse past empty_rows in
      let sound = lives-RowsSound parse past empty_rows (inl refl, inl refl, inl refl) in
      (run-RowsSound ops (restarted parse rows) (restarted-IsTracked parse rows sound) sound).0
