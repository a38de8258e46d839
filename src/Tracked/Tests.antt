-- ===== src/Tracked/Tests.antt =====
-- A history: a start, eleven hours of running, a push, a refuel, a stop.
use generatorpi.Base.{ℤ, pos, ℕ, ◌+◌, ◌*◌, ◌≤◌, ◌≡◌, refl, true, false, none, List, [], ◌∷◌}
use generatorpi.Float.Fixed.{fixed}
use generatorpi.State.{
  State, empty_rows, initial, load_persisted_state, elapsed_hours, live_total_run_hours,
  apply_running_transition,
}
use generatorpi.Fuel.{push, skip, evaluate_low_fuel, set_fuel_fill}
use generatorpi.Tracked.{Op, transition, fill, monitor, step, run}
use generatorpi.Tracked.Pushes.{pushes, bit, rearm_count, pushes_balance}
use generatorpi.Tracked.Ranges.{IsTracked}
use generatorpi.Tracked.Lives.{restarted, lives, lives-IsTracked}
use generatorpi.Tracked.Restart.{restart_restores}

abbrev hour : ℕ → ℤ
hour n = pos (n * 3600000)

abbrev history : List (Op ℤ)
history =
    transition (hour 0) true true
    ∷ monitor (hour 12)
    ∷ monitor (hour 13)
    ∷ monitor (hour 14)
    ∷ fill (hour 14) true (pos 100000)
    ∷ transition (hour 15) true false
    ∷ []

history_actions :
    (run history (initial empty_rows)).0 ≡ skip ∷ skip ∷ push (pos 17) ∷ skip ∷ skip ∷ skip ∷ []
unfolding run step apply_running_transition evaluate_low_fuel set_fuel_fill live_total_run_hours
    elapsed_hours
history_actions = refl

history_total : (run history (initial empty_rows)).1.generator.total_run_hours ≡ pos 15000
unfolding run step apply_running_transition evaluate_low_fuel set_fuel_fill live_total_run_hours
    elapsed_hours
history_total = refl

lives-IsTracked_example :
    IsTracked (run history (restarted (λ s. none) (lives (λ s. none) (history ∷ []) empty_rows))).1
lives-IsTracked_example = lives-IsTracked (λ s. none) (history ∷ []) history

pushes_balance_example :
    (pushes (run history (initial empty_rows)).0 + 0
      ≡ rearm_count history (initial empty_rows)
        + bit (run history (initial empty_rows)).1.low_fuel_alerted)
    × (pushes (run history (initial empty_rows)).0 ≤ rearm_count history (initial empty_rows) + 1)
pushes_balance_example = pushes_balance history (initial empty_rows)

abbrev alerted_state : State ℤ
alerted_state = record (initial empty_rows) { low_fuel_alerted = true }

restart_restores_example :
    let s = (run history (initial empty_rows)).1 in
    let s' = load_persisted_state (λ _. none) (initial s.rows) in
    (s'.generator.total_run_hours ≡ s.generator.total_run_hours)
    × (s'.fuel ≡ s.fuel)
    × (s'.alerts ≡ s.alerts)
    × (s'.generator.running ≡ false)
restart_restores_example =
    restart_restores (λ _. none) history (refl, (tt, (tt, (tt, (refl, (refl, tt))))))
