-- ===== src/State/Tests.antt =====
-- The odometer on concrete values, in fixed point.
use generatorpi.Base.{ℤ, pos, leb_ℤ, ◌≡◌, refl, true, false, some}
use generatorpi.Float.Fixed.{fixed}
use generatorpi.State.{
  State, number, empty_rows, saved_fuel, default_fuel, initial, elapsed_hours, live_total_run_hours,
  apply_running_transition, set_total_run_hours,
}
use generatorpi.State.Odometer.{
  entered, IsClocked, apply_running_transition_reads, set_total_run_hours_reads,
}

-- Started at 1000 s with 12.5 h on the odometer; a full tank at 10 h.
abbrev pub running_state : State ℤ
running_state = record (initial empty_rows) {
  generator = record (initial empty_rows).generator {
    running = true;
    current_run_started_at = some (pos 1000000);
    total_run_hours = pos 12500;
  };
  fuel = record default_fuel { fill_run_hours = pos 10000 };
}

-- Half an hour later.
live_after_half_hour : live_total_run_hours (pos 2800000) running_state.generator ≡ pos 13000
unfolding live_total_run_hours elapsed_hours
live_after_half_hour = refl

running_state-IsClocked : IsClocked running_state
running_state-IsClocked = record { stamped = refl; total_nonneg = refl; fill_nonneg = refl }

apply_running_transition_reads_example :
    live_total_run_hours
      (pos 2800000)
      (apply_running_transition (pos 2800000) true false running_state).generator
    ≡ live_total_run_hours (pos 2800000) running_state.generator
apply_running_transition_reads_example =
    apply_running_transition_reads (pos 2800000) true false running_state running_state-IsClocked

set_total_run_hours_reads_example :
    let ((old, h), s') =
      set_total_run_hours (pos 2800000) (pos 2800000) true true (pos 100000) running_state in
    (old ≡ live_total_run_hours (pos 2800000) running_state.generator)
    × (h ≡ entered (pos 100000))
    × (live_total_run_hours (pos 2800000) s'.generator ≡ h)
    × (leb_ℤ (pos 0) h ≡ true)
    × (leb_ℤ h (pos 1000000000) ≡ true)
    × (s'.generator.running ≡ true)
    × (s'.rows.total_row ≡ some (number h))
    × (s'.rows.fuel_row ≡ some (saved_fuel s'.fuel))
set_total_run_hours_reads_example =
    set_total_run_hours_reads (pos 2800000) (pos 2800000) (pos 100000) true true running_state
