-- ===== src/Fuel/Tests.antt =====
-- The projection on concrete values, in fixed point.
use generatorpi.Base.{ℤ, pos, leb_ℤ, ◌≡◌, refl, true}
use generatorpi.Float.Fixed.{fixed}
use generatorpi.State.{State, empty_rows, initial, live_total_run_hours}
use generatorpi.Fuel.{projected_fuel_level, record_fuel_reading}
use generatorpi.Fuel.Ranges.{projected_fuel_level_bounds}

-- Ten hours into a full tank, at 6.4 %/hr.
abbrev ten_hours : State ℤ
ten_hours = record (initial empty_rows) {
  generator = record (initial empty_rows).generator { running = true; total_run_hours = pos 10000 };
}

level_after_ten_hours : projected_fuel_level (pos 0) ten_hours ≡ pos 36000
unfolding projected_fuel_level live_total_run_hours
level_after_ten_hours = refl

rate_after_reading : (record_fuel_reading (pos 0) true (pos 20000) ten_hours).0 ≡ pos 7200
unfolding record_fuel_reading live_total_run_hours
rate_after_reading = refl

projected_fuel_level_bounds_example :
    (leb_ℤ (pos 0) (projected_fuel_level (pos 1) ten_hours) ≡ true)
    × (leb_ℤ (projected_fuel_level (pos 1) ten_hours) (pos 100000) ≡ true)
    × (leb_ℤ (projected_fuel_level (pos 2) ten_hours) (projected_fuel_level (pos 1) ten_hours)
        ≡ true)
projected_fuel_level_bounds_example =
    projected_fuel_level_bounds (pos 1) (pos 2) ten_hours refl refl
