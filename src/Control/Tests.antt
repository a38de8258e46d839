-- ===== src/Control/Tests.antt =====
-- Sequences on a concrete world, in fixed point.
use generatorpi.Base.{eqb, ℤ, pos, ◌+◌, ◌*◌, ◌≤◌, ◌≡◌, refl, ◌⊎◌, true, false, none, some, [], ◌∷◌}
use generatorpi.Float.Fixed.{fixed}
use generatorpi.State.{initial, empty_rows, completed, stop_sent}
use generatorpi.Control.{
  World, Surroundings, start_generator, stop_generator, start_begun, stop_done, start_complete,
  started, stopped, busy, already_running, start_ok, stop_ok, record_event, relay_on, relay_off,
  sleep, and_then, press_button, begin_attempt, stamp_start, start_attempt, attempts, begin_start,
  start_locked, start_rejected_busy, start_rejected_running,
}
use generatorpi.Control.Safety.{start_generator_safe, stop_generator_safe}
use generatorpi.Control.Sequences.{
  start_generator_completes, stop_generator_completes, start_generator_refuses,
}

abbrev idle : World ℤ
idle = record {
  tracked = initial empty_rows;
  energized = false;
  relay_locked = false;
  presses = 0;
  events = [];
  notices = [];
  sleeps = 0;
  readings = 0;
}

abbrev quiet : Surroundings ℤ
quiet = record {
  raises = λ k. false;
  interferes = λ k s. s;
  clock = λ k. pos (k * 1000);
  writes = λ k. true;
}

-- The second press is interrupted while the button is held.
abbrev signalled : Surroundings ℤ
signalled = record quiet { raises = λ k. eqb k 3 }

interrupted_press :
    ((start_generator signalled 2 none idle).0 ≡ none)
    × ((start_generator signalled 2 none idle).1.presses ≡ 2)
unfolding start_generator start_locked begin_start attempts start_attempt begin_attempt stamp_start
    press_button relay_on relay_off sleep and_then record_event
interrupted_press = (refl, refl)

start_generator_safe_example :
    let w' = (start_generator signalled 2 none idle).1 in
    (w'.energized ≡ false) × (w'.relay_locked ≡ false) × (w'.presses ≤ 0 + 2 * 2)
start_generator_safe_example = start_generator_safe signalled 2 none idle refl

stop_generator_safe_example :
    let w' = (stop_generator quiet none idle).1 in
    (w'.energized ≡ false) × (w'.relay_locked ≡ false) × (w'.presses ≤ 0 + 1)
stop_generator_safe_example = stop_generator_safe quiet none idle refl

start_generator_completes_example :
    let (r, w') = start_generator quiet 2 (some "chris") idle in
    (r ≡ some start_ok)
    × (w'.presses ≡ 0 + 2 * 2)
    × (w'.tracked.generator.running ≡ true)
    × (w'.tracked.generator.message ≡ completed 2)
    × (w'.relay_locked ≡ false)
    × (w'.events
        ≡ record { kind = start_complete 2; actor = some "chris" }
          ∷ record { kind = start_begun; actor = some "chris" }
          ∷ [])
    × (w'.notices ≡ started ∷ [])
start_generator_completes_example =
    start_generator_completes quiet 2 (some "chris") idle (λ k. refl) refl refl

stop_generator_completes_example :
    let (r, w') = stop_generator quiet none idle in
    (r ≡ some stop_ok)
    × (w'.presses ≡ 0 + 1)
    × (w'.tracked.generator.running ≡ false)
    × (w'.tracked.generator.message ≡ stop_sent)
    × (w'.relay_locked ≡ false)
    × (w'.events ≡ record { kind = stop_done; actor = none } ∷ [])
    × (w'.notices ≡ stopped ∷ [])
stop_generator_completes_example = stop_generator_completes quiet none idle (λ k. refl) refl

abbrev busy_world : World ℤ
busy_world = record idle { relay_locked = true }

start_generator_refuses_example :
    let (r, w') = start_generator quiet 2 none busy_world in
    ((busy_world.relay_locked ≡ true)
      × (r ≡ some busy)
      × (w' ≡ record busy_world {
        events = record { kind = start_rejected_busy; actor = none } ∷ busy_world.events;
      }))
    ⊎ (((busy_world.relay_locked ≡ false)
          × (busy_world.tracked.generator.running ≡ true)
          × (r ≡ some already_running)
          × (w' ≡ record busy_world {
            events = record { kind = start_rejected_running; actor = none } ∷ busy_world.events;
          }))
        ⊎ ((busy_world.relay_locked ≡ false)
            × (busy_world.tracked.generator.running ≡ false)
            × ((r ≡ some start_ok) ⊎ (r ≡ none))))
start_generator_refuses_example = start_generator_refuses quiet 2 none busy_world
