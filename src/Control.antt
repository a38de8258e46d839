-- ===== src/Control.antt =====
-- The relay of genpi/relay.py, the sequences of genpi/control.py, and the routes /api/start, /api/stop
-- and /api/set_running of genpi/routes/core.py. A sequence runs from the request to its last exit; an
-- exception that a sleep raises (a signal at shutdown) leaves by the `finally` blocks.
pub mod Safety
pub mod Sequences
mod Tests
use generatorpi.Base.{
  ltb, if◌then◌else◌, ℕ, zero, suc, ◌+◌, String, Bool, true, false, not, Option, none, some, List,
  ◌∷◌,
}
use generatorpi.State.{
  State, apply_running_transition, start_cmd, stop_cmd, mark_run, mark_stop, attempting, completed,
  stop_sent, set_manually,
}
use generatorpi.Float.{Float}

-- The types of the durable events, with the numbers in their texts.
pub data EventKind : Type 0 where
  start_rejected_busy start_rejected_running start_begun stop_done : EventKind
  start_complete : ℕ → EventKind
  set_running : Bool → EventKind

pub record Event : Type 0 where
  pub kind : EventKind
  pub actor : Option String

pub data Notice : Type 0 where
  started stopped : Notice
  marked : Bool → Notice

-- The process, with the relay that it drives and what it wrote, newest first.
pub record World (F : Type 0) : Type 0 where
  pub tracked : State F
  pub energized : Bool
  pub relay_locked : Bool
  pub presses : ℕ
  pub events : List Event
  pub notices : List Notice
  pub sleeps : ℕ
  pub readings : ℕ

-- What the world does to a sequence: whether its n-th sleep raises, what the other threads do to the
-- tracked state while it sleeps, the n-th reading of the clock, and whether the database takes the
-- write that follows that reading.
pub record Surroundings (F : Type 0) : Type 0 where
  pub raises : ℕ → Bool
  pub interferes : ℕ → State F → State F
  pub clock : ℕ → F
  pub writes : ℕ → Bool

pub data Reply : Type 0 where
  busy already_running start_ok stop_ok : Reply

abbrev pub next_reading : {F : Type 0} → World F → World F
next_reading w = record w { readings = w.readings + 1 }

unfoldable pub record_event : {F : Type 0} → EventKind → Option String → World F → World F
record_event kind actor w = record w { events = record { kind = kind; actor = actor } ∷ w.events }

unfoldable pub send_push : {F : Type 0} → Notice → World F → World F
send_push notice w = record w { notices = notice ∷ w.notices }

module _ {F : Type 0} where
  -- `relay_start_stop.on()` and `.off()`
  unfoldable pub relay_on : World F → World F
  relay_on w = record w { energized = true; presses = w.presses + 1 }

  unfoldable pub relay_off : World F → World F
  relay_off w = record w { energized = false }

  -- `time.sleep`: whether it came back, or raised
  unfoldable pub sleep : Surroundings F → World F → Bool × World F
  sleep env w = (
    not (env.raises w.sleeps),
    record w { tracked = env.interferes w.sleeps w.tracked; sleeps = w.sleeps + 1 },
  )

  -- The statements after one that may have raised.
  unfoldable pub and_then : Bool × World F → (World F → Bool × World F) → Bool × World F
  and_then (true, w) f = f w
  and_then (false, w) f = (false, w)

  unfoldable pub press_button : Surroundings F → World F → Bool × World F
  unfolding relay_on relay_off sleep and_then
  press_button env w =
      let (fine, w') = sleep env (relay_on w) in and_then (fine, relay_off w') (sleep env)

  -- The assignments of one attempt, under `state_lock`.
  unfoldable pub begin_attempt : ℕ → ℕ → World F → World F
  begin_attempt attempt max_retries w = record w {
    tracked = record w.tracked {
      generator = record w.tracked.generator {
        start_attempts = attempt;
        message = attempting attempt max_retries;
      };
    };
  }

  unfoldable pub stamp_start : Surroundings F → World F → World F
  stamp_start env w = next_reading (record w {
    tracked = record w.tracked {
      generator = record w.tracked.generator { last_start_time = some (env.clock w.readings) };
    };
  })

  -- Prime, wait, start, stamp; then wait unless it was the last attempt.
  unfoldable pub start_attempt : Surroundings F → ℕ → ℕ → World F → Bool × World F
  unfolding begin_attempt press_button and_then stamp_start sleep
  start_attempt env attempt max_retries w =
      and_then (press_button env (begin_attempt attempt max_retries w)) (λ w1.
        and_then (sleep env w1) (λ w2. and_then (press_button env w2) (λ w3.
          if ltb attempt max_retries
          then sleep env (stamp_start env w3)
          else (true, stamp_start env w3))))

  -- `for attempt in range(1, max_retries + 1)`: `left` attempts are to come, the next is `attempt`.
  unfoldable pub attempts :
      Surroundings F → (left attempt max_retries : ℕ) → World F → Bool × World F
  unfolding start_attempt and_then
  attempts env zero attempt max_retries w = (true, w)
  attempts env (suc left) attempt max_retries w =
      and_then (start_attempt env attempt max_retries w)
        (attempts env left (attempt + 1) max_retries)

module _ {F : Type 0} ⦃n : Float F⦄ where
  unfoldable pub transition : Surroundings F → Bool → World F → World F
  transition env new_running w = next_reading (record w {
    tracked =
        apply_running_transition (env.clock w.readings) (env.writes w.readings) new_running
          w.tracked;
  })

  unfoldable pub finish_start : Surroundings F → ℕ → Option String → World F → World F
  unfolding transition record_event send_push
  finish_start env max_retries actor w =
      let w1 = transition env true w in
      let w2 = record w1 {
        tracked = record w1.tracked {
          generator = record w1.tracked.generator { message = completed max_retries };
        };
      } in
      send_push started (record_event (start_complete max_retries) actor w2)

  unfoldable pub begin_start : Option String → World F → World F
  unfolding record_event
  begin_start actor w = record_event start_begun actor (record w {
    tracked = record w.tracked {
      generator = record w.tracked.generator { last_command = some start_cmd; start_attempts = 0 };
    };
  })

  -- The body of the `try` of `start_generator`. `none` is an exception.
  unfoldable pub start_locked :
      Surroundings F → ℕ → Option String → World F → Option Reply × World F
  unfolding attempts begin_start finish_start record_event
  start_locked env max_retries actor w =
      let (fine, w') = attempts env max_retries 1 max_retries (begin_start actor w) in
      if w.tracked.generator.running
      then (some already_running, record_event start_rejected_running actor w)
      else if fine
      then (some start_ok, finish_start env max_retries actor w')
      else (none, w')

  unfoldable pub start_generator :
      Surroundings F → ℕ → Option String → World F → Option Reply × World F
  unfolding start_locked record_event
  start_generator env max_retries actor w =
      let (r, w') = start_locked env max_retries actor (record w { relay_locked = true }) in
      if w.relay_locked
      then (some busy, record_event start_rejected_busy actor w)
      else (r, record w' { relay_locked = false })

  unfoldable pub finish_stop : Surroundings F → Option String → World F → World F
  unfolding transition record_event send_push
  finish_stop env actor w =
      let w1 = transition env false (record w {
        tracked = record w.tracked {
          generator = record w.tracked.generator { last_command = some stop_cmd };
        };
      }) in
      let w2 = next_reading (record w1 {
        tracked = record w1.tracked {
          generator = record w1.tracked.generator {
            last_stop_time = some (env.clock w1.readings);
            message = stop_sent;
          };
        };
      }) in
      send_push stopped (record_event stop_done actor w2)

  unfoldable pub stop_generator : Surroundings F → Option String → World F → Option Reply × World F
  unfolding press_button finish_stop
  stop_generator env actor w =
      let (fine, w') = press_button env (record w { relay_locked = true }) in
      if w.relay_locked
      then (some busy, w)
      else if fine
      then (some stop_ok, record (finish_stop env actor w') { relay_locked = false })
      else (none, record w' { relay_locked = false })

  -- `api_set_running`, with the value of `running` already made a Boolean.
  unfoldable pub mark_running : Surroundings F → Bool → Option String → World F → World F
  unfolding transition record_event send_push
  mark_running env running actor w =
      let w1 = transition env running w in
      let g = w1.tracked.generator in
      let stamp = some (env.clock w1.readings) in
      let w2 = next_reading (record w1 {
        tracked = record w1.tracked {
          generator = record g {
            last_command = if running then some mark_run else some mark_stop;
            last_start_time = if running then stamp else g.last_start_time;
            last_stop_time = if running then g.last_stop_time else stamp;
            message = set_manually running;
          };
        };
      }) in
      send_push (marked running) (record_event (set_running running) actor w2)
