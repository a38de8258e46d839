-- ===== src/Control/Sequences.antt =====
-- What a sequence of genpi/control.py does when nothing interrupts it, and when it is refused.
use generatorpi.Base.{
  ltb, if◌then◌else◌, Bool-cases, if_true, if_false, ℕ, zero, suc, ◌+◌, ◌*◌, String, ◌≡◌, refl, sym,
  ap, ◌∙◌, subst, ◌⊎◌, inl, inr, Bool, true, false, Option, none, some, List, ◌∷◌, arith,
}
use generatorpi.Control.{
  World, Surroundings, press_button, start_begun, stop_done, start_complete, started, stopped, busy,
  already_running, start_ok, stop_ok, relay_on, relay_off, sleep, and_then, begin_attempt,
  stamp_start, start_attempt, attempts, transition, start_generator, stop_generator, record_event,
  send_push, finish_start, begin_start, start_locked, finish_stop, start_rejected_busy,
  start_rejected_running, Event, Reply,
}
use generatorpi.State.{apply_running_transition, save_total, completed, stop_sent, stop_cmd}
use generatorpi.Float.{Float}

module _ {F : Type 0} where
  -- A part of a sequence came back, pressed so often, and wrote nothing.
  pub IsDone : ℕ → World F → Bool × World F → Type 0
  IsDone k w (fine, w') =
      (fine ≡ true)
      × (w'.presses ≡ w.presses + k)
      × (w'.events ≡ w.events)
      × (w'.notices ≡ w.notices)

  then-IsDone :
      (j k : ℕ) (w : World F) (r : Bool × World F) (f : World F → Bool × World F)
      → IsDone j w r
      → IsDone k r.1 (f r.1)
      → IsDone (j + k) w (and_then r f)
  unfolding and_then IsDone
  then-IsDone j k w (true, w1) f (e, few, log, sent) (e', few', log', sent') =
      (e', few' ∙ ap (λ m. m + k) few ∙ omega arith, log' ∙ log, sent' ∙ sent)
  then-IsDone j k w (false, w1) f (e, _, _, _) next = absurd (ground arith)

  module _ (env : Surroundings F) (undisturbed : (k : ℕ) → env.raises k ≡ false) where
    sleep-IsDone : (w : World F) → IsDone 0 w (sleep env w)
    unfolding sleep IsDone
    sleep-IsDone w = (ground (arith, undisturbed w.sleeps), omega arith, refl, refl)

    press_button-IsDone : (w : World F) → IsDone 1 w (press_button env w)
    unfolding press_button relay_on relay_off sleep and_then IsDone
    press_button-IsDone w =
        rw (undisturbed w.sleeps, and_then)
          (ground (arith, undisturbed (w.sleeps + 1)), refl, refl, refl)

    end_attempt-IsDone :
        (attempt max_retries : ℕ) (w : World F)
        → let stamped = stamp_start env w in
          IsDone 0 w (if ltb attempt max_retries then sleep env stamped else (true, stamped))
    unfolding IsDone sleep stamp_start
    end_attempt-IsDone attempt max_retries w = elim (Bool-cases (ltb attempt max_retries)) [
      | inl e ↦ rw e (ground (arith, undisturbed w.sleeps), omega arith, refl, refl)
      | inr e ↦ rw e (refl, omega arith, refl, refl)
    ]

    start_attempt-IsDone :
        (attempt max_retries : ℕ) (w : World F)
        → IsDone 2 w (start_attempt env attempt max_retries w)
    unfolding start_attempt
    start_attempt-IsDone attempt max_retries w =
        let begun = begin_attempt attempt max_retries w in
        then-IsDone 1 1 w (press_button env begun) _
          (unfold IsDone begin_attempt in press_button-IsDone begun)
          (then-IsDone 0 1 _ (sleep env (press_button env begun).1) _ (sleep-IsDone _) (
            then-IsDone 1 0 _ (press_button env (sleep env (press_button env begun).1).1) _
              (press_button-IsDone _) (end_attempt-IsDone attempt max_retries _)))

    attempts-IsDone :
        (left attempt max_retries : ℕ) (w : World F)
        → IsDone (left * 2) w (attempts env left attempt max_retries w)
    unfolding attempts
    attempts-IsDone zero attempt max_retries w = unfold IsDone in (refl, omega arith, refl, refl)
    attempts-IsDone (suc left) attempt max_retries w =
        let twice : 2 + left * 2 ≡ suc left * 2 = omega arith in
        subst (λ k. IsDone k w (attempts env (suc left) attempt max_retries w)) twice
          (then-IsDone 2 (left * 2) w (start_attempt env attempt max_retries w) _
            (start_attempt-IsDone attempt max_retries w)
            (attempts-IsDone left (attempt + 1) max_retries _))

module _ {F : Type 0} ⦃n : Float F⦄ where
  transition_running :
      (env : Surroundings F) (b : Bool) (w : World F)
      → (transition env b w).tracked.generator.running ≡ b
  unfolding transition apply_running_transition save_total
  transition_running env b w = ground arith

  finish_start_lem :
      (env : Surroundings F) (max_retries : ℕ) (actor : Option String) (w : World F)
      → let w' = finish_start env max_retries actor w in
        (w'.presses ≡ w.presses)
        × (w'.tracked.generator.running ≡ true)
        × (w'.tracked.generator.message ≡ completed max_retries)
        × (w'.events ≡ record { kind = start_complete max_retries; actor = actor } ∷ w.events)
        × (w'.notices ≡ started ∷ w.notices)
  unfolding finish_start record_event send_push
  finish_start_lem env max_retries actor w = (refl, transition_running env true w, refl, refl, refl)

  finish_stop_lem :
      (env : Surroundings F) (actor : Option String) (w : World F)
      → let w' = finish_stop env actor w in
        (w'.presses ≡ w.presses)
        × (w'.tracked.generator.running ≡ false)
        × (w'.tracked.generator.message ≡ stop_sent)
        × (w'.events ≡ record { kind = stop_done; actor = actor } ∷ w.events)
        × (w'.notices ≡ stopped ∷ w.notices)
  unfolding finish_stop record_event send_push
  finish_stop_lem env actor w =
      let commanded : World F = record w {
        tracked = record w.tracked {
          generator = record w.tracked.generator { last_command = some stop_cmd };
        };
      } in
      (refl, transition_running env false commanded, refl, refl, refl)

  start_locked_done :
      (env : Surroundings F) (max_retries : ℕ) (actor : Option String) (w : World F)
      → w.tracked.generator.running ≡ false
      → let (fine, w') = attempts env max_retries 1 max_retries (begin_start actor w) in
        fine ≡ true
        → start_locked env max_retries actor w
          ≡ (some start_ok, finish_start env max_retries actor w')
  unfolding start_locked
  start_locked_done env max_retries actor w still fine =
      if_false w.tracked.generator.running _ _ still
      ∙ if_true (attempts env max_retries 1 max_retries (begin_start actor w)).0 _ _ fine

  start_generator_done :
      (env : Surroundings F) (max_retries : ℕ) (actor : Option String) (w : World F)
      → w.relay_locked ≡ false
      → w.tracked.generator.running ≡ false
      → let held : World F = record w { relay_locked = true } in
        let (fine, w') = attempts env max_retries 1 max_retries (begin_start actor held) in
        fine ≡ true
        → start_generator env max_retries actor w
          ≡ (some start_ok, record (finish_start env max_retries actor w') { relay_locked = false })
  unfolding start_generator
  start_generator_done env max_retries actor w free still fine =
      if_false w.relay_locked _ _ free
      ∙ ap (λ p. (p.0, record p.1 { relay_locked = false }))
          (start_locked_done env max_retries actor (record w { relay_locked = true }) still fine)

  stop_generator_done :
      (env : Surroundings F) (actor : Option String) (w : World F)
      → w.relay_locked ≡ false
      → let held : World F = record w { relay_locked = true } in
        let (fine, w') = press_button env held in
        fine ≡ true
        → stop_generator env actor w
          ≡ (some stop_ok, record (finish_stop env actor w') { relay_locked = false })
  unfolding stop_generator
  stop_generator_done env actor w free fine =
      if_false w.relay_locked _ _ free
      ∙ if_true (press_button env (record w { relay_locked = true })).0 _ _ fine

  -- A start sequence that no sleep interrupts, from a free lock and a generator that counts as
  -- stopped: it reports success, has pressed exactly twice per configured attempt, leaves the
  -- generator counted as running and the lock free, and wrote the two events and the notice, in this
  -- order, whatever other threads did to the tracked state meanwhile.
  pub start_generator_completes :
      (env : Surroundings F) (max_retries : ℕ) (actor : Option String) (w : World F)
      → ((k : ℕ) → env.raises k ≡ false)
      → w.relay_locked ≡ false
      → w.tracked.generator.running ≡ false
      → let (r, w') = start_generator env max_retries actor w in
        (r ≡ some start_ok)
        × (w'.presses ≡ w.presses + max_retries * 2)
        × (w'.tracked.generator.running ≡ true)
        × (w'.tracked.generator.message ≡ completed max_retries)
        × (w'.relay_locked ≡ false)
        × (w'.events
            ≡ record { kind = start_complete max_retries; actor = actor }
              ∷ record { kind = start_begun; actor = actor }
              ∷ w.events)
        × (w'.notices ≡ started ∷ w.notices)
  unfolding IsDone begin_start record_event
  start_generator_completes env max_retries actor w undisturbed free still =
      let begun = begin_start actor (record w { relay_locked = true }) in
      let w1 = (attempts env max_retries 1 max_retries begun).1 in
      let (fine, few, log, sent) =
        attempts-IsDone env undisturbed max_retries 1 max_retries begun in
      let (kept, runs, message, log', sent') = finish_start_lem env max_retries actor w1 in
      let done : Event = record { kind = start_complete max_retries; actor = actor } in
      rw (start_generator_done env max_retries actor w free still fine) (
        refl,
        kept ∙ few,
        runs,
        message,
        refl,
        log' ∙ ap (λ es. done ∷ es) log,
        sent' ∙ ap (λ ns. started ∷ ns) sent,
      )

  -- A stop that no sleep interrupts, from a free lock: it reports success, has pressed exactly once,
  -- leaves the generator counted as stopped and the lock free, and wrote its event and its notice,
  -- whatever other threads did to the tracked state meanwhile.
  pub stop_generator_completes :
      (env : Surroundings F) (actor : Option String) (w : World F)
      → ((k : ℕ) → env.raises k ≡ false)
      → w.relay_locked ≡ false
      → let (r, w') = stop_generator env actor w in
        (r ≡ some stop_ok)
        × (w'.presses ≡ w.presses + 1)
        × (w'.tracked.generator.running ≡ false)
        × (w'.tracked.generator.message ≡ stop_sent)
        × (w'.relay_locked ≡ false)
        × (w'.events ≡ record { kind = stop_done; actor = actor } ∷ w.events)
        × (w'.notices ≡ stopped ∷ w.notices)
  unfolding IsDone
  stop_generator_completes env actor w undisturbed free =
      let held : World F = record w { relay_locked = true } in
      let (fine, few, log, sent) = press_button-IsDone env undisturbed held in
      let (kept, stops, message, log', sent') =
        finish_stop_lem env actor (press_button env held).1 in
      let done : Event = record { kind = stop_done; actor = actor } in
      rw (stop_generator_done env actor w free fine) (
        refl,
        kept ∙ few,
        stops,
        message,
        refl,
        log' ∙ ap (λ es. done ∷ es) log,
        sent' ∙ ap (λ ns. stopped ∷ ns) sent,
      )

  start_generator_running :
      (env : Surroundings F) (max_retries : ℕ) (actor : Option String) (w : World F)
      → w.relay_locked ≡ false
      → w.tracked.generator.running ≡ true
      → start_generator env max_retries actor w ≡ (
        some already_running,
        record (record_event start_rejected_running actor w) { relay_locked = false },
      )
  unfolding start_generator start_locked record_event
  start_generator_running env max_retries actor w free runs =
      if_false w.relay_locked _ _ free
      ∙ ap {A = Option Reply × World F} (λ p. (p.0, record p.1 { relay_locked = false }))
          (if_true w.tracked.generator.running _ _ runs)

  lock_kept :
      (w : World F) (events : List Event)
      → w.relay_locked ≡ false
      → record w { events = events; relay_locked = false } ≡ record w { events = events }
  lock_kept w events free =
      let back : record w { events = events } ≡ record w { events = events; relay_locked = false } =
        ap (λ b. record w { events = events; relay_locked = b }) free in
      sym back

  start_generator_stands :
      (env : Surroundings F) (max_retries : ℕ) (actor : Option String) (w : World F)
      → w.relay_locked ≡ false
      → w.tracked.generator.running ≡ false
      → ((start_generator env max_retries actor w).0 ≡ some start_ok)
        ⊎ ((start_generator env max_retries actor w).0 ≡ none)
  unfolding start_generator start_locked
  start_generator_stands env max_retries actor w free stands = ground arith

  -- A start is refused, which its reply tells, exactly if a sequence holds the lock or, on a free lock, the
  -- generator counts as running; the reply and the one event that tells of it say which of the two it was.
  -- Nothing else changes then: no press, no notice, the tracked state, the relay and the lock as they were.
  -- Any other start answers that it succeeded, or ends in an exception.
  pub start_generator_refuses :
      (env : Surroundings F) (max_retries : ℕ) (actor : Option String) (w : World F)
      → let (r, w') = start_generator env max_retries actor w in
        ((w.relay_locked ≡ true)
          × (r ≡ some busy)
          × (w' ≡ record w {
            events = record { kind = start_rejected_busy; actor = actor } ∷ w.events;
          }))
        ⊎ (((w.relay_locked ≡ false)
              × (w.tracked.generator.running ≡ true)
              × (r ≡ some already_running)
              × (w' ≡ record w {
                events = record { kind = start_rejected_running; actor = actor } ∷ w.events;
              }))
            ⊎ ((w.relay_locked ≡ false)
                × (w.tracked.generator.running ≡ false)
                × ((r ≡ some start_ok) ⊎ (r ≡ none))))
  unfolding start_generator start_locked record_event
  start_generator_refuses env max_retries actor w = elim (Bool-cases w.relay_locked) [
    | inl held ↦ rw (if_true w.relay_locked _ _ held) (inl (held, refl, refl))
    | inr free ↦ elim (Bool-cases w.tracked.generator.running) [
      | inl runs ↦
          rw (start_generator_running env max_retries actor w free runs)
            (inr (inl (free, runs, refl, lock_kept w _ free)))
      | inr stands ↦
          inr (inr (free, stands, start_generator_stands env max_retries actor w free stands))
    ]
  ]
