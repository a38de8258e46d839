-- ===== src/Control/Safety.antt =====
-- The relay after every exit of a sequence of genpi/control.py, exceptions included.
use generatorpi.Base.{
  ltb, if◌then◌else◌, Bool-cases, if_either, ℕ, zero, suc, ◌+◌, ◌*◌, ◌≤◌, String, ◌≡◌, refl, ◌∙◌,
  subst, inl, inr, Bool, true, false, Option, none, some, arith,
}
use generatorpi.Control.{
  World, Surroundings, press_button, relay_on, relay_off, sleep, and_then, begin_attempt,
  stamp_start, start_attempt, attempts, record_event, send_push, transition, finish_start,
  start_locked, start_generator, finish_stop, stop_generator, start_rejected_running,
  already_running, start_ok, begin_start, EventKind, Reply,
}
use generatorpi.Float.{Float}

module _ {F : Type 0} where
  -- A part of a sequence that starts with the relay off leaves it off, does not touch the lock, and
  -- presses at most so often.
  pub IsSafe : ℕ → World F → World F → Type 0
  IsSafe k w w' =
      (w'.energized ≡ false) × (w'.relay_locked ≡ w.relay_locked) × (w'.presses ≤ w.presses + k)

  then-IsSafe :
      (j k : ℕ) (w : World F) (r : Bool × World F) (f : World F → Bool × World F)
      → IsSafe j w r.1
      → ((w1 : World F) → w1.energized ≡ false → IsSafe k w1 (f w1).1)
      → IsSafe (j + k) w (and_then r f).1
  unfolding and_then IsSafe
  then-IsSafe j k w (true, w1) f (off, lock, few) next =
      let (off', lock', few') = next w1 off in (off', lock' ∙ lock, omega arith)
  then-IsSafe j k w (false, w1) f (off, lock, few) next = (off, lock, omega arith)

  press_button-IsSafe : (env : Surroundings F) (w : World F) → IsSafe 1 w (press_button env w).1
  unfolding press_button relay_on relay_off sleep and_then IsSafe
  press_button-IsSafe env w = elim (Bool-cases (env.raises w.sleeps)) [
    | inl e ↦ rw (e, and_then) (refl, refl, omega arith)
    | inr e ↦ rw (e, and_then) (refl, refl, omega arith)
  ]

  sleep-IsSafe :
      (env : Surroundings F) (w : World F) → w.energized ≡ false → IsSafe 0 w (sleep env w).1
  unfolding sleep IsSafe
  sleep-IsSafe env w off = (off, refl, omega arith)

  end_attempt-IsSafe :
      (env : Surroundings F) (attempt max_retries : ℕ) (w : World F)
      → w.energized ≡ false
      → let stamped = stamp_start env w in
        IsSafe 0 w (if ltb attempt max_retries then sleep env stamped else (true, stamped)).1
  unfolding IsSafe sleep stamp_start
  end_attempt-IsSafe env attempt max_retries w off = elim (Bool-cases (ltb attempt max_retries)) [
    | inl e ↦ rw e (off, refl, omega arith)
    | inr e ↦ rw e (off, refl, omega arith)
  ]

  start_attempt-IsSafe :
      (env : Surroundings F) (attempt max_retries : ℕ) (w : World F)
      → IsSafe 2 w (start_attempt env attempt max_retries w).1
  unfolding start_attempt
  start_attempt-IsSafe env attempt max_retries w =
      then-IsSafe 1 1 w (press_button env (begin_attempt attempt max_retries w)) _
        (unfold IsSafe begin_attempt in
          press_button-IsSafe env (begin_attempt attempt max_retries w))
        (λ w1 off1. then-IsSafe 0 1 w1 (sleep env w1) _ (sleep-IsSafe env w1 off1) (λ w2 off2.
          then-IsSafe 1 0 w2 (press_button env w2) _ (press_button-IsSafe env w2)
            (end_attempt-IsSafe env attempt max_retries)))

  attempts-IsSafe :
      (env : Surroundings F) (left attempt max_retries : ℕ) (w : World F)
      → w.energized ≡ false
      → IsSafe (left * 2) w (attempts env left attempt max_retries w).1
  unfolding attempts
  attempts-IsSafe env zero attempt max_retries w off = unfold IsSafe in (off, refl, omega arith)
  attempts-IsSafe env (suc left) attempt max_retries w off =
      let twice : 2 + left * 2 ≡ suc left * 2 = omega arith in
      subst (λ k. IsSafe k w (attempts env (suc left) attempt max_retries w).1) twice
        (then-IsSafe 2 (left * 2) w (start_attempt env attempt max_retries w) _
          (start_attempt-IsSafe env attempt max_retries w)
          (attempts-IsSafe env left (attempt + 1) max_retries))

module _ {F : Type 0} ⦃n : Float F⦄ where
  refused-IsSafe :
      (kind : EventKind) (actor : Option String) (k : ℕ) (w : World F)
      → w.energized ≡ false
      → IsSafe k w (record_event kind actor w)
  unfolding IsSafe record_event
  refused-IsSafe kind actor k w off = (off, refl, omega arith)

  begin_start-IsSafe :
      (actor : Option String) (k : ℕ) (w w' : World F)
      → IsSafe k (begin_start actor w) w'
      → IsSafe k w w'
  unfolding IsSafe begin_start record_event
  begin_start-IsSafe actor k w w' h = h

  finish_start-IsSafe :
      (env : Surroundings F) (max_retries : ℕ) (actor : Option String) (k : ℕ) (w w' : World F)
      → IsSafe k w w'
      → IsSafe k w (finish_start env max_retries actor w')
  unfolding IsSafe finish_start transition record_event send_push
  finish_start-IsSafe env max_retries actor k w w' h = h

  start_locked-IsSafe :
      (env : Surroundings F) (max_retries : ℕ) (actor : Option String) (w : World F)
      → w.energized ≡ false
      → IsSafe (max_retries * 2) w (start_locked env max_retries actor w).1
  unfolding start_locked
  start_locked-IsSafe env max_retries actor w off =
      let (fine, w') = attempts env max_retries 1 max_retries (begin_start actor w) in
      let safe : IsSafe (max_retries * 2) w w' = begin_start-IsSafe actor (max_retries * 2) w w' (
        attempts-IsSafe env max_retries 1 max_retries (begin_start actor w)
          (unfold begin_start record_event in off)) in
      if_either {A = Option Reply × World F} (λ r. IsSafe (max_retries * 2) w r.1)
        w.tracked.generator.running
        {x = (some already_running, record_event start_rejected_running actor w)}
        (refused-IsSafe start_rejected_running actor (max_retries * 2) w off)
        (if_either {A = Option Reply × World F} (λ r. IsSafe (max_retries * 2) w r.1) fine
          {x = (some start_ok, finish_start env max_retries actor w')} {y = (none, w')}
          (finish_start-IsSafe env max_retries actor (max_retries * 2) w w' safe) safe)

  -- However a start sequence ends, by its reply or by an exception in any of its sleeps, and whatever
  -- other threads do meanwhile: the relay is off, the lock is as it was found, and the button was
  -- pressed at most twice per configured attempt. The condition is that the relay is off before.
  pub start_generator_safe :
      (env : Surroundings F) (max_retries : ℕ) (actor : Option String) (w : World F)
      → w.energized ≡ false
      → let w' = (start_generator env max_retries actor w).1 in
        (w'.energized ≡ false)
        × (w'.relay_locked ≡ w.relay_locked)
        × (w'.presses ≤ w.presses + max_retries * 2)
  unfolding start_generator record_event IsSafe
  start_generator_safe env max_retries actor w off =
      let (off', lock', few') =
        start_locked-IsSafe env max_retries actor (record w { relay_locked = true }) off in
      elim (Bool-cases w.relay_locked) [
        | inl e ↦ rw e (off, refl, omega arith)
        | inr e ↦ rw e (off', refl, few')
      ]

  -- However a stop ends, by its reply or by an exception in any of its sleeps, and whatever other threads
  -- do meanwhile: the relay is off, the lock is as it was found, and the button was pressed at most
  -- once. The condition is that the relay is off before.
  pub stop_generator_safe :
      (env : Surroundings F) (actor : Option String) (w : World F)
      → w.energized ≡ false
      → let w' = (stop_generator env actor w).1 in
        (w'.energized ≡ false) × (w'.relay_locked ≡ w.relay_locked) × (w'.presses ≤ w.presses + 1)
  unfolding stop_generator finish_stop transition record_event send_push IsSafe
  stop_generator_safe env actor w off =
      let held = record w { relay_locked = true } in
      let (off', lock', few') = press_button-IsSafe env held in
      elim (Bool-cases w.relay_locked) [
        | inl e ↦ rw e (off, refl, omega arith)
        | inr e ↦ rw e (elim (Bool-cases (press_button env held).0) [
          | inl fine ↦ rw fine (off', refl, few')
          | inr raised ↦ rw raised (off', refl, few')
        ])
      ]
