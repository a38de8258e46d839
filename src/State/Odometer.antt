-- ===== src/State/Odometer.antt =====
-- The lifetime odometer: what start, stop and the manual correction do to the live total.
use generatorpi.Base.{
  if◌then◌else◌, is_some, Bool-cases, ◌≡◌, refl, ap, ◌∙◌, inl, inr, Bool, true, false, Option, none,
  some, arith,
}
use generatorpi.Float.{Float}
use generatorpi.Float.Laws.{
  fmax, zero_f, le-fmax_left, fmax_self, le-add_nonneg, clamp_bounds, round_bounds, clamp,
  fmax_eq_right, sub_nonneg, fmax_mono,
}
use generatorpi.State.{
  State, Generator, save_total, elapsed_hours, elapsed_since, live_total_run_hours,
  apply_running_transition, number, saved_fuel, save_fuel, run_since_fill, quantized_hours,
  set_total_run_hours,
}

-- What every operation keeps: a run is in progress exactly while a start is stamped, and no count of
-- hours is negative.
module _ {F : Type 0} ⦃n : Float F⦄ where
  open n use {decimal, add, sub, div, le, round}

  pub record IsClocked (s : State F) : Type 0 where
    pub stamped : is_some s.generator.current_run_started_at ≡ s.generator.running
    pub total_nonneg : le zero_f s.generator.total_run_hours ≡ true
    pub fill_nonneg : le zero_f s.fuel.fill_run_hours ≡ true

  elapsed_hours_nonneg : (now started : F) → le zero_f (elapsed_hours now started) ≡ true
  unfolding elapsed_hours
  elapsed_hours_nonneg now started = le-fmax_left zero_f (div (sub now started) (decimal 3600 0))

  elapsed_hours_self : (now : F) → elapsed_hours now now ≡ zero_f
  unfolding elapsed_hours
  elapsed_hours_self now = rw (n.sub_self now) (rw (n.zero_div 3599) (fmax_self zero_f))

  elapsed_hours_mono :
      (now now' started : F)
      → le now now' ≡ true
      → le (elapsed_hours now started) (elapsed_hours now' started) ≡ true
  unfolding elapsed_hours
  elapsed_hours_mono now now' started h =
      fmax_mono {F = F} zero_f _ _ (n.div_mono _ _ 3599 (n.sub_mono now now' started h))

  -- The live total never runs backwards.
  pub live_total_run_hours_mono :
      (now now' : F) (g : Generator F)
      → le now now' ≡ true
      → le (live_total_run_hours now g) (live_total_run_hours now' g) ≡ true
  unfolding live_total_run_hours
  live_total_run_hours_mono now now' g h = elim (Bool-cases g.running) [
    | inl run ↦ rw run (by_start g.current_run_started_at)
    | inr stopped ↦ rw stopped (n.le_refl g.total_run_hours)
  ]
    where
      by_start :
          (o : Option F)
          → le (elapsed_since now o g.total_run_hours) (elapsed_since now' o g.total_run_hours)
            ≡ true
      by_start none = n.le_refl g.total_run_hours
      by_start (some started) =
          n.add_mono g.total_run_hours g.total_run_hours (elapsed_hours now started)
            (elapsed_hours now' started) (n.le_refl g.total_run_hours)
            (elapsed_hours_mono now now' started h)

  pub elapsed_since_nonneg :
      (now base : F) (o : Option F)
      → le zero_f base ≡ true
      → le zero_f (elapsed_since now o base) ≡ true
  elapsed_since_nonneg now base none h = h
  elapsed_since_nonneg now base (some started) h =
      n.le_trans zero_f base _ h (le-add_nonneg base _ (elapsed_hours_nonneg now started))

  -- A start or a stop never changes what the odometer reads at that moment, whether or not the state
  -- changes: a start begins at 0 hours, a stop banks the whole run, and repeating either counts
  -- nothing twice. The condition is that a run is in progress exactly while a start is stamped,
  -- and that no count of hours is negative.
  pub apply_running_transition_reads :
      (now : F) (ok new_running : Bool) (s : State F)
      → IsClocked s
      → live_total_run_hours now (apply_running_transition now ok new_running s).generator
        ≡ live_total_run_hours now s.generator
  unfolding live_total_run_hours apply_running_transition save_total
  apply_running_transition_reads now ok new_running s v =
      ground (arith, n.add_zero s.generator.total_run_hours, elapsed_hours_self now)

  pub apply_running_transition-IsClocked :
      (now : F) (ok new_running : Bool) (s : State F)
      → IsClocked s
      → IsClocked (apply_running_transition now ok new_running s)
  unfolding apply_running_transition save_total
  apply_running_transition-IsClocked now ok new_running s v = ground (
    arith,
    elapsed_since_nonneg now s.generator.total_run_hours s.generator.current_run_started_at,
  )

  -- The clamped and rounded entry of the operator.
  quantized_hours_bounds :
      (hours : F)
      → (le zero_f (quantized_hours hours) ≡ true)
        × (le (quantized_hours hours) (decimal 1000000 0) ≡ true)
  unfolding quantized_hours
  quantized_hours_bounds hours =
      let ends = n.decimal_mono 0 1000000 0 (omega arith) (omega arith) in
      let (low, high) = clamp_bounds zero_f (decimal 1000000 0) hours ends in
      round_bounds 3 0 1000000 0 (clamp zero_f (decimal 1000000 0) hours) (omega arith)
        (omega arith) low high

  live_at_start :
      (now' h : F) (g : Generator F) (at : Option F)
      → at ≡ (if g.running then some now' else g.current_run_started_at)
      → live_total_run_hours now' (record g { total_run_hours = h; current_run_started_at = at })
        ≡ h
  unfolding live_total_run_hours
  live_at_start now' h g at stamp = ground (arith, n.add_zero h, elapsed_hours_self now')

  -- The entry as an operator would describe it: cut off at either end, then rounded to three places.
  abbrev pub entered : F → F
  entered hours =
      let most = decimal 1000000 0 in
      round 3 (if le hours zero_f then zero_f else if le most hours then most else hours)

  cut_off :
      (hours : F)
      → clamp zero_f (decimal 1000000 0) hours ≡ (
          if le hours zero_f
          then zero_f
          else if le (decimal 1000000 0) hours
          then decimal 1000000 0
          else hours)
  cut_off hours =
      let most = decimal 1000000 0 in
      ground (
        arith,
        n.decimal_mono 0 1000000 0 (omega arith) (omega arith),
        n.le_trans most hours zero_f,
        n.le_antisymm zero_f most,
      )

  quantized_hours-entered : (hours : F) → quantized_hours hours ≡ entered hours
  unfolding quantized_hours
  quantized_hours-entered hours = ap (round 3) (cut_off hours)

  -- The manual correction: it reports the live total that it replaces and the entry, cut off at 0 and
  -- at 1000000 and rounded to three places; the odometer reads exactly that entry when it returns, in a run as well;
  -- the run state stays; and each row holds the new value if the database takes its write.
  pub set_total_run_hours_reads :
      (now now' hours : F) (ok ok' : Bool) (s : State F)
      → let ((old, h), s') = set_total_run_hours now now' ok ok' hours s in
        (old ≡ live_total_run_hours now s.generator)
        × (h ≡ entered hours)
        × (live_total_run_hours now' s'.generator ≡ h)
        × (le zero_f h ≡ true)
        × (le h (decimal 1000000 0) ≡ true)
        × (s'.generator.running ≡ s.generator.running)
        × (s'.rows.total_row ≡ (if ok then some (number h) else s.rows.total_row))
        × (s'.rows.fuel_row ≡ (if ok' then some (saved_fuel s'.fuel) else s.rows.fuel_row))
  unfolding set_total_run_hours save_total save_fuel
  set_total_run_hours_reads now now' hours true true s = (
    refl,
    quantized_hours-entered hours,
    live_at_start now' _ s.generator _ refl,
    (quantized_hours_bounds hours).0,
    (quantized_hours_bounds hours).1,
    refl,
    refl,
    refl,
  )
  set_total_run_hours_reads now now' hours true false s = (
    refl,
    quantized_hours-entered hours,
    live_at_start now' _ s.generator _ refl,
    (quantized_hours_bounds hours).0,
    (quantized_hours_bounds hours).1,
    refl,
    refl,
    refl,
  )
  set_total_run_hours_reads now now' hours false true s = (
    refl,
    quantized_hours-entered hours,
    live_at_start now' _ s.generator _ refl,
    (quantized_hours_bounds hours).0,
    (quantized_hours_bounds hours).1,
    refl,
    refl,
    refl,
  )
  set_total_run_hours_reads now now' hours false false s = (
    refl,
    quantized_hours-entered hours,
    live_at_start now' _ s.generator _ refl,
    (quantized_hours_bounds hours).0,
    (quantized_hours_bounds hours).1,
    refl,
    refl,
    refl,
  )

  pub set_total_run_hours-IsClocked :
      (now now' hours : F) (ok ok' : Bool) (s : State F)
      → IsClocked s
      → IsClocked (set_total_run_hours now now' ok ok' hours s).1
  unfolding set_total_run_hours save_total save_fuel
  set_total_run_hours-IsClocked now now' hours ok ok' s v = ground (
    arith,
    quantized_hours_bounds hours,
    le-fmax_left zero_f (sub (quantized_hours hours) (run_since_fill now s)),
  )

  fill_after :
      (now now' hours : F) (ok ok' : Bool) (s : State F)
      → (set_total_run_hours now now' ok ok' hours s).1.fuel.fill_run_hours
        ≡ fmax zero_f (sub (quantized_hours hours) (run_since_fill now s))
  unfolding set_total_run_hours save_total save_fuel
  fill_after now now' hours ok ok' s = ground arith

  live_after :
      (now now' hours : F) (ok ok' : Bool) (s : State F)
      → live_total_run_hours now' (set_total_run_hours now now' ok ok' hours s).1.generator
        ≡ quantized_hours hours
  unfolding set_total_run_hours save_total save_fuel
  live_after now now' hours true true s = live_at_start now' _ s.generator _ refl
  live_after now now' hours true false s = live_at_start now' _ s.generator _ refl
  live_after now now' hours false true s = live_at_start now' _ s.generator _ refl
  live_after now now' hours false false s = live_at_start now' _ s.generator _ refl

  gauge :
      (now h fill : F) (s : State F)
      → live_total_run_hours now s.generator ≡ h
      → s.fuel.fill_run_hours ≡ fill
      → run_since_fill now s ≡ fmax zero_f (sub h fill)
  unfolding run_since_fill
  gauge now h fill s live mark = cc

  run_since_fill_nonneg : (now : F) (s : State F) → le zero_f (run_since_fill now s) ≡ true
  unfolding run_since_fill
  run_since_fill_nonneg now s =
      le-fmax_left zero_f (sub (live_total_run_hours now s.generator) s.fuel.fill_run_hours)

  -- The fuel gauge does not move with a manual correction: the hours run since the fill are the same
  -- after it as before it, if the entry is at least that many hours and the floats subtract exactly
  -- there.
  pub set_total_run_hours_keeps_gauge :
      (now now' hours : F) (ok ok' : Bool) (s : State F)
      → let h = quantized_hours hours in
        let since = run_since_fill now s in
        le since h ≡ true
        → sub h (sub h since) ≡ since
        → run_since_fill now' (set_total_run_hours now now' ok ok' hours s).1 ≡ since
  set_total_run_hours_keeps_gauge now now' hours ok ok' s fits exact =
      let h : F = quantized_hours hours in
      let since : F = run_since_fill now s in
      let moved : fmax zero_f (sub h since) ≡ sub h since =
        fmax_eq_right zero_f (sub h since) (sub_nonneg h since fits) in
      gauge now' h _ _ (live_after now now' hours ok ok' s) (fill_after now now' hours ok ok' s)
      ∙ ap (λ x. fmax zero_f (sub h x)) moved
      ∙ ap (fmax zero_f) exact
      ∙ fmax_eq_right zero_f since (run_since_fill_nonneg now s)
