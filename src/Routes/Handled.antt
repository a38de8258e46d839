-- ===== src/Routes/Handled.antt =====
-- What a request to the fuel and odometer routes can do to the tracked state.
use generatorpi.Base.{
  Option-cases, String, ◌≡◌, refl, sym, subst, ◌⊎◌, inl, inr, Bool, true, false, Option, none, some,
  arith, string_key,
}
use generatorpi.State.{State}
use generatorpi.Tracked.{Op, step}
use generatorpi.Routes.{
  Route, Call, Reply, handle, handle_number, Parsed, Reading, refused, accepted, fuel_reading,
  fuel_rate, fuel_rate_reset, fuel_fill, runtime_hours, bad_request, field, bool_field,
  threshold_field, api_alerts, Value, raised, alert_settings, server_error,
}
use generatorpi.Float.{Float}
use generatorpi.Tracked.Ranges.{IsTracked, step-IsTracked}

module _ {F : Type 0} ⦃n : Float F⦄ where
  -- 400 and 500
  unfoldable pub is_refused : Reply F → Bool
  is_refused (bad_request r) = true
  is_refused server_error = true
  is_refused _ = false

  -- A request was refused and changed nothing, or was a step of the tracked state.
  pub IsHandled : State F → Reply F × State F → Type 0
  IsHandled s (r, s') =
      ((is_refused r ≡ true) × (s' ≡ s))
      ⊎ ((is_refused r ≡ false) × ((op : Op F) × (s' ≡ (step op s).1)))

  set_hours-IsHandled :
      (c : Call F) (x : F) (s : State F) → IsHandled s (handle_number runtime_hours c x s)
  unfolding IsHandled handle_number step is_refused
  set_hours-IsHandled c x s = inr (refl, (Op.hours c.now.0 c.now.1 c.writes.0 c.writes.1 x, refl))

  handle_number-IsHandled :
      (route : Route) (c : Call F) (x : F) (s : State F) → IsHandled s (handle_number route c x s)
  unfolding IsHandled handle_number step is_refused
  handle_number-IsHandled fuel_reading c x s = inr (refl, (Op.reading c.now.0 c.writes.0 x, refl))
  handle_number-IsHandled fuel_rate c x s = inr (refl, (Op.rate c.writes.0 x, refl))
  handle_number-IsHandled fuel_fill c x s = inr (refl, (Op.fill c.now.0 c.writes.0 x, refl))
  handle_number-IsHandled fuel_rate_reset c x s = set_hours-IsHandled c x s
  handle_number-IsHandled alert_settings c x s = set_hours-IsHandled c x s
  handle_number-IsHandled runtime_hours c x s = set_hours-IsHandled c x s

  read-IsHandled :
      (route : Route) (c : Call F) (s : State F) (r : Reading F)
      → IsHandled s (elim r [
        | refused q ↦ (bad_request q, s)
        | raised ↦ (server_error, s)
        | accepted x ↦ handle_number route c x s
      ])
  read-IsHandled route c s (refused q) = unfold IsHandled is_refused in inl (refl, refl)
  read-IsHandled route c s raised = unfold IsHandled is_refused in inl (refl, refl)
  read-IsHandled route c s (accepted x) = handle_number-IsHandled route c x s

  -- A reply that the threshold gave is a refusal.
  threshold_field_refuses :
      (parse : String → Option (Parsed F)) (v : Option (Value F)) (r : Reply F)
      → (threshold_field parse v).0 ≡ some r
      → is_refused r ≡ true
  unfolding threshold_field is_refused
  threshold_field_refuses parse none r q = absurd (ground arith)
  threshold_field_refuses parse (some v) r q = ground arith

  api_alerts-IsHandled :
      (parse : String → Option (Parsed F)) (says_on : String → Bool) (c : Call F) (s : State F)
      → IsHandled s (api_alerts parse says_on c s)
  unfolding IsHandled api_alerts step is_refused
  api_alerts-IsHandled parse says_on c s =
      let value = field "threshold" c.body in
      let (refusal, threshold) = threshold_field parse value in
      let on = bool_field says_on (field "enabled" c.body) in
      let enabled = bool_field says_on (field "fuel_enabled" c.body) in
      elim (Option-cases refusal) [
        | inl q ↦
            rw (q, api_alerts, is_refused)
              (inr (refl, (Op.alerts c.writes.0 on threshold enabled, refl)))
        | inr (r, q) ↦ rw (q, api_alerts) (inl (threshold_field_refuses parse value r q, refl))
      ]

  handle-IsHandled :
      (parse : String → Option (Parsed F)) (says_on : String → Bool) (route : Route) (c : Call F)
      (s : State F)
      → IsHandled s (handle parse says_on route c s)
  unfolding handle
  handle-IsHandled parse says_on fuel_reading c s = read-IsHandled fuel_reading c s _
  handle-IsHandled parse says_on fuel_rate c s = read-IsHandled fuel_rate c s _
  handle-IsHandled parse says_on fuel_fill c s = read-IsHandled fuel_fill c s _
  handle-IsHandled parse says_on runtime_hours c s = read-IsHandled runtime_hours c s _
  handle-IsHandled parse says_on alert_settings c s = api_alerts-IsHandled parse says_on c s
  handle-IsHandled parse says_on fuel_rate_reset c s =
      unfold IsHandled step is_refused in inr (refl, (Op.rate_reset c.writes.0, refl))

  -- Whatever the body of a request to these routes holds, the handler either answers 400 or 500 and
  -- leaves the tracked state as it was, or answers 200 and has done exactly one of the steps of the
  -- tracked state; and the invariant of the tracked state holds after it. The condition is that it
  -- holds before.
  pub handle-IsTracked :
      (parse : String → Option (Parsed F)) (says_on : String → Bool) (route : Route) (c : Call F)
      (s : State F)
      → IsTracked s
      → let (r, s') = handle parse says_on route c s in
        (((is_refused r ≡ true) × (s' ≡ s))
          ⊎ ((is_refused r ≡ false) × ((op : Op F) × (s' ≡ (step op s).1))))
        × IsTracked s'
  unfolding IsHandled
  handle-IsTracked parse says_on route c s tracked =
      let handled = handle-IsHandled parse says_on route c s in
      (
        handled,
        elim handled [
          | inl (_, same) ↦ subst IsTracked (sym same) tracked
          | inr (_, (op, did)) ↦ subst IsTracked (sym did) (step-IsTracked op s tracked)
        ],
      )
