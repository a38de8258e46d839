-- ===== src/Routes/Tests.antt =====
-- Requests to the fuel routes, in fixed point; no text is a number here.
use generatorpi.Base.{lookup, ℤ, pos, ◌≡◌, refl, ◌⊎◌, true, false, none, some, [], ◌∷◌, string_key}
use generatorpi.Float.Fixed.{fixed}
use generatorpi.State.{initial, empty_rows}
use generatorpi.Tracked.{Op, step}
use generatorpi.Tracked.Ranges.{IsTracked, initial-IsTracked}
use generatorpi.Routes.{
  Call, handle, finite, non_finite, not_finite, fuel_fill, bad_request, check_finite, value_number,
  json_number, Value, huge, server_error,
}
use generatorpi.Routes.Handled.{is_refused, handle-IsTracked}

abbrev overfull : Call ℤ
overfull = record {
  body = some (("level", Value.number (finite (pos 150000))) ∷ []);
  now = (pos 0, pos 0);
  writes = (true, true);
}

abbrev infinite : Call ℤ
infinite = record overfull { body = some (("level", Value.number non_finite) ∷ []) }

-- An integer of four hundred digits is a 500, not a 400.
huge_raises :
    (handle
      (λ t. none)
      (λ t. false)
      fuel_fill
      (record overfull { body = some (("level", huge) ∷ []) })
      (initial empty_rows)).0
    ≡ server_error
unfolding handle json_number value_number check_finite lookup
huge_raises = refl

infinite_refused :
    (handle (λ t. none) (λ t. false) fuel_fill infinite (initial empty_rows)).0
    ≡ bad_request not_finite
unfolding handle json_number value_number check_finite lookup
infinite_refused = refl

handle-IsTracked_example :
    let (r, s') = handle (λ t. none) (λ t. false) fuel_fill overfull (initial empty_rows) in
    (((is_refused r ≡ true) × (s' ≡ initial empty_rows))
      ⊎ ((is_refused r ≡ false) × ((op : Op ℤ) × (s' ≡ (step op (initial empty_rows)).1))))
    × IsTracked s'
handle-IsTracked_example =
    handle-IsTracked (λ t. none) (λ t. false) fuel_fill overfull (initial empty_rows)
      (initial-IsTracked empty_rows)
