-- ===== src/Routes.antt =====
-- The routes of genpi/routes/fuel.py and /api/runtime/hours of genpi/routes/core.py, with the reading of
-- a number from a JSON body of genpi/routes/_helpers.py. `parse` is Python's `float` of a stripped
-- text, and `says_on` whether a text, stripped and in lower case, is one of true, 1, yes, on.
pub mod Handled
mod Tests
use generatorpi.Base.{
  Dict, lookup, ℤ, String, Bool, true, not, ◌&&◌, Option, none, some, string_key,
}
use generatorpi.State.{State, Fuel, Alerts, set_total_run_hours}
use generatorpi.Fuel.{
  record_fuel_reading, set_fuel_rate, reset_fuel_rate, set_fuel_fill, set_alerts,
}
use generatorpi.Float.{Float}
use generatorpi.Float.Laws.{zero_f}

-- A float that was parsed: `non_finite` is an infinity or NaN.
pub data Parsed (F : Type 0) : Type 0 where
  finite : F → Parsed F
  non_finite : Parsed F

-- A JSON value; `huge` is an integer that no float reaches, on which `float` raises; a list, an object or null is `other`, with its truth value.
pub data Value (F : Type 0) : Type 0 where
  flag : Bool → Value F
  number : Parsed F → Value F
  text : String → Value F
  huge : Value F
  other : Bool → Value F

pub data Refusal : Type 0 where
  missing not_a_number not_finite : Refusal

pub data Reading (F : Type 0) : Type 0 where
  refused : Refusal → Reading F
  accepted : F → Reading F
  raised : Reading F

-- What a request brings: its body, `none` if that is no object; the readings of the clock, and whether
-- the database takes each write.
pub record Call (F : Type 0) : Type 0 where
  pub body : Option (Dict String (Value F))
  pub now : F × F
  pub writes : Bool × Bool

pub data Route : Type 0 where
  fuel_reading fuel_rate fuel_rate_reset fuel_fill alert_settings runtime_hours : Route

-- 400 with the reason, 500, or 200 with what is reported.
pub data Reply (F : Type 0) : Type 0 where
  bad_request : Refusal → Reply F
  server_error : Reply F
  rate_is : F → Reply F
  fuel_is : Fuel F → Reply F
  alerts_are : Alerts → Reply F
  hours_are : F → Reply F

-- The field that a route reads its number from.
abbrev pub number_name : Route → String
number_name fuel_rate = "rate"
number_name runtime_hours = "hours"
number_name _ = "level"

module _ {F : Type 0} where
  unfoldable pub check_finite : Parsed F → Reading F
  check_finite (finite x) = accepted x
  check_finite non_finite = refused not_finite

  unfoldable pub value_number : (String → Option (Parsed F)) → Option (Value F) → Reading F
  unfolding check_finite
  value_number parse none = refused missing
  value_number parse (some (flag b)) = refused not_a_number
  value_number parse (some (number x)) = check_finite x
  value_number parse (some (text s)) = elim (parse s) [
    | none ↦ refused not_a_number
    | some x ↦ check_finite x
  ]
  value_number parse (some huge) = raised
  value_number parse (some (other b)) = refused not_a_number

  abbrev pub field : String → Option (Dict String (Value F)) → Option (Value F)
  field name none = none
  field name (some fields) = lookup name fields

  -- `_json_number(data, field)`
  unfoldable pub json_number :
      (String → Option (Parsed F)) → Option (Dict String (Value F)) → String → Reading F
  unfolding value_number
  json_number parse body name = value_number parse (field name body)

module _ {F : Type 0} ⦃n : Float F⦄ where
  open n use {le, to_int}

  -- `bool(x)` of a number
  unfoldable pub truth : Parsed F → Bool
  truth (finite x) = not (le x zero_f && le zero_f x)
  truth non_finite = true

  -- `_bool_field`
  unfoldable pub bool_field : (String → Bool) → Option (Value F) → Option Bool
  unfolding truth
  bool_field says_on none = none
  bool_field says_on (some (flag b)) = some b
  bool_field says_on (some (number x)) = some (truth x)
  bool_field says_on (some (text s)) = some (says_on s)
  bool_field says_on (some huge) = some true
  bool_field says_on (some (other b)) = some b

  -- The optional threshold: a value that is there has to be a number.
  unfoldable pub threshold_field :
      (String → Option (Parsed F)) → Option (Value F) → Option (Reply F) × Option ℤ
  unfolding value_number
  threshold_field parse none = (none, none)
  threshold_field parse (some v) = elim (value_number parse (some v)) [
    | refused r ↦ (some (bad_request r), none)
    | raised ↦ (some server_error, none)
    | accepted x ↦ (none, some (to_int x))
  ]

  unfoldable pub api_alerts :
      (String → Option (Parsed F)) → (String → Bool) → Call F → State F → Reply F × State F
  unfolding bool_field threshold_field
  api_alerts parse says_on c s =
      let (refusal, threshold) = threshold_field parse (field "threshold" c.body) in
      let (now_set, s') =
        set_alerts c.writes.0 (bool_field says_on (field "enabled" c.body)) threshold
          (bool_field says_on (field "fuel_enabled" c.body)) s in
      elim refusal [ none ↦ (alerts_are now_set, s') | some r ↦ (r, s) ]

  unfoldable pub handle_number : Route → Call F → F → State F → Reply F × State F
  handle_number fuel_reading c x s =
      let (rate, s') = record_fuel_reading c.now.0 c.writes.0 x s in (rate_is rate, s')
  handle_number fuel_rate c x s =
      let (rate, s') = set_fuel_rate c.writes.0 x s in (rate_is rate, s')
  handle_number fuel_fill c x s =
      let (fuel, s') = set_fuel_fill c.now.0 c.writes.0 x s in (fuel_is fuel, s')
  handle_number _ c x s =
      let ((old, hours), s') = set_total_run_hours c.now.0 c.now.1 c.writes.0 c.writes.1 x s in
      (hours_are hours, s')

  unfoldable pub handle :
      (String → Option (Parsed F)) → (String → Bool) → Route → Call F → State F → Reply F × State F
  unfolding api_alerts handle_number json_number
  handle parse says_on fuel_rate_reset c s =
      let (rate, s') = reset_fuel_rate c.writes.0 s in (rate_is rate, s')
  handle parse says_on alert_settings c s = api_alerts parse says_on c s
  handle parse says_on route c s = elim (json_number parse c.body (number_name route)) [
    | refused r ↦ (bad_request r, s)
    | raised ↦ (server_error, s)
    | accepted x ↦ handle_number route c x s
  ]
