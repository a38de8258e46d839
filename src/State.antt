-- ===== src/State.antt =====
-- genpi/state.py: the tracked state (`generator_state`, `fuel_state`, `alerts_state` and
-- `_low_fuel_alerted`), the rows of the kv table that hold its durable part, and the run-hours
-- accounting. Every function takes the readings of `time.time()` that it makes, in order, and
-- whether the database takes the write (`kv_set` swallows a failed one).
pub mod Odometer
mod Tests
use generatorpi.Base.{if◌then◌else◌, ℕ, String, Bool, true, false, not, ◌&&◌, Option, none, some}
use generatorpi.Float.{Float}
use generatorpi.Float.Laws.{fmax, clamp, zero_f}

pub data Command : Type 0 where
  start_cmd stop_cmd mark_run mark_stop : Command

-- The texts that the code writes into `message`, with the numbers in them.
pub data Message : Type 0 where
  ready : Message
  attempting : ℕ → ℕ → Message
  completed : ℕ → Message
  stop_sent : Message
  set_manually : Bool → Message

module _ (F : Type 0) where
  pub record Generator : Type 0 where
    pub running : Bool
    pub last_command : Option Command
    pub last_start_time : Option F
    pub last_stop_time : Option F
    pub start_attempts : ℕ
    pub message : Message
    pub current_run_started_at : Option F
    pub total_run_hours : F

  pub record Fuel : Type 0 where
    pub fill_level : F
    pub fill_run_hours : F
    pub drain_rate : F
    pub default_rate : F

  -- What `json.loads` makes of the row of `total_run_hours`.
  pub data Json : Type 0 where
    number : F → Json
    text : String → Json
    flag : Bool → Json
    other : Json

  -- The row of `fuel_state`: a dict with some of the keys, or no dict. A value under a key is taken
  -- to be of the key's type; the code does not look.
  pub data SavedFuel : Type 0 where
    fuel_dict : Option F → Option F → Option F → Option F → SavedFuel
    no_dict : SavedFuel

pub record Alerts : Type 0 where
  pub alerts_on : Bool
  pub alert_threshold : ℕ
  pub fuel_enabled : Bool

pub data SavedAlerts : Type 0 where
  alerts_dict : Option Bool → Option ℕ → Option Bool → SavedAlerts
  no_dict : SavedAlerts

-- The rows of the kv table that this state uses.
pub record Rows (F : Type 0) : Type 0 where
  pub total_row : Option (Json F)
  pub fuel_row : Option (SavedFuel F)
  pub alerts_row : Option SavedAlerts

pub record State (F : Type 0) : Type 0 where
  pub generator : Generator F
  pub fuel : Fuel F
  pub alerts : Alerts
  pub low_fuel_alerted : Bool
  pub rows : Rows F

abbrev pub override {ℓ} : {A : Type ℓ} → Option A → A → A
override none a = a
override (some b) a = b

abbrev pub default_alerts : Alerts
default_alerts = record { alerts_on = true; alert_threshold = 20; fuel_enabled = true }

module _ {F : Type 0} where
  abbrev pub empty_rows : Rows F
  empty_rows = record { total_row = none; fuel_row = none; alerts_row = none }

  -- `dict(fuel_state)` and `dict(alerts_state)`, as `json.dumps` writes them
  abbrev pub saved_fuel : Fuel F → SavedFuel F
  saved_fuel f =
      fuel_dict (some f.fill_level) (some f.fill_run_hours) (some f.drain_rate)
        (some f.default_rate)

  -- `kv_set` of each key
  unfoldable pub save_total : Bool → F → State F → State F
  save_total ok h s =
      if ok then record s { rows = record s.rows { total_row = some (number h) } } else s

  unfoldable pub save_fuel : Bool → State F → State F
  save_fuel ok s =
      if ok then record s { rows = record s.rows { fuel_row = some (saved_fuel s.fuel) } } else s

  -- Only known keys are copied.
  unfoldable pub restore_fuel : Option (SavedFuel F) → Fuel F → Fuel F
  restore_fuel none f = f
  restore_fuel (some no_dict) f = f
  restore_fuel (some (fuel_dict level hours rate default)) f = record {
    fill_level = override level f.fill_level;
    fill_run_hours = override hours f.fill_run_hours;
    drain_rate = override rate f.drain_rate;
    default_rate = override default f.default_rate;
  }

abbrev pub saved_alerts : Alerts → SavedAlerts
saved_alerts a = alerts_dict (some a.alerts_on) (some a.alert_threshold) (some a.fuel_enabled)

unfoldable pub save_alerts : {F : Type 0} → Bool → State F → State F
save_alerts ok s =
    if ok
    then record s { rows = record s.rows { alerts_row = some (saved_alerts s.alerts) } }
    else s

unfoldable pub restore_alerts : Option SavedAlerts → Alerts → Alerts
restore_alerts none a = a
restore_alerts (some SavedAlerts.no_dict) a = a
restore_alerts (some (alerts_dict on threshold enabled)) a = record {
  alerts_on = override on a.alerts_on;
  alert_threshold = override threshold a.alert_threshold;
  fuel_enabled = override enabled a.fuel_enabled;
}

module _ {F : Type 0} ⦃n : Float F⦄ where
  open n use {decimal, add, sub, div, le, round}

  abbrev pub default_fuel : Fuel F
  default_fuel = record {
    fill_level = decimal 100 0;
    fill_run_hours = zero_f;
    drain_rate = decimal 64 1;
    default_rate = decimal 64 1;
  }

  -- The module's globals at import, over the rows of the database.
  abbrev pub initial : Rows F → State F
  initial rows = record {
    generator = record {
      running = false;
      last_command = none;
      last_start_time = none;
      last_stop_time = none;
      start_attempts = 0;
      message = ready;
      current_run_started_at = none;
      total_run_hours = zero_f;
    };
    fuel = default_fuel;
    alerts = default_alerts;
    low_fuel_alerted = false;
    rows = rows;
  }

  -- `float(raw_total)`, `none` where it raises. `float` of a text is Python's.
  abbrev pub coerce_total : (String → Option F) → Json F → Option F
  coerce_total parse (number x) = some x
  coerce_total parse (text s) = parse s
  coerce_total parse (flag b) = some (if b then decimal 1 0 else zero_f)
  coerce_total parse other = none

  abbrev pub restore_total : (String → Option F) → Option (Json F) → F → F
  restore_total parse none h = h
  restore_total parse (some raw) h = override (coerce_total parse raw) h

  unfoldable pub load_persisted_state : (String → Option F) → State F → State F
  unfolding restore_fuel restore_alerts
  load_persisted_state parse s = record s {
    generator = record s.generator {
      total_run_hours = restore_total parse s.rows.total_row s.generator.total_run_hours;
    };
    fuel = restore_fuel s.rows.fuel_row s.fuel;
    alerts = restore_alerts s.rows.alerts_row s.alerts;
  }

  -- `max(0.0, (now - started) / 3600.0)`
  unfoldable pub elapsed_hours : F → F → F
  elapsed_hours now started = fmax zero_f (div (sub now started) (decimal 3600 0))

  abbrev pub elapsed_since : F → Option F → F → F
  elapsed_since now none base = base
  elapsed_since now (some started) base = add base (elapsed_hours now started)

  unfoldable pub live_total_run_hours : F → Generator F → F
  live_total_run_hours now g =
      if g.running
      then elapsed_since now g.current_run_started_at g.total_run_hours
      else g.total_run_hours

  -- `_apply_running_transition_locked(new_running)`
  unfoldable pub apply_running_transition : F → Bool → Bool → State F → State F
  unfolding save_total
  apply_running_transition now ok new_running s =
      let g = s.generator in
      if new_running && not g.running
      then record s { generator = record g { current_run_started_at = some now; running = true } }
      else if not new_running && g.running
      then (let total = elapsed_since now g.current_run_started_at g.total_run_hours in
          save_total ok total (record s {
            generator = record g {
              total_run_hours = total;
              current_run_started_at = none;
              running = false;
            };
          }))
      else record s { generator = record g { running = new_running } }

  -- The run-hours since the last fill, on the live odometer.
  unfoldable pub run_since_fill : F → State F → F
  run_since_fill now s =
      fmax zero_f (sub (live_total_run_hours now s.generator) s.fuel.fill_run_hours)

  unfoldable pub quantized_hours : F → F
  quantized_hours hours = round 3 (clamp zero_f (decimal 1000000 0) hours)

  -- The readings are that of the old live total and that of the new start of a run in progress.
  -- Returns (old_live, hours).
  unfoldable pub set_total_run_hours : F → F → Bool → Bool → F → State F → (F × F) × State F
  unfolding save_total save_fuel quantized_hours run_since_fill
  set_total_run_hours now now' ok ok' hours s =
      let h = quantized_hours hours in
      let g = s.generator in
      let since = run_since_fill now s in
      let moved = record s {
        generator = record g {
          total_run_hours = h;
          current_run_started_at = if g.running then some now' else g.current_run_started_at;
        };
        fuel = record s.fuel { fill_run_hours = fmax zero_f (sub h since) };
      } in
      ((live_total_run_hours now g, h), save_fuel ok' (save_total ok h moved))
