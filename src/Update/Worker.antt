-- ===== src/Update/Worker.antt =====
-- The worker of an update in genpi/updater.py: what it holds, what it asks of the world around it, and
-- how an exception leaves its stages.
use generatorpi.Base.{
  ltb, if◌then◌else◌, ◌==◌, Dict, lookup, Bytes, codes, strip, lower, ℕ, ◌+◌, String, Bool, false,
  not, ◌||◌, Option, none, some, List, string_key, bytes_key,
}
use generatorpi.Update.{Tree, Archive}
use generatorpi.Update.Status.{Status, Phase, update_phase, Line, update_log, Choice}
use generatorpi.Update.Decision.{Act, await_decision}
use generatorpi.Release.Manifest.{Manifest, Fault}

-- Why the service is not used.
pub data SkipReason : Type 0 where
  service_off autostart_off no_unit no_systemctl : SkipReason

pub data Restart : Type 0 where
  by_service in_process : Restart

pub data Outcome : Type 0 where
  restarting_now succeeded rolled_back : Outcome

-- `last_update.json`
pub record Marker : Type 0 where
  pub outcome : Outcome
  pub version : Bytes
  pub started_ts : Option ℕ

-- The state, the files under the root, the staging directory (empty where it is absent), the backups with
-- their times, the result files, and the locals that outlive a failure: `zpath` once `swapped` is set,
-- and `t_apply`. `waits` counts the prompts.
pub record Worker (C : Type 0) : Type 0 where
  pub status : Status
  pub root : Tree C
  pub staging : Dict String C
  pub backups : List (ℕ × Archive C)
  pub marker : Option Marker
  pub log_file : Option (List Line)
  pub rollback_point : Option (Archive C)
  pub t_apply : Option ℕ
  pub waits : ℕ
  pub restart : Option Restart

-- What lies outside the worker. `manifest_reply` and `serve` are the bodies that GitHub would send, `none`
-- for an error on the way to the staging directory; `parse` decodes and reads the JSON of a manifest. `swap_dies` cuts the swap short after so
-- many files, between the copy and the rename of the next if the Boolean is set. `acts n` are the
-- requests around the n-th prompt.
pub record Outside (C D : Type 0) : Type 0 where
  pub installed : Bytes
  pub manifest_reply : Option C
  pub parse : C → Option (Manifest D)
  pub serve : String → Option C
  pub size : C → ℕ
  pub sha256 : C → D
  pub compiles : C → Bool
  pub iterate : List Bytes → List Bytes
  pub config : Dict String Bytes
  pub unit_exists : Bool
  pub has_systemctl : Bool
  pub present : Bytes → Bool
  pub backups_writable : Bool
  pub root_writable : Bool
  pub staging_writable : Bool
  pub dir_writable : String → Bool
  pub file_writable : String → Bool
  pub free : Option ℕ
  pub archive_sound : Bool
  pub undeletable : ℕ → Bool
  pub acts : ℕ → List Act × List Act × List Act
  pub swap_dies : Option (ℕ × Bool)
  pub temp : String → String
  pub usual : ℕ
  pub now : ℕ
  pub backup_time : ℕ
  pub writes_result : Bool
  pub writes_log : Bool
  pub launches : Bool

-- A stage goes on with a value, raises, or ends the run with `return`.
pub data Flow (C : Type 0) (A : Type 0) : Type 0 where
  next : A → Worker C → Flow C A
  raised : Fault → Worker C → Flow C A
  ended : Worker C → Flow C A

infixl 20 ◌>>>◌
unfoldable pub ◌>>>◌ : {C A B : Type 0} → Flow C A → (A → Worker C → Flow C B) → Flow C B
next a w >>> f = f a w
raised e w >>> f = raised e w
ended w >>> f = ended w

module _ {C : Type 0} where
  abbrev pub on_status : (Status → Status) → Worker C → Worker C
  on_status f w = record w { status = f w.status }

  -- `_update_phase` without an error
  abbrev pub enter : Phase → Worker C → Worker C
  enter p = on_status (update_phase p none)

  unfoldable pub say : Line → Worker C → Worker C
  unfolding update_log
  say l w = on_status (update_log l) w

  -- Goes on if nothing is wrong.
  unfoldable pub raise_if : Option Fault → Worker C → Flow C Unit
  raise_if none w = next tt w
  raise_if (some e) w = raised e w

  unfoldable pub ask :
      {D : Type 0}
      → Outside C D
      → (allow_proceed proceed_disabled : Bool) → Worker C
      → Choice × Worker C
  unfolding await_decision
  ask env allow_proceed proceed_disabled w =
      let around = env.acts w.waits in
      let answer =
        await_decision allow_proceed proceed_disabled around.0 around.1 around.2 w.status in
      (answer.0, record w { status = answer.1; waits = w.waits + 1 })

  -- `_http_get_bytes`: one byte more than the cap is read, and refused.
  unfoldable pub http_get_bytes : (C → ℕ) → (max_bytes : ℕ) → Option C → Option C
  http_get_bytes size max_bytes none = none
  http_get_bytes size max_bytes (some body) = if ltb max_bytes (size body) then none else some body

unfoldable pub is_off : Bytes → Bool
is_off v =
    let s = lower (strip v) in
    s == codes "false"
    || s == codes "0"
    || s == codes "no"
    || s == codes "off"
    || s == codes "disabled"

unfoldable pub switched_off : String → Dict String Bytes → Bool
unfolding is_off lookup
switched_off name config = elim (lookup name config) [ none ↦ false | some v ↦ is_off v ]

-- `none` if the service does the restart. `config` has the texts of the values.
unfoldable pub service_skip_reason :
    Dict String Bytes → (unit_exists has_systemctl : Bool) → Option SkipReason
unfolding switched_off
service_skip_reason config unit_exists has_systemctl =
    if switched_off "SERVICE_ENABLED" config
    then some service_off
    else if switched_off "AUTOSTART" config
    then some autostart_off
    else if not unit_exists
    then some no_unit
    else if not has_systemctl
    then some no_systemctl
    else none
