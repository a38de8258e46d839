-- ===== src/Update/Status.antt =====
-- The shared progress of an update: `_update_state` with the decision gate of genpi/updater.py, its log and
-- its tallies. A log line is a template with what it shows; the message and the percentage that the
-- page shows with a phase are left out.
use generatorpi.Base.{
  if◌then◌else◌, ◌==◌, Bytes, ℕ, ◌+◌, String, Bool, true, false, Option, none, some, List, [], ◌∷◌,
  nat_key,
}
use generatorpi.Release.Manifest.{Dependency, Fault}

pub data Phase : Type 0 where
  idle checking downloading verifying backing_up staged : Phase
  awaiting swapping restarting finished failed : Phase

pub data Severity : Type 0 where
  amber red : Severity

pub data Part : Type 0 where
  shown : Bytes → Part
  numbered : ℕ → Part
  at_path : String → Part

-- `is_ok` tells that ` ok` was tacked on.
pub record Line : Type 0 where
  pub mark : Option Severity
  pub template : String
  pub details : List Part
  pub is_ok : Bool

pub record Tally : Type 0 where
  pub warn : ℕ
  pub err : ℕ

pub data Choice : Type 0 where
  proceed revert : Choice

-- `decide`
pub record Prompt : Type 0 where
  pub allow_proceed : Bool
  pub proceed_disabled : Bool

-- The log has its newest line first. `choice` and `is_set` are the holder and the event of the gate.
pub record Status : Type 0 where
  pub phase : Phase
  pub error : Option Fault
  pub version : Option Bytes
  pub systemd : Option Bool
  pub log : List Line
  pub decide : Option Prompt
  pub missing_deps : List Dependency
  pub deps_install_cmd : Bytes
  pub installable : Bool
  pub important_notes : List Bytes
  pub stage : ℕ
  pub stage1 : Tally
  pub stage2 : Tally
  pub choice : Option Choice
  pub is_set : Bool

abbrev pub no_tally : Tally
no_tally = record { warn = 0; err = 0 }

abbrev pub line : String → List Part → Line
line template details = record {
  mark = none;
  template = template;
  details = details;
  is_ok = false;
}

unfoldable pub update_log : Line → Status → Status
update_log l s = record s { log = l ∷ s.log }

-- `_update_log_append(" ok")`
unfoldable pub tack_ok : List Line → List Line
tack_ok [] = record { mark = none; template = ""; details = []; is_ok = true } ∷ []
tack_ok (l ∷ ls) = record l { is_ok = true } ∷ ls

unfoldable pub update_log_append : Status → Status
unfolding tack_ok
update_log_append s = record s { log = tack_ok s.log }

unfoldable pub update_sev : Severity → Line → Status → Status
unfolding update_log
update_sev sev l s = update_log (record l { mark = some sev }) s

-- The tally of the stage that the worker is in: any stage but 2 counts as the first.
unfoldable pub update_warn : Line → Status → Status
unfolding update_log
update_warn l s =
    let s' = update_log l s in
    if s.stage == 2
    then record s' { stage2 = record s.stage2 { warn = s.stage2.warn + 1 } }
    else record s' { stage1 = record s.stage1 { warn = s.stage1.warn + 1 } }

unfoldable pub update_err : Line → Status → Status
unfolding update_log
update_err l s =
    let s' = update_log l s in
    if s.stage == 2
    then record s' { stage2 = record s.stage2 { err = s.stage2.err + 1 } }
    else record s' { stage1 = record s.stage1 { err = s.stage1.err + 1 } }

abbrev pub tally_of : ℕ → Status → Tally
tally_of n s = if n == 1 then s.stage1 else if n == 2 then s.stage2 else no_tally

unfoldable pub count_line : String → (stage count : ℕ) → Status → Status
unfolding update_log
count_line template n count s =
    if count == 0 then s else update_log (line template (numbered n ∷ numbered count ∷ [])) s

unfoldable pub stage_summary : ℕ → Status → Status
unfolding count_line
stage_summary n s =
    let tally = tally_of n s in
    count_line "[ERROR] Stage" n tally.err (count_line "[WARNING] Stage" n tally.warn s)

unfoldable pub update_phase : Phase → Option Fault → Status → Status
update_phase phase error s = record s { phase = phase; error = error }

-- The start of a run, in `_run_update`.
unfoldable pub fresh_run : Status → Status
fresh_run s = record s {
  stage = 1;
  stage1 = no_tally;
  stage2 = no_tally;
  missing_deps = [];
  deps_install_cmd = [];
  installable = true;
  important_notes = [];
}

abbrev pub is_over : Phase → Bool
is_over idle = true
is_over finished = true
is_over failed = true
is_over _ = false

-- `api_update_start`: whether it answers 409, and the state; without a 409 it starts a worker.
unfoldable pub api_update_start : (systemd : Bool) → Status → Bool × Status
unfolding fresh_run
api_update_start systemd s =
    if is_over s.phase
    then (
      false,
      record (fresh_run s) {
        phase = checking;
        error = none;
        systemd = some systemd;
        log = [];
        decide = none;
      },
    )
    else (true, s)
