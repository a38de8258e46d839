-- ===== src/Update/Aftermath.antt =====
-- What the next start makes of an update: the promotion of the marker in genpi/updater.py, and the routes
-- /api/update/result and /api/update/result/ack of genpi/routes/update.py. That a report holds only the
-- last 20,000 characters of the log is left out.
use generatorpi.Base.{Bytes, ℕ, ◌≡◌, refl, Bool, true, false, Option, none, some, List, [], ◌∷◌}
use generatorpi.Update.Status.{Line, line, shown}
use generatorpi.Update.Worker.{Marker, restarting_now, succeeded, rolled_back, Outcome}

-- The two files: the marker, `some none` if it cannot be read, and the log with its newest line first.
pub record Results : Type 0 where
  pub marker : Option (Option Marker)
  pub log_file : Option (List Line)

abbrev pub or_empty : Option (List Line) → List Line
or_empty none = []
or_empty (some l) = l

abbrev pub took : Option ℕ → List Line → List Line
took none l = l
took (some t) l = line "Update finished in" [] ∷ l

-- The log that a promotion leaves, its newest line first.
abbrev pub confirmed : Marker → Option (List Line) → List Line
confirmed m l =
    line "[DONE]" (shown m.version ∷ []) ∷ took m.started_ts (line "[HEALTH]" [] ∷ or_empty l)

unfoldable pub promoted : Marker → Results → Results
promoted m r = elim (m.outcome) [
  | restarting_now ↦ record {
    marker = some (some (record m { outcome = succeeded }));
    log_file = some (confirmed m r.log_file);
  }
  | succeeded ↦ r
  | rolled_back ↦ r
]

-- A marker that says `restarting` is promoted once the new code has been imported.
unfoldable pub promote : Results → Results
unfolding promoted
promote r = elim (r.marker) [ none ↦ r | some o ↦ elim o [ none ↦ r | some m ↦ promoted m r ] ]

pub data Report : Type 0 where
  nothing_pending : Report
  unknown : List Line → Report
  reported : Marker → List Line → Report

unfoldable pub api_update_result : Results → Report
api_update_result r = elim (r.marker) [
  | none ↦ nothing_pending
  | some o ↦ elim o [
    | none ↦ unknown (or_empty r.log_file)
    | some m ↦ reported m (or_empty r.log_file)
  ]
]

unfoldable pub api_update_result_ack : Results → Results
api_update_result_ack r = record { marker = none; log_file = none }

is_promoted : Results → Bool
is_promoted r = elim (api_update_result r) as (λ _. Bool) [
  | nothing_pending ↦ true
  | unknown l ↦ true
  | reported m l ↦ elim (m.outcome) [
    | restarting_now ↦ false
    | succeeded ↦ true
    | rolled_back ↦ true
  ]
]

abbrev Settles : Results → Type 0
Settles r = (is_promoted (promote r) ≡ true) × (promote (promote r) ≡ promote r)

promote-parts :
    (o : Outcome) (v : Bytes) (t : Option ℕ) (l : Option (List Line))
    → Settles (record {
      marker = some (some (record { outcome = o; version = v; started_ts = t }));
      log_file = l;
    })
unfolding promote promoted is_promoted api_update_result
promote-parts restarting_now v t l = (refl, refl)
promote-parts succeeded v t l = (refl, refl)
promote-parts rolled_back v t l = (refl, refl)

-- After a start no report says that the update is still restarting, and a second start changes nothing.
promote-Settles :
    (marker : Option (Option Marker)) (l : Option (List Line))
    → Settles (record { marker = marker; log_file = l })
unfolding promote promoted is_promoted api_update_result
promote-Settles none l = (refl, refl)
promote-Settles (some none) l = (refl, refl)
promote-Settles (some (some m)) l = promote-parts m.outcome m.version m.started_ts l
