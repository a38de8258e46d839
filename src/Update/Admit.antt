-- ===== src/Update/Admit.antt =====
-- The first stage of `_run_update` of genpi/updater.py: from the manifest to the go-ahead of the user.
use generatorpi.Base.{
  if◌then◌else◌, length, is_empty, Key, Bytes, codes, true, false, Option, none, some, List, [],
  ◌∷◌, string_key,
}
use generatorpi.Update.Status.{
  Status, update_log, downloading, line, shown, numbered, update_log_append, update_sev,
  update_phase, Severity, checking, staged, failed, proceed, revert, stage_summary,
}
use generatorpi.Update.Worker.{
  service_skip_reason, SkipReason, enter, Worker, Outside, Flow, next, raised, ended, ◌>>>◌,
  on_status, say, raise_if, ask, http_get_bytes,
}
use generatorpi.Release.{blocking, notes}
use generatorpi.Release.Manifest.{Manifest, Fault, validate_manifest_paths, validate_version}
use generatorpi.Update.{Archive}
use generatorpi.Update.Stages.{preflight_check, check_dependencies, download_and_verify, back_up}

-- `manifest.get("version") or "?"`
unfoldable pub version_of : {D : Type 0} → Manifest D → Bytes
version_of m = elim (m.version) [ none ↦ codes "?" | some v ↦ if is_empty v then codes "?" else v ]

module _ {C D : Type 0} where
  unfoldable pub contact : Outside C D → Worker C → Flow C (Manifest D)
  unfolding http_get_bytes say update_phase update_log_append version_of
  contact env w =
      let w1 = enter checking (
        say (line "[CONTACTING GITHUB]" []) (say (line "[UPDATE]" (shown env.installed ∷ [])) w)) in
      elim (http_get_bytes env.size 1000000 env.manifest_reply) [
        | none ↦ raised Fault.unreachable w1
        | some body ↦ elim (env.parse body) [
          | none ↦ raised Fault.unreachable w1
          | some m ↦ next m (
              say (line "manifest" (shown (version_of m) ∷ numbered (length m.files) ∷ []))
                (on_status update_log_append w1))
        ]
      ]

  unfoldable pub validate : Outside C D → Manifest D → Worker C → Flow C Unit
  unfolding raise_if say ◌>>>◌ validate_manifest_paths validate_version version_of
  validate env m w =
      raise_if (validate_manifest_paths m.files) (say (line "[VALIDATING RELEASE]" []) w)
      >>> (λ _ w. raise_if (validate_version (version_of m)) (say (line "file paths safe" []) w))
      >>> (λ _ w. next tt (
          on_status (λ s. record s { version = some (version_of m) })
            (say (line "version string well-formed" []) w)))

  -- A release that has to be installed by hand ends the run, whatever is answered.
  unfoldable pub park_refused : Outside C D → Worker C → Worker C
  unfolding update_log update_sev update_phase ask say
  park_refused env w =
      let w1 =
        on_status
          (λ s. update_phase staged none (
            update_sev Severity.red (line "Nothing has changed" []) (
              update_sev Severity.red (line "A manual-install-only version is between" [])
                (update_log (line "[ERROR] cannot be installed by the web updater" []) s))))
          w in
      enter failed (say (line "[ERROR] not applied" []) (ask env false true w1).1)

  unfoldable pub gate_on :
      Outside C D → Manifest D → (blocked : List Bytes) → Worker C → Flow C Unit
  unfolding notes park_refused
  gate_on env m blocked w =
      let told =
        on_status
          (λ s. record s {
            installable = is_empty blocked;
            important_notes = notes blocked m.incompatible_versions;
          })
          w in
      elim blocked [ [] ↦ next tt told | g ∷ gs ↦ ended (park_refused env told) ]

  unfoldable pub gate : Outside C D → Manifest D → Worker C → Flow C Unit
  unfolding blocking gate_on version_of
  gate env m =
      gate_on env m (blocking env.iterate env.installed (version_of m) m.incompatible_versions)

  -- The restart path, with the reason if it is not the service.
  unfoldable pub tell_plan : Outside C D → Option SkipReason → Status → Status
  unfolding update_log
  tell_plan env none s = update_log (line "backups dir" []) (
      update_log (line "installed" (shown env.installed ∷ []))
        (update_log (line "[DEPLOYMENT PLAN] systemd service" []) s))
  tell_plan env (some reason) s = update_log (line "backups dir" []) (
      update_log (line "installed" (shown env.installed ∷ [])) (
        update_log (line "reason" []) (update_log (line "[DEPLOYMENT PLAN] in-process swap" []) s)))

  -- The end of the first stage: the release is staged and the old files are backed up.
  unfoldable pub prepare : ⦃k : Key D⦄ → Outside C D → Manifest D → Worker C → Flow C (Archive C)
  unfolding tell_plan service_skip_reason preflight_check download_and_verify check_dependencies
      back_up say update_log_append stage_summary ◌>>>◌
  prepare env m w =
      preflight_check env m.files (
        enter checking (
          say (line "[CHECKING SYSTEM]" []) (
            on_status
              (tell_plan env (service_skip_reason env.config env.unit_exists env.has_systemctl))
              w)))
      >>> (λ _ w. download_and_verify env m.files (
          enter downloading (
            say (line "[DOWNLOADING]" (numbered (length m.files) ∷ []))
              (check_dependencies env m.dependencies w))))
      >>> (λ _ w. back_up env m.files w)
      >>> (λ archive w. next archive (
          on_status
            (λ s. stage_summary 1 (
              update_log (line "ready to apply" [])
                (update_log_append (update_log (line "[STAGED]" []) s))))
            (say (line "integrity-verified" []) w)))

  -- The last point at which a cancel is free.
  unfoldable pub confirm : Outside C D → Worker C → Flow C Unit
  unfolding ask say
  confirm env w =
      let asked = ask env true false (enter staged w) in
      elim (asked.0) [
        | revert ↦ ended (
            enter failed (
              say (line "[REVERTED] canceled before applying" [])
                (record asked.1 { staging = [] })))
        | proceed ↦
            next tt
              (record (on_status (λ s. record s { stage = 2 })
                (say (line "[APPLYING]" []) asked.1)) { t_apply = some env.now })
      ]
