-- ===== src/Update/Apply.antt =====
-- The second stage of `_run_update` of genpi/updater.py: the hand-over to the service's script, or the
-- swap in the process. The per-file lines of the swap are left out.
use generatorpi.Base.{
  if◌then◌else◌, length, Key, Dict, lookup, ℕ, String, Bool, true, false, Option, none, some, List,
  [], ◌∷◌, string_key,
}
use generatorpi.Update.Status.{restarting, swapping, line, numbered, at_path, stage_summary}
use generatorpi.Update.Worker.{
  enter, Worker, Outside, Flow, next, raised, ◌>>>◌, on_status, say, raise_if, by_service,
  in_process, restarting_now, service_skip_reason, SkipReason,
}
use generatorpi.Release.Manifest.{Manifest, Fault, ReleaseFile}
use generatorpi.Update.{Archive, Tree, swap, interrupted_swap}
use generatorpi.Update.Stages.{has_digest, paths}
use generatorpi.Update.Admit.{version_of}

abbrev pub content_at : {C : Type 0} → String → Tree C → Option C
content_at p root = elim (lookup p root) [ none ↦ none | some f ↦ some f.content ]

module _ {C D : Type 0} where
  -- With the service: the bootstrap script takes over.
  unfoldable pub hand_over : Outside C D → Worker C → Flow C Unit
  unfolding say
  hand_over env w =
      let w1 = enter restarting (
        say (line "[RESTARTING] swapping files + restarting the service" [])
          (on_status (λ s. record s { systemd = some true }) w)) in
      let w2 = record w1 {
        log_file = if env.writes_log then some w1.status.log else w1.log_file;
      } in
      if env.launches
      then next tt (record w2 { restart = some by_service })
      else raised Fault.no_bootstrap w2

  -- The swap, which may be cut short.
  unfoldable pub replaced :
      Outside C D → Option (ℕ × Bool) → Dict String C → List String → Tree C → Bool × Tree C
  unfolding swap interrupted_swap
  replaced env none staging ps root = swap env.temp env.usual staging ps root
  replaced env (some (n, half)) staging ps root =
      (false, interrupted_swap env.temp env.usual staging n half ps root)

  unfoldable pub verify_live :
      ⦃k : Key D⦄ → Outside C D → List (ReleaseFile D) → Worker C → Flow C Unit
  unfolding has_digest say
  verify_live env [] w = next tt w
  verify_live env (f ∷ files) w = elim (has_digest env f (content_at f.path w.root)) [
    | false ↦ raised Fault.swap_mismatch w
    | true ↦ verify_live env files (say (line "live" (at_path f.path ∷ [])) w)
  ]

  -- `_write_update_result`, which swallows its failures
  unfoldable pub write_update_result : Outside C D → Manifest D → Worker C → Worker C
  unfolding version_of
  write_update_result env m w =
      if env.writes_result
      then record w {
        marker =
            some
              (record { outcome = restarting_now; version = version_of m; started_ts = w.t_apply });
        log_file = some w.status.log;
      }
      else w

  unfoldable pub relaunch : Outside C D → Manifest D → Worker C → Worker C
  unfolding stage_summary say write_update_result
  relaunch env m w =
      let told =
        say (line "releasing the listening socket" [])
          (say (line "[RESTARTING] in-process re-exec" []) (on_status (stage_summary 2) w)) in
      record (enter restarting (write_update_result env m told)) { restart = some in_process }

  -- Without the service. The rollback is armed before the swap.
  unfoldable pub swap_in :
      ⦃k : Key D⦄ → Outside C D → Manifest D → Archive C → Worker C → Flow C Unit
  unfolding replaced raise_if verify_live relaunch say
  swap_in env m archive w =
      let w1 = say (line "[SWAPPING]" (numbered (length m.files) ∷ [])) (
        say (line "rollback point armed" [])
          (record (enter swapping (on_status (λ s. record s { systemd = some false }) w)) {
            rollback_point = some archive;
          })) in
      let reached = replaced env env.swap_dies w1.staging (paths m.files) w1.root in
      raise_if (if reached.0 then none else some Fault.swap_died) (record w1 { root = reached.1 })
      >>> (λ _ w. verify_live env m.files (say (line "[VERIFYING SWAP]" []) w))
      >>> (λ _ w. next tt (relaunch env m w))

  unfoldable pub apply_by :
      ⦃k : Key D⦄
      → Outside C D
      → Option SkipReason
      → Manifest D
      → Archive C
      → Worker C
      → Flow C Unit
  unfolding hand_over swap_in
  apply_by env none m archive w = hand_over env w
  apply_by env (some reason) m archive w = swap_in env m archive w

  unfoldable pub apply_update :
      ⦃k : Key D⦄ → Outside C D → Manifest D → Archive C → Worker C → Flow C Unit
  unfolding service_skip_reason apply_by
  apply_update env m archive w =
      apply_by env (service_skip_reason env.config env.unit_exists env.has_systemctl) m archive w
