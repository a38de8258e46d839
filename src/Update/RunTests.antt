-- ===== src/Update/RunTests.antt =====
-- A whole run of the updater, at a release of two files.
use generatorpi.Base.{
  if◌then◌else◌, string_key, ◌==◌, lookup, insert, erase, codes, ℕ, String, ◌≡◌, refl, ◌≢◌, ◌⊎◌,
  Bool, true, false, Option, none, some, List, [], ◌∷◌, arith, nat_key, bytes_key,
}
use generatorpi.Update.Status.{
  Status, idle, no_tally, proceed, update_log, tack_ok, update_log_append, count_line,
  stage_summary, update_phase, fresh_run, restarting, failed, revert,
}
use generatorpi.Update.Decision.{
  Act, post, notify, allowed, api_update_decide, act, act_all, open_gate, or_revert, read_choice,
  await_decision, last_choice, has_notify, allow_last, await_decision_exact,
}
use generatorpi.Update.Worker.{
  Worker, Outside, in_process, ◌>>>◌, say, raise_if, ask, http_get_bytes, switched_off,
  service_skip_reason, by_service,
}
use generatorpi.Update.Run.{run_update, tell_time, run_stages, undo, recover, landed, begun}
use generatorpi.Release.{absent, gates_of, crossed, blocking, notes}
use generatorpi.Release.Manifest.{
  Manifest, parts, is_unsafe, is_secret, validate_manifest_paths, version_char, validate_version,
  check_manifest_dependencies, packages, install_line, dependency_install_command,
}
use generatorpi.Update.Admit.{
  contact, version_of, validate, gate_on, gate, prepare, confirm, tell_plan,
}
use generatorpi.Update.Stages.{
  preflight_check, summed, has_space, report_missing, target_writable, all_writable,
  check_dependencies, download, has_digest, verify_staged, file_compiles, compile_staged,
  download_and_verify, prune_backups, back_up,
}
use generatorpi.Update.{
  make_backup, backed_up, mode_of, write_file, swap_file, swap, half_swap, interrupted_swap,
  unlink_all, extract_all, rollback,
}
use generatorpi.Update.Apply.{
  apply_update, replaced, verify_live, write_update_result, relaunch, swap_in, apply_by,
}
use generatorpi.Update.Ends.{failed_run_restores, run_settles, restart_is_verified}
use generatorpi.Update.Settled.{Consent, Installed}

abbrev idle_status : Status
idle_status = record {
  phase = idle;
  error = none;
  version = none;
  systemd = none;
  log = [];
  decide = none;
  missing_deps = [];
  deps_install_cmd = [];
  installable = true;
  important_notes = [];
  stage = 1;
  stage1 = no_tally;
  stage2 = no_tally;
  choice = none;
  is_set = false;
}

-- A content is a number, and its own digest and size; 7 is the body of the manifest.
abbrev release : Manifest ℕ
release = record {
  version = some (codes "1.2");
  files =
      record { path = "setup.sh"; sha256 = 20; bytes = 20 }
      ∷ record { path = "genpi/new.py"; sha256 = 30; bytes = 30 }
      ∷ [];
  incompatible_versions = absent;
  dependencies = [];
}

abbrev serve : String → Option ℕ
serve p = if p == "setup.sh" then some 20 else if p == "genpi/new.py" then some 30 else none

abbrev sibling : String → String
sibling p = "update.gpnew"

abbrev outside : (acts : List Act) → (dies : Option (ℕ × Bool)) → Outside ℕ ℕ
outside acts dies = record {
  installed = codes "1.1";
  manifest_reply = some 7;
  parse = (λ c. some release);
  serve = serve;
  size = (λ c. c);
  sha256 = (λ c. c);
  compiles = (λ c. true);
  iterate = (λ gs. gs);
  config = [];
  unit_exists = false;
  has_systemctl = false;
  present = (λ m. true);
  backups_writable = true;
  root_writable = true;
  staging_writable = true;
  dir_writable = (λ p. true);
  file_writable = (λ p. true);
  free = none;
  archive_sound = true;
  undeletable = (λ t. false);
  acts = (λ n. ([], acts, []));
  swap_dies = dies;
  temp = sibling;
  usual = 420;
  now = 100;
  backup_time = 90;
  writes_result = true;
  writes_log = true;
  launches = true;
}

abbrev clicks : List Act
clicks = post proceed ∷ notify ∷ []

abbrev start : Worker ℕ
start = record {
  status = idle_status;
  root = ("setup.sh", record { content = 1; mode = 493 }) ∷ [];
  staging = [];
  backups = [];
  marker = none;
  log_file = none;
  rollback_point = none;
  t_apply = none;
  waits = 0;
  restart = none;
}

-- The swap dies after its first file.
cut_short : (run_update (outside clicks (some (1, true))) start).restart ≡ none
unfolding run_update begun tell_plan run_stages fresh_run landed recover undo tell_time contact
    http_get_bytes say update_log update_phase update_log_append tack_ok version_of validate
    raise_if validate_manifest_paths is_unsafe is_secret parts validate_version version_char gate
    gate_on blocking crossed gates_of notes prepare preflight_check all_writable target_writable
    has_space summed download_and_verify check_dependencies report_missing
    check_manifest_dependencies dependency_install_command packages install_line download
    verify_staged compile_staged has_digest file_compiles back_up make_backup backed_up
    prune_backups stage_summary count_line confirm ask await_decision open_gate act_all act
    api_update_decide read_choice or_revert allowed apply_update apply_by service_skip_reason
    switched_off lookup insert erase replaced swap swap_file write_file mode_of interrupted_swap
    half_swap rollback unlink_all extract_all verify_live relaunch write_update_result swap_in ◌>>>◌
cut_short = refl

pending : (run_update (outside clicks none) start).restart ≢ none
unfolding run_update begun tell_plan run_stages fresh_run landed recover undo tell_time contact
    http_get_bytes say update_log update_phase update_log_append tack_ok version_of validate
    raise_if validate_manifest_paths is_unsafe is_secret parts validate_version version_char gate
    gate_on blocking crossed gates_of notes prepare preflight_check all_writable target_writable
    has_space summed download_and_verify check_dependencies report_missing
    check_manifest_dependencies dependency_install_command packages install_line download
    verify_staged compile_staged has_digest file_compiles back_up make_backup backed_up
    prune_backups stage_summary count_line confirm ask await_decision open_gate act_all act
    api_update_decide read_choice or_revert allowed apply_update apply_by service_skip_reason
    switched_off lookup insert erase replaced swap swap_file write_file mode_of interrupted_swap
    half_swap rollback unlink_all extract_all verify_live relaunch write_update_result swap_in ◌>>>◌
pending e = absurd (cc)

apart : (p : String) → sibling p ≢ "setup.sh"
apart p = ground (arith, string_key.same_iff "update.gpnew" "setup.sh")

run_settles_example :
    (((run_update (outside clicks none) start).status.phase ≡ failed)
      × ((run_update (outside clicks none) start).restart ≡ none))
    ⊎ (((run_update (outside clicks none) start).status.phase ≡ restarting)
        × (((run_update (outside clicks none) start).restart ≡ some by_service)
            ⊎ ((run_update (outside clicks none) start).restart ≡ some in_process)))
run_settles_example = run_settles (outside clicks none) start refl

failed_run_restores_example :
    lookup "setup.sh" (run_update (outside clicks (some (1, true))) start).root
    ≡ lookup "setup.sh" start.root
failed_run_restores_example =
    failed_run_restores (outside clicks (some (1, true))) start "setup.sh" refl cut_short apart

restart_is_verified_example :
    Consent (outside clicks none) start.waits
    × Installed (outside clicks none) start.root (run_update (outside clicks none) start)
restart_is_verified_example = restart_is_verified (outside clicks none) start refl pending

await_decision_exact_example : (await_decision true false clicks clicks [] idle_status).0 ≡ (
    if has_notify clicks
    then or_revert (allow_last true none (last_choice (post proceed ∷ notify ∷ clicks)))
    else revert)
await_decision_exact_example = await_decision_exact true false clicks clicks [] idle_status

-- The click came before the worker cleared the event: it is lost.
lost_click : (await_decision true false clicks [] [] idle_status).0 ≡ revert
unfolding await_decision open_gate act_all act api_update_decide read_choice or_revert allowed
lost_click = refl

-- The click came after the wait had ended without one: it does not count either.
late_click : (await_decision true false [] [] clicks idle_status).0 ≡ revert
unfolding await_decision open_gate act_all act api_update_decide read_choice or_revert allowed
late_click = refl
