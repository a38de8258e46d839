-- ===== src/Update/Stages.antt =====
-- The checks before anything is replaced, in genpi/updater.py: `_preflight_check`, the dependencies,
-- `_download_and_verify` and the backup of `_make_backup` with its verification.
use generatorpi.Base.{
  ltb, leb, if◌then◌else◌, is_some, length, take, drop, keep, Key, ◌==◌, Dict, lookup, insert,
  codes, ends_with, sorted, ℕ, ◌+◌, ◌*◌, max, String, Bool, true, false, not, ◌&&◌, ◌||◌, Option,
  none, some, List, [], ◌∷◌, ◌++◌, map, string_key,
}
use generatorpi.Update.{Tree, Archive, make_backup}
use generatorpi.Update.Status.{
  Status, line, numbered, at_path, update_log, update_log_append, update_warn, update_err,
  update_sev, update_phase, Severity, downloading, verifying, backing_up, checking,
}
use generatorpi.Update.Worker.{
  Worker, Outside, Flow, next, raised, ◌>>>◌, on_status, say, raise_if, http_get_bytes,
}
use generatorpi.Release.Manifest.{
  ReleaseFile, Dependency, Fault, validate_manifest_paths, check_manifest_dependencies,
  dependency_install_command,
}

abbrev pub paths : {D : Type 0} → List (ReleaseFile D) → List String
paths = map (λ f. f.path)

unfoldable pub summed : {D : Type 0} → List (ReleaseFile D) → ℕ
summed [] = 0
summed (f ∷ files) = f.bytes + summed files

unfoldable pub has_space : {D : Type 0} → Option ℕ → List (ReleaseFile D) → Bool
unfolding summed
has_space none files = true
has_space (some free) files = leb (summed files * 3 + 5000000) free

abbrev pub unless : Bool → Fault → Option Fault
unless fine e = if fine then none else some e

-- The lines of the dependencies that are missing.
unfoldable pub tell_missing : List Dependency → Status → Status
unfolding update_warn update_err
tell_missing [] s = s
tell_missing (d ∷ deps) s =
    let l = line "Missing dependency" [] in
    tell_missing deps (if d.is_required then update_err l s else update_warn l s)

abbrev pub any_required : List Dependency → Bool
any_required [] = false
any_required (d ∷ deps) = d.is_required || any_required deps

unfoldable pub report_missing : List Dependency → Status → Status
unfolding tell_missing update_sev
report_missing [] s = update_log (line "all declared dependencies present" []) s
report_missing (d ∷ deps) s =
    let sev = if any_required (d ∷ deps) then Severity.red else Severity.amber in
    update_sev sev (line "command" [])
      (update_sev sev (line "The updater will NOT install these" []) (tell_missing (d ∷ deps) s))

module _ {C D : Type 0} where
  -- A file that the update would write: its directory if there is one, and itself.
  unfoldable pub target_writable : Outside C D → Tree C → ReleaseFile D → Bool
  target_writable env root f =
      env.dir_writable f.path && (not (is_some (lookup f.path root)) || env.file_writable f.path)

  unfoldable pub all_writable : Outside C D → Tree C → List (ReleaseFile D) → Bool
  unfolding target_writable
  all_writable env root [] = true
  all_writable env root (f ∷ files) = target_writable env root f && all_writable env root files

  -- Every check that passes leaves a line.
  unfoldable pub preflight_check : Outside C D → List (ReleaseFile D) → Worker C → Flow C Unit
  unfolding all_writable has_space raise_if say ◌>>>◌
  preflight_check env files w =
      raise_if (unless env.backups_writable Fault.not_writable) w
      >>> (λ _ w.
          raise_if (unless env.root_writable Fault.not_writable)
            (say (line "backups directory writable" []) w))
      >>> (λ _ w.
          raise_if (unless env.staging_writable Fault.not_writable)
            (say (line "project root writable" []) w))
      >>> (λ _ w.
          raise_if (unless (all_writable env w.root files) Fault.not_writable)
            (say (line "staging area writable" []) w))
      >>> (λ _ w.
          raise_if (unless (has_space env.free files) Fault.disk_full)
            (say (line "all target files writable" (numbered (length files) ∷ [])) w))
      >>> (λ _ w. next tt (if is_some env.free then say (line "free disk space" []) w else w))

  unfoldable pub check_dependencies : Outside C D → List Dependency → Worker C → Worker C
  unfolding update_phase report_missing check_manifest_dependencies dependency_install_command say
  check_dependencies env deps w =
      let missing = check_manifest_dependencies env.present deps in
      on_status
        (λ s. report_missing missing (record (update_phase checking none s) {
          missing_deps = missing;
          deps_install_cmd = dependency_install_command missing;
        }))
        (say (line "[CHECKING DEPENDENCIES]" []) w)

  -- Every file goes into the staging directory; the cap is its declared size with a margin.
  unfoldable pub download : Outside C D → List (ReleaseFile D) → Worker C → Flow C Unit
  unfolding update_phase http_get_bytes say
  download env [] w = next tt w
  download env (f ∷ files) w =
      let w1 = on_status (update_phase downloading none) w in
      elim (http_get_bytes env.size (max (f.bytes + 4096) 8192) (env.serve f.path)) [
        | none ↦ raised Fault.unreachable w1
        | some body ↦ download env files (
            say (line "downloaded" (at_path f.path ∷ numbered (env.size body) ∷ []))
              (record w1 { staging = insert f.path body w1.staging }))
      ]

module _ {C D : Type 0} ⦃k : Key D⦄ where
  -- Whether a file that is there has the digest of the manifest.
  unfoldable pub has_digest : Outside C D → ReleaseFile D → Option C → Bool
  has_digest env f none = false
  has_digest env f (some c) = env.sha256 c == f.sha256

  unfoldable pub verify_staged : Outside C D → List (ReleaseFile D) → Worker C → Flow C Unit
  unfolding has_digest say
  verify_staged env [] w = next tt w
  verify_staged env (f ∷ files) w = elim (has_digest env f (lookup f.path w.staging)) [
    | false ↦ raised Fault.hash_mismatch w
    | true ↦ verify_staged env files (say (line "verified" (at_path f.path ∷ [])) w)
  ]

  unfoldable pub file_compiles : Outside C D → Option C → Bool
  file_compiles env none = false
  file_compiles env (some c) = env.compiles c

  abbrev pub compiles_if_python : Outside C D → ReleaseFile D → Dict String C → Bool
  compiles_if_python env f staging =
      not (ends_with (codes ".py") (codes f.path)) || file_compiles env (lookup f.path staging)

  -- Of the paths that end in `.py`.
  unfoldable pub compile_staged : Outside C D → List (ReleaseFile D) → Worker C → Flow C Unit
  unfolding file_compiles
  compile_staged env [] w = next tt w
  compile_staged env (f ∷ files) w = elim (compiles_if_python env f w.staging) [
    | false ↦ raised Fault.not_compiling w
    | true ↦ compile_staged env files w
  ]

  unfoldable pub download_and_verify : Outside C D → List (ReleaseFile D) → Worker C → Flow C Unit
  unfolding raise_if validate_manifest_paths download verify_staged compile_staged say update_phase
      ◌>>>◌
  download_and_verify env files w =
      raise_if (unless (leb 1 (length files)) Fault.no_files) w
      >>> (λ _ w. raise_if (validate_manifest_paths files) w)
      >>> (λ _ w. download env files (record w { staging = [] }))
      >>> (λ _ w. verify_staged env files (
          on_status (update_phase verifying none)
            (say (line "[VERIFYING] SHA-256" (numbered (length files) ∷ [])) w)))
      >>> (λ _ w. compile_staged env files w)
      >>> (λ _ w.
          let py = keep (λ f. ends_with (codes ".py") (codes f.path)) files in
          next tt
            (if leb 1 (length py) then say (line "compile" (numbered (length py) ∷ [])) w else w))

-- `_prune_backups`: the newest ones stay, and those that cannot be deleted.
unfoldable pub prune_backups :
    {C : Type 0} → (ℕ → Bool) → (kept : ℕ) → List (ℕ × Archive C) → List (ℕ × Archive C)
prune_backups undeletable kept zips =
    let newest = sorted (λ a b. ltb b.0 a.0) zips in
    take kept newest ++ keep (λ z. undeletable z.0) (drop kept newest)

module _ {C D : Type 0} where
  -- The archive, and whether it could be verified.
  unfoldable pub back_up : Outside C D → List (ReleaseFile D) → Worker C → Flow C (Archive C)
  unfolding make_backup prune_backups update_phase update_log_append say
  back_up env files w =
      let w1 = on_status (update_phase backing_up none) (say (line "[BACKING UP]" []) w) in
      let archive = make_backup (paths files) w1.root in
      let zips = (env.backup_time, archive) ∷ w1.backups in
      if env.archive_sound
      then next archive (
          on_status update_log_append
            (record w1 { backups = prune_backups env.undeletable 20 zips }))
      else raised Fault.backup_broken (record w1 { backups = zips })
