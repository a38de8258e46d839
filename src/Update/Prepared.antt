-- ===== src/Update/Prepared.antt =====
-- What has been established when genpi/updater.py asks for the go-ahead: verified files are staged, and
-- the old ones are backed up.
use generatorpi.Base.{
  leb, Bool-cases, if_either, length, keep, All, Key, lookup, codes, ends_with, ℕ, ◌≡◌, refl, sym,
  ap, subst, inl, inr, true, List, [], ◌∷◌, string_key,
}
use generatorpi.Update.{Tree, make_backup, Archive}
use generatorpi.Update.Worker.{Worker, Outside, say}
use generatorpi.Update.Stages.{
  paths, download_and_verify, back_up, unless, has_digest, check_dependencies,
}
use generatorpi.Update.Intact.{
  Intact, Careful, Anything, Careful-bind, Leaves, IsVerified, raise_if-Careful, download-Careful,
  Careful-map, verify_staged-Careful, compile_staged-Careful, preflight-Careful,
}
use generatorpi.Release.Manifest.{ReleaseFile, Fault, validate_manifest_paths, Manifest}
use generatorpi.Update.Status.{line, numbered}
use generatorpi.Update.Admit.{prepare}

module _ {C D : Type 0} ⦃k : Key D⦄ (env : Outside C D) (root : Tree C) (n : ℕ) where
  download_and_verify-Careful :
      (files : List (ReleaseFile D)) (w : Worker C)
      → Intact root n w
      → Careful root n (λ _ w. IsVerified env files w.staging) (download_and_verify env files w)
  unfolding Careful Leaves download_and_verify Intact say
  download_and_verify-Careful files w i =
      let go = raise_if-Careful root n (Anything tt) in
      let bind = Careful-bind root n Anything Anything in
      let P : Unit → Worker C → Type 0 = (λ _ w. IsVerified env files w.staging) in
      let R : Unit → Worker C → Type 0 =
        (λ _ w. All (λ f. has_digest env f (lookup f.path w.staging) ≡ true) files) in
      Careful-bind root n P P _ _
        (Careful-bind root n R P _ _
          (Careful-bind root n Anything R _ _
            (bind _ _
              (bind _ _ (go (unless (leb 1 (length files)) Fault.no_files) w i tt)
                (λ _ w i _. go (validate_manifest_paths files) w i tt))
              (λ _ w i _. download-Careful env root n files _ i))
            (λ _ w i _.
              Careful-map root n
                (λ _ w' (s, all).
                  subst (λ d. All (λ f. has_digest env f (lookup f.path d) ≡ true) files) (sym s)
                    all)
                _ (verify_staged-Careful env root n files _ i)))
          (λ _ w i r.
            Careful-map root n (λ _ w' (s, all). subst (λ v. P tt v) (sym s) (r, all)) _
              (compile_staged-Careful env root n files w i)))
        (λ _ w i p.
          let py = keep (λ f. ends_with (codes ".py") (codes f.path)) files in
          if_either (λ w. Intact root n w × IsVerified env files w.staging) (leb 1 (length py))
            {x = say (line "compile" (numbered (length py) ∷ [])) w} {y = w} (i, p) (i, p))

  back_up-Careful :
      (files : List (ReleaseFile D)) (w : Worker C)
      → Intact root n w
      → Careful root n
          (λ archive w'. (archive ≡ make_backup (paths files) root) × (w'.staging ≡ w.staging))
          (back_up env files w)
  unfolding Careful Leaves back_up Intact say
  back_up-Careful files w i = elim (Bool-cases env.archive_sound) [
    | inl fine ↦ rw fine (i, (ap (make_backup (paths files)) i.0, refl))
    | inr broken ↦ rw broken i
  ]

  pub prepare-Careful :
      (m : Manifest D) (w : Worker C)
      → Intact root n w
      → Careful root n
          (λ archive w.
            (archive ≡ make_backup (paths m.files) root) × IsVerified env m.files w.staging)
          (prepare env m w)
  unfolding Careful Leaves prepare Intact say check_dependencies
  prepare-Careful m w i =
      let V : Unit → Worker C → Type 0 = (λ _ w. IsVerified env m.files w.staging) in
      let A : Archive C → Worker C → Type 0 = (λ archive w.
        (archive ≡ make_backup (paths m.files) root) × IsVerified env m.files w.staging) in
      Careful-bind root n A A _ _
        (Careful-bind root n V A _ _
          (Careful-bind root n Anything V _ _ (preflight-Careful env root n m.files _ i)
            (λ _ w i _. download_and_verify-Careful m.files _ i))
          (λ _ w i v.
            Careful-map root n (λ _ w' (a, s). (a, subst (λ d. IsVerified env m.files d) (sym s) v))
              _ (back_up-Careful m.files w i)))
        (λ archive w i a. (i, a))
