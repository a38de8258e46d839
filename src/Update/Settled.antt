-- ===== src/Update/Settled.antt =====
-- How a run of genpi/updater.py ends.
use generatorpi.Base.{
  Bool-cases, if_either, length, take, All, Key, Dict, lookup, ℕ, String, ◌≡◌, refl, sym, ap, ◌∙◌,
  subst, ◌≢◌, ◌⊎◌, inl, inr, Bool, true, false, Option, none, some, List, [], ◌∷◌, ◌++◌, string_key,
}
use generatorpi.Update.{Tree, make_backup, rollback, interrupted_swap, swap, Archive}
use generatorpi.Update.Worker.{
  Worker, Outside, Flow, say, by_service, in_process, raise_if, next, on_status, ◌>>>◌,
}
use generatorpi.Update.Stages.{has_digest, paths}
use generatorpi.Update.Apply.{
  content_at, hand_over, replaced, verify_live, swap_in, write_update_result, relaunch,
}
use generatorpi.Update.Intact.{Intact, Over, Leaves, IsVerified, IsOffered, Leaves-map, Leaves-bind}
use generatorpi.Update.Decision.{last_choice, has_notify}
use generatorpi.Update.Status.{proceed, restarting, at_path, line, update_phase, stage_summary}
use generatorpi.Release.Manifest.{Manifest, validate_manifest_paths, ReleaseFile, Fault}
use generatorpi.Update.Restore.{rollback_restores}

take_all : {A : Type 0} (xs : List A) → take (length xs) xs ≡ xs
take_all [] = refl
take_all (x ∷ xs) = ap (λ l. x ∷ l) (take_all xs)

All-every : {A : Type 0} {P : A → Type 0} → ((x : A) → P x) → (xs : List A) → All P xs
All-every f [] = tt
All-every f (x ∷ xs) = (f x, All-every f xs)

module _ {C D : Type 0} (env : Outside C D) where
  -- The files after the rollback that is armed.
  abbrev pub undone : Worker C → Tree C
  undone w = elim (w.rollback_point) [
    | none ↦ w.root
    | some archive ↦ rollback env.usual archive w.root
  ]

  -- A failure here loses nothing.
  unfoldable pub Restorable : Tree C → Worker C → Type 0
  Restorable root w =
      (w.restart ≡ none)
      × ((x : String) → ((p : String) → env.temp p ≢ x) → lookup x (undone w) ≡ lookup x root)

  -- The user told the n-th prompt to proceed, after it had opened.
  unfoldable pub Consent : ℕ → Type 0
  Consent n =
      (has_notify (env.acts n).1 ≡ true)
      × (last_choice ((env.acts n).0 ++ ((env.acts n).1 ++ (env.acts n).2)) ≡ some proceed)

  unfoldable pub Installed : ⦃k : Key D⦄ → Tree C → Worker C → Type 0
  Installed root w =
      (m : Manifest D) × IsOffered env m
      × (validate_manifest_paths m.files ≡ none)
      × IsVerified env m.files w.staging
      × (((w.restart ≡ some by_service) × (w.root ≡ root))
          ⊎ ((w.restart ≡ some in_process)
              × All (λ f. has_digest env f (content_at f.path w.root) ≡ true) m.files))

module _ {C D : Type 0} ⦃k : Key D⦄ (env : Outside C D) (root : Tree C) (n : ℕ) where
  -- After the go-ahead.
  unfoldable pub GoesOn : (Worker C → Type 0) → Flow C Unit → Type 0
  GoesOn Q = Leaves (λ _. Q) (λ _. Restorable env root) (Over root n)

  GoesOn-bind :
      (Q P : Worker C → Type 0) (x : Flow C Unit) (f : Unit → Worker C → Flow C Unit)
      → GoesOn Q x
      → ((a : Unit) (w : Worker C) → Q w → GoesOn P (f a w))
      → GoesOn P (x >>> f)
  unfolding GoesOn
  GoesOn-bind Q P x f h k =
      Leaves-bind (λ _. Q) (λ _. P) (λ _. Restorable env root) (Over root n) x f h k

  GoesOn-map :
      (Q P : Worker C → Type 0)
      → ((w : Worker C) → Q w → P w)
      → (x : Flow C Unit) → GoesOn Q x
      → GoesOn P x
  unfolding GoesOn
  GoesOn-map Q P f =
      Leaves-map (λ _. Q) (λ _. P) (λ _. Restorable env root) (Over root n) (λ a w q. f w q)

  pub untouched-Restorable : (w : Worker C) → Intact root n w → Restorable env root w
  unfolding Intact Restorable
  untouched-Restorable w (r, p, s, _) = (s, (λ x fresh. rw p (rw r refl)))

  unfoldable pub Handed : Dict String C → Worker C → Type 0
  Handed staging w =
      (w.status.phase ≡ restarting)
      × (w.restart ≡ some by_service)
      × (w.root ≡ root)
      × (w.staging ≡ staging)

  pub hand_over-Handed :
      (w : Worker C) → Intact root n w → GoesOn (Handed w.staging) (hand_over env w)
  unfolding GoesOn Leaves hand_over Handed Intact Restorable say update_phase
  hand_over-Handed w i =
      if_either (GoesOn (Handed w.staging)) env.launches (refl, refl, i.0, refl)
        (untouched-Restorable w i)

  swap-undone :
      (dies : Option (ℕ × Bool)) (staging : Dict String C) (ps : List String) (x : String)
      → ((p : String) → env.temp p ≢ x)
      → lookup x (rollback env.usual (make_backup ps root) (replaced env dies staging ps root).1)
        ≡ lookup x root
  unfolding replaced interrupted_swap
  swap-undone none staging ps x fresh =
      subst
        (λ qs.
          lookup x
            (rollback env.usual (make_backup ps root) (swap env.temp env.usual staging qs root).1)
          ≡ lookup x root)
        (take_all ps)
        (rollback_restores env.temp env.usual staging ps root (length ps) false x
          (All-every fresh ps))
  swap-undone (some (n, half)) staging ps x fresh =
      rollback_restores env.temp env.usual staging ps root n half x (All-every fresh ps)

  -- The swap has run, wholly or in part, and the rollback is armed.
  pub Swapped : Dict String C → List (ReleaseFile D) → Worker C → Type 0
  Swapped staging files w =
      (w.restart ≡ none)
      × (w.rollback_point ≡ some (make_backup (paths files) root))
      × (w.root ≡ (replaced env env.swap_dies staging (paths files) root).1)
      × (w.staging ≡ staging)

  Swapped-Restorable :
      (staging : Dict String C) (files : List (ReleaseFile D)) (w : Worker C)
      → Swapped staging files w
      → Restorable env root w
  unfolding Swapped Restorable
  Swapped-Restorable staging files w (s, p, r, _) =
      (s, (λ x fresh. rw p (rw r (swap-undone env.swap_dies staging (paths files) x fresh))))

  pub Live : Dict String C → List (ReleaseFile D) → Worker C → Type 0
  Live staging files w =
      Swapped staging files w × All (λ f. has_digest env f (content_at f.path w.root) ≡ true) files

  verify_live-leaves :
      (staging : Dict String C) (all files : List (ReleaseFile D)) (w : Worker C)
      → Swapped staging all w
      → GoesOn
          (λ w'.
            Swapped staging all w'
            × (w'.root ≡ w.root)
            × All (λ f. has_digest env f (content_at f.path w.root) ≡ true) files)
          (verify_live env files w)
  unfolding GoesOn Leaves Swapped verify_live say
  verify_live-leaves staging all [] w h = (h, refl, tt)
  verify_live-leaves staging all (f ∷ files) w h =
      elim (Bool-cases (has_digest env f (content_at f.path w.root))) [
        | inl good ↦
            let w1 = say (line "live" (at_path f.path ∷ [])) w in
            rw (good, verify_live)
              (GoesOn-map _ _ (λ w' (h, r, all). (h, r, (refl, all))) (verify_live env files w1)
                (verify_live-leaves staging all files w1 h))
        | inr bad ↦ rw (bad, verify_live) (Swapped-Restorable staging all w h)
      ]

  verify_live-Live :
      (staging : Dict String C) (files : List (ReleaseFile D)) (w : Worker C)
      → Swapped staging files w
      → GoesOn (Live staging files) (verify_live env files w)
  unfolding Live
  verify_live-Live staging files w h =
      GoesOn-map _ (Live staging files) (λ w' (h, r, all). (h, rw r all)) (verify_live env files w)
        (verify_live-leaves staging files files w h)

  raise_if-Swapped :
      (staging : Dict String C) (files : List (ReleaseFile D)) (e : Option Fault) (w : Worker C)
      → Swapped staging files w
      → GoesOn (Swapped staging files) (raise_if e w)
  unfolding GoesOn Leaves raise_if
  raise_if-Swapped staging files none w h = h
  raise_if-Swapped staging files (some e) w h = Swapped-Restorable staging files w h

  unfoldable pub Relaunched : Dict String C → List (ReleaseFile D) → Worker C → Type 0
  Relaunched staging files w =
      (w.status.phase ≡ restarting)
      × (w.restart ≡ some in_process)
      × (w.staging ≡ staging)
      × All (λ f. has_digest env f (content_at f.path w.root) ≡ true) files

  write_update_result-root :
      (m : Manifest D) (w : Worker C)
      → ((write_update_result env m w).root ≡ w.root)
        × ((write_update_result env m w).staging ≡ w.staging)
  unfolding write_update_result
  write_update_result-root m w =
      if_either (λ (w' : Worker C). (w'.root ≡ w.root) × (w'.staging ≡ w.staging)) env.writes_result
        (refl, refl) (refl, refl)

  relaunch-Relaunched :
      (m : Manifest D) (staging : Dict String C) (w : Worker C)
      → Live staging m.files w
      → GoesOn (Relaunched staging m.files) (next tt (relaunch env m w))
  unfolding GoesOn Leaves Live Relaunched relaunch Swapped update_phase say
  relaunch-Relaunched m staging w ((_, _, _, s), all) =
      let (r, d) = write_update_result-root m (
        say (line "releasing the listening socket" [])
          (say (line "[RESTARTING] in-process re-exec" []) (on_status (stage_summary 2) w))) in
      (
        refl,
        refl,
        d ∙ s,
        subst (λ t. All (λ f. has_digest env f (content_at f.path t) ≡ true) m.files) (sym r) all,
      )

  pub swap_in-Relaunched :
      (m : Manifest D) (archive : Archive C) (w : Worker C)
      → Intact root n w
      → archive ≡ make_backup (paths m.files) root
      → GoesOn (Relaunched w.staging m.files) (swap_in env m archive w)
  unfolding swap_in Intact say update_phase Swapped
  swap_in-Relaunched m archive w (r, p, s, _) a =
      let staging = w.staging in
      GoesOn-bind (Live staging m.files) (Relaunched staging m.files) _ _
        (GoesOn-bind (Swapped staging m.files) (Live staging m.files) _ _
          (raise_if-Swapped staging m.files _ _ (
            s,
            ap some a,
            ap (λ t. (replaced env env.swap_dies staging (paths m.files) t).1) r,
            refl,
          ))
          (λ _ w h. verify_live-Live staging m.files _ h))
        (λ _ w h. relaunch-Relaunched m staging w h)
