-- ===== src/Update/Ends.antt =====
-- The run of genpi/updater.py as a whole: how it ends, and what each end means for the files.
use generatorpi.Base.{
  Key, lookup, ℕ, String, ◌≡◌, refl, ap, ◌∙◌, ◌≢◌, ◌⊎◌, inl, inr, false, Option, none, some, [],
  string_key,
}
use generatorpi.Update.{Tree, Archive, rollback}
use generatorpi.Update.Worker.{
  Worker, Outside, ask, say, Flow, next, raised, ended, by_service, in_process,
}
use generatorpi.Update.Intact.{Intact, Over, Leaves}
use generatorpi.Update.Settled.{Restorable, Installed, Consent}
use generatorpi.Update.Status.{update_phase, restarting, failed, line}
use generatorpi.Release.Manifest.{Fault}
use generatorpi.Update.Reached.{Restarts, run_stages-Restarts}
use generatorpi.Update.Run.{landed, recover, undo, tell_time, run_update, begun, run_stages}

module _ {C D : Type 0} ⦃k : Key D⦄ (env : Outside C D) (root : Tree C) (n : ℕ) where
  -- Nothing is lost, and the run is over.
  pub Fails : Worker C → Type 0
  Fails w =
      (w.status.phase ≡ failed)
      × (w.restart ≡ none)
      × ((x : String) → ((p : String) → env.temp p ≢ x) → lookup x w.root ≡ lookup x root)

  tell_time-root :
      (t : Option ℕ) (w : Worker C)
      → ((tell_time t w).root ≡ w.root) × ((tell_time t w).restart ≡ w.restart)
  unfolding tell_time say
  tell_time-root none w = (refl, refl)
  tell_time-root (some t) w = (refl, refl)

  undo-root :
      (o : Option (Archive C)) (w : Worker C)
      → ((undo env o w).root
          ≡ (elim o [ none ↦ w.root | some archive ↦ rollback env.usual archive w.root ]))
        × ((undo env o w).restart ≡ w.restart)
  unfolding undo say
  undo-root none w = (refl, refl)
  undo-root (some archive) w = (refl, refl)

  recover-Fails : (e : Fault) (w : Worker C) → Restorable env root w → Fails (recover env e w)
  unfolding Restorable Fails recover ask say update_phase
  recover-Fails e w (s, h) =
      let w1 = (ask env false false (say (line "[ERROR]" []) w)).1 in
      let w2 = record (undo env w1.rollback_point w1) { staging = [] } in
      let (r, q) = tell_time-root w2.t_apply w2 in
      let (r', q') = undo-root w1.rollback_point w1 in
      (refl, q ∙ q' ∙ s, (λ x fresh. ap (lookup x) (r ∙ r') ∙ h x fresh))

  landed-ends :
      (x : Flow C Unit)
      → Leaves (λ _. Restarts env root n) (λ _. Restorable env root) (Over root n) x
      → Fails (landed env x) ⊎ Restarts env root n (landed env x)
  unfolding Leaves landed Over
  landed-ends (next a w) h = inr h
  landed-ends (raised e w) h = inl (recover-Fails e w h)
  landed-ends (ended w) (p, s, r) = inl (unfold Fails in (p, s, (λ x fresh. ap (lookup x) r)))

  run_update-ends :
      (w : Worker C)
      → w.restart ≡ none
      → w.root ≡ root
      → w.waits ≡ n
      → Fails (run_update env w) ⊎ Restarts env root n (run_update env w)
  unfolding run_update Intact begun
  run_update-ends w s r e =
      landed-ends (run_stages env (begun w))
        (run_stages-Restarts env root n (begun w) (r, refl, s, e))

-- Whatever GitHub sends, the disk does and the users answer, a run that starts without a restart pending
-- ends, either failed with no restart pending, or restarting with the service's script or the process
-- itself about to start over.
pub run_settles :
    {C D : Type 0} ⦃k : Key D⦄ (env : Outside C D) (w : Worker C)
    → w.restart ≡ none
    → (((run_update env w).status.phase ≡ failed) × ((run_update env w).restart ≡ none))
      ⊎ (((run_update env w).status.phase ≡ restarting)
          × (((run_update env w).restart ≡ some by_service)
              ⊎ ((run_update env w).restart ≡ some in_process)))
unfolding Fails Restarts Installed
run_settles env w s = elim (run_update-ends env w.root w.waits w s refl refl) [
  | inl (p, r, _) ↦ inl (p, r)
  | inr (p, _, (_, _, _, _, inl (r, _))) ↦ inr (p, inl r)
  | inr (p, _, (_, _, _, _, inr (r, _))) ↦ inr (p, inr r)
]

-- A run that does not come to a restart has put back everything: wherever it failed, every path holds
-- what it held before the run. The conditions are that no restart was pending, and that the path is not
-- a temporary name of the swap.
pub failed_run_restores :
    {C D : Type 0} ⦃k : Key D⦄ (env : Outside C D) (w : Worker C) (x : String)
    → w.restart ≡ none
    → (run_update env w).restart ≡ none
    → ((p : String) → env.temp p ≢ x)
    → lookup x (run_update env w).root ≡ lookup x w.root
unfolding Fails Restarts Installed
failed_run_restores env w x s r' fresh = elim (run_update-ends env w.root w.waits w s refl refl) [
  | inl (_, _, h) ↦ h x fresh
  | inr (_, _, (_, _, _, _, inl (r, _))) ↦ absurd (cc)
  | inr (_, _, (_, _, _, _, inr (r, _))) ↦ absurd (cc)
]

-- A run comes to a restart only with a verified release and the consent of a user: the first prompt was
-- answered with proceed after it opened; the manifest is the one that GitHub sends, and its paths are
-- safe; every staged file has its digest and compiles; and where the process starts itself over, every
-- file of the release stands under the root with its digest, while the service's script is started over
-- files that are still the old ones. The condition is that no restart was pending.
pub restart_is_verified :
    {C D : Type 0} ⦃k : Key D⦄ (env : Outside C D) (w : Worker C)
    → w.restart ≡ none
    → (run_update env w).restart ≢ none
    → Consent env w.waits × Installed env w.root (run_update env w)
unfolding Fails Restarts
restart_is_verified env w s going = elim (run_update-ends env w.root w.waits w s refl refl) [
  | inl (_, r, _) ↦ absurd (going r)
  | inr (_, c, i) ↦ (c, i)
]
