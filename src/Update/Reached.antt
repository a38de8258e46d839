-- ===== src/Update/Reached.antt =====
-- The stages of a run of genpi/updater.py put together, up to its restart.
use generatorpi.Base.{
  if◌then◌else◌, Key, Dict, ℕ, ◌+◌, String, ◌≡◌, refl, sym, ap, ◌∙◌, subst, ◌⊎◌, inl, inr, Bool,
  true, false, Option, none, some, string_key,
}
use generatorpi.Update.{Tree, Archive, make_backup}
use generatorpi.Update.Worker.{
  Worker, Outside, ask, enter, SkipReason, say, Flow, next, raised, ended, ◌>>>◌,
}
use generatorpi.Update.Admit.{confirm, contact, gate}
use generatorpi.Update.Intact.{
  Intact, Over, Leaves, Leaves-map, IsVerified, IsOffered, Leaves-bind, Careful, contact-Careful,
  Careful-bind, Careful-map, validate-Careful, gate_on-Careful,
}
use generatorpi.Update.Settled.{
  Restorable, Consent, Installed, GoesOn, untouched-Restorable, Handed, hand_over-Handed,
  Relaunched, swap_in-Relaunched,
}
use generatorpi.Update.Decision.{await_decision_exact, or_revert, allow_last, allowed}
use generatorpi.Update.Status.{Choice, proceed, revert, update_phase, staged, restarting}
use generatorpi.Update.Apply.{apply_by, hand_over, swap_in, apply_update}
use generatorpi.Release.Manifest.{Manifest, validate_manifest_paths}
use generatorpi.Update.Stages.{paths}
use generatorpi.Update.Run.{run_stages}
use generatorpi.Update.Prepared.{prepare-Careful}

Choice-cases : (c : Choice) → (c ≡ proceed) ⊎ (c ≡ revert)
Choice-cases proceed = inl refl
Choice-cases revert = inr refl

consent_of :
    (b : Bool) (o : Option Choice)
    → (if b then or_revert (allow_last true none o) else revert) ≡ proceed
    → (b ≡ true) × (o ≡ some proceed)
unfolding or_revert allowed
consent_of true (some proceed) h = (refl, refl)
consent_of true (some revert) h = absurd (cc)
consent_of true none h = absurd (cc)
consent_of false o h = absurd (cc)

module _ {C D : Type 0} (env : Outside C D) (root : Tree C) (n : ℕ) where
  ask-Consent : (w : Worker C) → w.waits ≡ n → (ask env true false w).0 ≡ proceed → Consent env n
  unfolding ask Consent
  ask-Consent w e h = subst (Consent env) e (
      consent_of _ _ (
        sym (
          await_decision_exact true false (env.acts w.waits).0 (env.acts w.waits).1
            (env.acts w.waits).2 w.status)
        ∙ h))

  Agreed : Dict String C → Worker C → Type 0
  Agreed staging w = Intact root (n + 1) w × (w.staging ≡ staging) × Consent env n

  confirm-Agreed :
      (w : Worker C)
      → Intact root n w
      → Leaves (λ _. Agreed w.staging) (λ _. Restorable env root) (Over root n) (confirm env w)
  unfolding Leaves confirm Agreed Intact Over ask say update_phase
  confirm-Agreed w (r, p, s, e) = elim (Choice-cases (ask env true false (enter staged w)).0) [
    | inl q ↦ rw (q, confirm) ((r, p, s, ap (λ k. k + 1) e), refl, ask-Consent (enter staged w) e q)
    | inr q ↦ rw (q, confirm) (refl, s, r)
  ]

module _ {C D : Type 0} ⦃k : Key D⦄ (env : Outside C D) (root : Tree C) (n : ℕ) where
  -- The run has come to a restart.
  unfoldable pub Restarts : Worker C → Type 0
  Restarts w = (w.status.phase ≡ restarting) × Consent env n × Installed env root w

  apply_by-Restarts :
      (o : Option SkipReason) (m : Manifest D) (archive : Archive C) (w : Worker C)
      → IsOffered env m
      → validate_manifest_paths m.files ≡ none
      → archive ≡ make_backup (paths m.files) root
      → IsVerified env m.files w.staging
      → Intact root (n + 1) w
      → Consent env n
      → Leaves (λ _. Restarts) (λ _. Restorable env root) (Over root n) (apply_by env o m archive w)
  unfolding apply_by Restarts Installed GoesOn Over Handed Relaunched
  apply_by-Restarts none m archive w offered valid a v i c =
      Leaves-map (λ _. Handed env root (n + 1) w.staging) (λ _. Restarts) (λ _. Restorable env root)
        (Over root n)
        (λ _ w' (p, r, t, s).
          (p, c, (m, offered, valid, subst (IsVerified env m.files) (sym s) v, inl (r, t))))
        (hand_over env w) (hand_over-Handed env root (n + 1) w i)
  apply_by-Restarts (some reason) m archive w offered valid a v i c =
      Leaves-map (λ _. Relaunched env root (n + 1) w.staging m.files) (λ _. Restarts)
        (λ _. Restorable env root) (Over root n)
        (λ _ w' (p, r, s, all).
          (p, c, (m, offered, valid, subst (IsVerified env m.files) (sym s) v, inr (r, all))))
        (swap_in env m archive w) (swap_in-Relaunched env root (n + 1) m archive w i a)

  prepared-Restarts :
      (m : Manifest D) (w : Worker C)
      → IsOffered env m
      → validate_manifest_paths m.files ≡ none
      → (archive : Archive C)
      → (archive ≡ make_backup (paths m.files) root) × IsVerified env m.files w.staging
      → Intact root n w
      → Leaves
          (λ _. Restarts)
          (λ _. Restorable env root)
          (Over root n)
          (confirm env w >>> (λ _ w. apply_update env m archive w))
  unfolding apply_update Agreed
  prepared-Restarts m w offered valid archive (a, v) i =
      let A : Unit {0} → Worker C → Type 0 = (λ _. Agreed env root n w.staging) in
      let Z : Unit {0} → Worker C → Type 0 = (λ _. Restarts) in
      Leaves-bind A Z (λ _. Restorable env root) (Over root n) (confirm env w)
        (λ _ w. apply_update env m archive w) (confirm-Agreed env root n w i)
        (λ _ w' (i', s, c).
          apply_by-Restarts _ m archive w' offered valid a
            (subst (IsVerified env m.files) (sym s) v) i' c)

  Careful-Leaves :
      {A : Type 0} (Q : A → Worker C → Type 0) (x : Flow C A) (f : A → Worker C → Flow C Unit)
      → Careful root n Q x
      → ((a : A) (w : Worker C)
          → Intact root n w
          → Q a w
          → Leaves (λ _. Restarts) (λ _. Restorable env root) (Over root n) (f a w))
      → Leaves (λ _. Restarts) (λ _. Restorable env root) (Over root n) (x >>> f)
  unfolding Careful Leaves ◌>>>◌
  Careful-Leaves Q (next a w) f (i, q) k = k a w i q
  Careful-Leaves Q (raised e w) f h k = untouched-Restorable env root n w h
  Careful-Leaves Q (ended w) f h k = h

  pub run_stages-Restarts :
      (w : Worker C)
      → Intact root n w
      → Leaves (λ _. Restarts) (λ _. Restorable env root) (Over root n) (run_stages env w)
  unfolding run_stages gate
  run_stages-Restarts w i =
      Careful-Leaves (λ m _. IsOffered env m) (contact env w) _ (contact-Careful env root n w i)
        (λ m w i offered.
          let V : Unit {0} → Worker C → Type 0 = (λ _ _. validate_manifest_paths m.files ≡ none) in
          let P : Archive C → Worker C → Type 0 = (λ archive w.
            (archive ≡ make_backup (paths m.files) root) × IsVerified env m.files w.staging) in
          let VP : Archive C → Worker C → Type 0 = (λ archive w. V tt w × P archive w) in
          Careful-Leaves VP _ _
            (Careful-bind root n V VP _ _
              (Careful-bind root n V V _ _ (validate-Careful env root n m w i) (λ _ w i v.
                Careful-map root n (λ _ w' _. v) _ (gate_on-Careful env root n m _ w i)))
              (λ _ w i v.
                Careful-map root n (λ _ w' p. (v, p)) _ (prepare-Careful env root n m w i)))
            (λ archive w i (v, p). prepared-Restarts m w offered v archive p i))
