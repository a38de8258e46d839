-- ===== src/Lifecycle/Retries.antt =====
-- How the retries of genpi/lifecycle.py end, and that a restart re-executes the process once.
use generatorpi.Base.{
  if_either, if_true, ℕ, zero, suc, ◌+◌, ◌<◌, ◌≡◌, refl, sym, ap, ◌∙◌, subst, ◌⊎◌, inl, inr, Bool,
  true, false, ◌&&◌, none, some, arith,
}
use generatorpi.Lifecycle.{
  Bind, free, draining, broken, Bound, bound, exhausted, surfaced, bind_retry, Process, Host,
  do_execv, do_restart, while_serving, werkzeug, Ending, raised, run_werkzeug, cheroot,
  serve_werkzeug, after_serving, run_cheroot, serve,
}

abbrev pub is_draining : Bind → Bool
is_draining draining = true
is_draining _ = false

-- So many tries in a row found the port draining.
unfoldable pub drains : (ℕ → Bind) → (attempt count : ℕ) → Bool
drains tries attempt zero = true
drains tries attempt (suc count) = is_draining (tries attempt) && drains tries (attempt + 1) count

-- The verdict fits the try after so many sleeps.
unfoldable pub Fits : (ℕ → Bind) → (left attempt : ℕ) → Bound × ℕ → Type 0
Fits tries left attempt r =
    (drains tries attempt r.1 ≡ true)
    × (((r.0 ≡ bound) × (r.1 < left) × (tries (attempt + r.1) ≡ free))
        ⊎ (((r.0 ≡ surfaced) × (r.1 < left) × (tries (attempt + r.1) ≡ broken))
            ⊎ ((r.0 ≡ exhausted) × (r.1 ≡ left))))

Bind-cases : (b : Bind) → (b ≡ free) ⊎ ((b ≡ draining) ⊎ (b ≡ broken))
Bind-cases free = inl refl
Bind-cases draining = inr (inl refl)
Bind-cases broken = inr (inr refl)

module _ (tries : ℕ → Bind) (left attempt : ℕ) where
  retry_free : tries attempt ≡ free → bind_retry tries (suc left) attempt ≡ (bound, 0)
  unfolding bind_retry
  retry_free q = rw (q, bind_retry) refl

  retry_broken : tries attempt ≡ broken → bind_retry tries (suc left) attempt ≡ (surfaced, 0)
  unfolding bind_retry
  retry_broken q = rw (q, bind_retry) refl

  retry_draining :
      tries attempt ≡ draining
      → bind_retry tries (suc left) attempt
        ≡ ((bind_retry tries left (attempt + 1)).0, suc (bind_retry tries left (attempt + 1)).1)
  unfolding bind_retry
  retry_draining q = rw (q, bind_retry) refl

  at_once : (b : Bind) → tries attempt ≡ b → tries (attempt + 0) ≡ b
  at_once b q = ap tries (let e : attempt + 0 ≡ attempt = omega arith in e) ∙ q

  one_later : (n : ℕ) (b : Bind) → tries (attempt + 1 + n) ≡ b → tries (attempt + suc n) ≡ b
  one_later n b q = ap tries (let e : attempt + suc n ≡ attempt + 1 + n = omega arith in e) ∙ q

  Fits-later :
      (r : Bound × ℕ)
      → tries attempt ≡ draining
      → Fits tries left (attempt + 1) r
      → Fits tries (suc left) attempt (r.0, suc r.1)
  unfolding Fits drains
  Fits-later r q (d, inl (e, l, t)) = (rw q d, inl (e, omega arith, one_later r.1 free t))
  Fits-later r q (d, inr (inl (e, l, t))) =
      (rw q d, inr (inl (e, omega arith, one_later r.1 broken t)))
  Fits-later r q (d, inr (inr (e, l))) = (rw q d, inr (inr (e, ap suc l)))

bind_retry-Fits :
    (tries : ℕ → Bind) (left attempt : ℕ) → Fits tries left attempt (bind_retry tries left attempt)
unfolding Fits bind_retry drains
bind_retry-Fits tries zero attempt = (refl, inr (inr (refl, refl)))
bind_retry-Fits tries (suc left) attempt = elim (Bind-cases (tries attempt)) [
  | inl q ↦
      subst (Fits tries (suc left) attempt) (sym (retry_free tries left attempt q))
        (refl, inl (refl, omega arith, at_once tries left attempt free q))
  | inr (inl q) ↦
      subst (Fits tries (suc left) attempt) (sym (retry_draining tries left attempt q)) (
        Fits-later tries left attempt (bind_retry tries left (attempt + 1)) q
          (bind_retry-Fits tries left (attempt + 1)))
  | inr (inr q) ↦
      subst (Fits tries (suc left) attempt) (sym (retry_broken tries left attempt q))
        (refl, inr (inl (refl, omega arith, at_once tries left attempt broken q)))
]

-- However the port behaves, binding it ends within ten tries: every try before the last one found the port
-- draining, and the loop either binds at a try that found it free, or passes on the error of a try
-- that found another one, or gives up after ten tries that all found it draining.
pub binding_ends : (tries : ℕ → Bind) → Fits tries 10 0 (bind_retry tries 10 0)
binding_ends tries = bind_retry-Fits tries 10 0

-- Either the server never ran, or the process was re-executed once.
abbrev RestartsOnce : Process → Ending × Process → Type 0
RestartsOnce p r = (r.0 ≡ raised) ⊎ ((r.1.execs ≡ p.execs + 1) × (r.1.server ≡ none))

module _ (host : Host) (p : Process) (r : host.restarts ≡ true) where
  run_werkzeug-RestartsOnce : (b : Bound) → RestartsOnce p (run_werkzeug host b p)
  unfolding run_werkzeug while_serving do_restart do_execv
  run_werkzeug-RestartsOnce bound = inr (
    ap (λ w. w.execs)
        (if_true host.restarts (do_restart (some werkzeug) (record p { server = some werkzeug }))
          (record p { server = some werkzeug }) r),
    refl,
  )
  run_werkzeug-RestartsOnce exhausted = inl refl
  run_werkzeug-RestartsOnce surfaced = inl refl

  served :
      while_serving host (record p { server = some cheroot })
      ≡ record p { server = some cheroot; restart_requested = true }
  unfolding while_serving do_restart
  served = if_true host.restarts _ _ r

  run_cheroot-RestartsOnce : (b : Bound) → RestartsOnce p (run_cheroot host b p)
  unfolding run_cheroot after_serving do_execv
  run_cheroot-RestartsOnce bound =
      if_either (RestartsOnce p) host.prepares
        (inr (
          ap (λ w. (after_serving (record w { server = none })).execs) served,
          ap (λ w. (after_serving (record w { server = none })).server) served,
        ))
        (inl refl)
  run_cheroot-RestartsOnce exhausted = inl refl
  run_cheroot-RestartsOnce surfaced = inl refl

  -- If a restart is scheduled while the server serves, then the process is re-executed exactly once, with
  -- either server, and no server is left behind; or the server could not be started. The condition is
  -- that the restart is scheduled.
  serve-RestartsOnce : RestartsOnce p (serve host p)
  unfolding serve serve_werkzeug
  serve-RestartsOnce =
      if_either (RestartsOnce p) host.has_cheroot
        (run_cheroot-RestartsOnce (bind_retry host.tries 10 0).0)
        (run_werkzeug-RestartsOnce (bind_retry host.tries 10 0).0)
