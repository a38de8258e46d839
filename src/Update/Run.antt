-- ===== src/Update/Run.antt =====
-- `_run_update` of genpi/updater.py as a whole, with the handler of its exceptions. A rollback that itself
-- fails is left out.
use generatorpi.Base.{Key, ℕ, false, Option, none, some, [], string_key}
use generatorpi.Update.Status.{line, update_phase, failed, fresh_run}
use generatorpi.Update.Worker.{
  Worker, Outside, Flow, next, raised, ended, ◌>>>◌, on_status, say, ask,
}
use generatorpi.Release.Manifest.{Fault}
use generatorpi.Update.{Archive, rollback}
use generatorpi.Update.Admit.{contact, validate, gate, prepare, confirm}
use generatorpi.Update.Apply.{apply_update}

unfoldable pub tell_time : {C : Type 0} → Option ℕ → Worker C → Worker C
unfolding say
tell_time none w = w
tell_time (some t) w = say (line "Update failed after" []) w

unfoldable pub begun : {C : Type 0} → Worker C → Worker C
unfolding fresh_run
begun w = record (on_status fresh_run w) { rollback_point = none; t_apply = none }

module _ {C D : Type 0} where
  unfoldable pub run_stages : ⦃k : Key D⦄ → Outside C D → Worker C → Flow C Unit
  unfolding contact validate gate prepare confirm apply_update
  run_stages env w = contact env w >>> (λ m w.
      validate env m w
      >>> (λ _ w. gate env m w)
      >>> (λ _ w. prepare env m w)
      >>> (λ archive w. confirm env w >>> (λ _ w. apply_update env m archive w)))

  -- The rollback, if it is armed.
  unfoldable pub undo : Outside C D → Option (Archive C) → Worker C → Worker C
  unfolding rollback say
  undo env none w = w
  undo env (some archive) w = record (say (line "[ROLLBACK]" []) w) {
    root = rollback env.usual archive w.root;
  }

  -- The handler of every exception.
  unfoldable pub recover : Outside C D → Fault → Worker C → Worker C
  unfolding ask undo tell_time say update_phase
  recover env e w =
      let w1 = (ask env false false (say (line "[ERROR]" []) w)).1 in
      let w2 = record (undo env w1.rollback_point w1) { staging = [] } in
      on_status (update_phase failed (some e))
        (say (line "[REVERTED]" []) (tell_time w2.t_apply w2))

  unfoldable pub landed : Outside C D → Flow C Unit → Worker C
  unfolding recover
  landed env (next a w) = w
  landed env (ended w) = w
  landed env (raised e w) = recover env e w

  unfoldable pub run_update : ⦃k : Key D⦄ → Outside C D → Worker C → Worker C
  unfolding run_stages begun landed
  run_update env w = landed env (run_stages env (begun w))
