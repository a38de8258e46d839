-- ===== src/RateLimit/Threshold.antt =====
-- How the failures of one IP are counted, up to the one that locks it out.
use generatorpi.Base.{
  leb, if◌then◌else◌, Option-cases, length, string_key, ◌==◌, beq_refl, Dict, lookup, insert,
  lookup-insert_self, lookup-erase, length-insert, insert-NodupKeys, ℕ, ◌+◌, ◌<◌, String, ◌≡◌, refl,
  ◌∙◌, inl, inr, none, some, List, [], ◌∷◌, arith,
}
use generatorpi.RateLimit.{
  Limits, Entry, Tracker, oldest, make_room, old_count, failed_entry, record_failure,
  record_success, Call, fail, step, run,
}
use generatorpi.RateLimit.Bounds.{IsValid, make_room-length, record_success-IsValid}

-- Making room for `ip` takes nothing from `ip`.
lookup-make_room :
    (c : Limits) (ip : String) (d d' : Dict String Entry)
    → make_room c ip d ≡ some d'
    → lookup ip d' ≡ lookup ip d
unfolding make_room
lookup-make_room c ip d d' h = elim (Option-cases (oldest d)) [
  | inl q ↦ ground arith
  | inr ((jp, f), q) ↦ ground (arith, lookup-erase ip jp d)
]

-- A failure is the next one of its IP, and locks it out exactly from `max_failures` on.
pub record_failure_counts :
    (c : Limits) (ip : String) (now now' : ℕ) (t : Tracker)
    → 0 < c.max_tracked_ips
    → IsValid c t
    → let n = old_count (lookup ip t.entries) + 1 in
      (t' : Tracker) × (record_failure c ip now now' t ≡ some ((leb c.max_failures n, n), t'))
      × IsValid c t'
      × (old_count (lookup ip t'.entries) ≡ n)
unfolding record_failure failed_entry
record_failure_counts c ip now now' t room v =
    let (d, q, fits, u) = make_room-length c ip t.entries room v.capped v.unique in
    let same = lookup-make_room c ip t.entries d q in
    let e : Entry = failed_entry c now now' (lookup ip d) in
    (
      record t { entries = insert ip e d },
      rw (q, record_failure) (rw same refl),
      record { unique = insert-NodupKeys ip e d u; capped = rw (length-insert ip e d) fits },
      rw (lookup-insert_self ip e d) (rw same refl),
    )

-- Failures of one IP, at the given readings of the clock.
abbrev pub fails : String → List (ℕ × ℕ) → List Call
fails ip [] = []
fails ip ((now, now') ∷ times) = fail ip now now' ∷ fails ip times

run-fails :
    (c : Limits) (ip : String) (times : List (ℕ × ℕ)) (t : Tracker)
    → 0 < c.max_tracked_ips
    → IsValid c t
    → IsValid c (run c (fails ip times) t)
      × (old_count (lookup ip (run c (fails ip times) t).entries)
          ≡ old_count (lookup ip t.entries) + length times)
unfolding run
run-fails c ip [] t room v = (v, omega arith)
run-fails c ip ((now, now') ∷ times) t room v =
    let (t', q, v', counted) = record_failure_counts c ip now now' t room v in
    let stepped : step c (fail ip now now') t ≡ t' = unfold step in rw (q, step) refl in
    let (valid, total) = run-fails c ip times t' room v' in
    (rw (stepped, run) valid, rw (stepped, run) (omega (arith, counted, total)))

-- After n failures in a row, at any times, of an IP that was not tracked, the next one returns the
-- count n + 1, and locks the IP out exactly if n + 1 is at least `max_failures`. The condition is
-- that the cap is not 0; whether other entries had to be evicted does not matter.
lockout_threshold :
    (c : Limits) (ip : String) (times : List (ℕ × ℕ)) (now now' : ℕ) (t : Tracker)
    → 0 < c.max_tracked_ips
    → IsValid c t
    → lookup ip t.entries ≡ none
    → let n = length times + 1 in
      (t' : Tracker) × (record_failure c ip now now' (run c (fails ip times) t)
        ≡ some ((leb c.max_failures n, n), t'))
unfolding old_count
lockout_threshold c ip times now now' t room v fresh =
    let (valid, counted) = run-fails c ip times t room v in
    let total : old_count (lookup ip (run c (fails ip times) t).entries) ≡ length times =
      rw counted (rw fresh (omega arith)) in
    let (t', q, _, _) = record_failure_counts c ip now now' (run c (fails ip times) t) room valid in
    (t', rw total at q)

lookup-record_success :
    (ip jp : String) (t : Tracker)
    → lookup jp (record_success ip t).entries ≡ (if ip == jp then none else lookup jp t.entries)
unfolding record_success
lookup-record_success ip jp t =
    ground (arith, lookup-erase jp ip t.entries, string_key.same_iff ip jp)

-- A success forgets its IP and no other one, so that the next failure counts as the first.
pub record_success_restarts :
    (c : Limits) (ip : String) (now now' : ℕ) (t : Tracker)
    → 0 < c.max_tracked_ips
    → IsValid c t
    → ((jp : String)
        → lookup jp (record_success ip t).entries
          ≡ (if ip == jp then none else lookup jp t.entries))
      × (t' : Tracker) × (record_failure c ip now now' (record_success ip t)
          ≡ some ((leb c.max_failures 1, 1), t'))
unfolding old_count
record_success_restarts c ip now now' t room v =
    let t' : Tracker = record_success ip t in
    let gone : lookup ip t'.entries ≡ none =
      lookup-record_success ip ip t ∙ rw (beq_refl ip) refl in
    let (t'', q, _, _) =
      record_failure_counts c ip now now' t' room (record_success-IsValid c ip t v) in
    (λ jp. lookup-record_success ip jp t, t'', rw gone at q)
