-- ===== src/RateLimit/Lockout.antt =====
-- What a locked-out IP meets: the count that locks it, and how long the lock holds.
use generatorpi.Base.{
  leb, le→leb, length, All, string_key, Dict, lookup, insert, lookup-insert, lookup-insert_self,
  lookup-erase, length-insert, length-erase_le, ℕ, ◌+◌, ◌-◌, ◌≤◌, ◌<◌, String, ◌≡◌, refl, ap, ◌≢◌,
  true, false, Option, none, some, List, [], ◌∷◌, arith,
}
use generatorpi.RateLimit.{
  Limits, Entry, Tracker, is_expired, is_stale, purge, cleanup_tracker, check_lock,
  remaining_lockout, is_rate_limited, make_room, failed_entry, record_failure, record_success, Call,
  check, fail, succeed, step, run,
}
use generatorpi.RateLimit.Bounds.{length-purge}

-- A purge keeps an entry that is not stale.
lookup-purge :
    (i now : ℕ) (ip : String) (e : Entry) (d : Dict String Entry)
    → is_stale i now e ≡ false
    → lookup ip d ≡ some e
    → lookup ip (purge i now d) ≡ some e
unfolding purge lookup
lookup-purge i now ip e [] fresh h = cc
lookup-purge i now ip e ((jp, f) ∷ d) fresh h =
    ground (arith, lookup-purge i now ip e d fresh, string_key.same_iff jp ip)

lookup-cleanup_tracker :
    (c : Limits) (now : ℕ) (ip : String) (e : Entry) (t : Tracker)
    → is_stale c.cleanup_seconds now e ≡ false
    → lookup ip t.entries ≡ some e
    → lookup ip (cleanup_tracker c now t).entries ≡ some e
unfolding cleanup_tracker
lookup-cleanup_tracker c now ip e t fresh h =
    ground (arith, lookup-purge c.cleanup_seconds now ip e t.entries fresh h)

-- An entry whose lockout ends at `u` is not stale before `u`, within the cleanup interval.
is_stale_locked :
    (i now u : ℕ) (e : Entry)
    → e.locked_until ≡ some u
    → now < u
    → now ≤ e.last_attempt + i
    → is_stale i now e ≡ false
unfolding is_stale is_expired
is_stale_locked i now u e lock before recent = rw (lock, is_expired) (ground arith)

-- A check of the IP finds the rest of its lockout, and leaves the entry.
pub is_rate_limited_locked :
    (c : Limits) (ip : String) (now now' u : ℕ) (e : Entry) (t : Tracker)
    → lookup ip t.entries ≡ some e
    → e.locked_until ≡ some u
    → now < u
    → now' < u
    → now ≤ e.last_attempt + c.cleanup_seconds
    → is_rate_limited c ip now now' t ≡ (u - now', cleanup_tracker c now t)
unfolding is_rate_limited remaining_lockout check_lock
is_rate_limited_locked c ip now now' u e t found lock before before' recent =
    rw (lookup-cleanup_tracker c now ip e t (is_stale_locked _ now u e lock before recent) found)
      (rw lock (ground arith))

check_lock-lookup :
    (ip jp : String) (now' u : ℕ) (e : Entry) (o : Option Entry) (t : Tracker)
    → lookup jp t.entries ≡ o
    → lookup ip t.entries ≡ some e
    → e.locked_until ≡ some u
    → now' < u
    → lookup ip (remaining_lockout jp now' o t).1.entries ≡ some e
unfolding remaining_lockout check_lock
check_lock-lookup ip jp now' u e none t at_jp found lock before = found
check_lock-lookup ip jp now' u e (some f) t at_jp found lock before =
    ground (arith, lookup-erase ip jp t.entries, string_key.same_iff jp ip)

-- A call that leaves the lock of `ip` until `u` alone: any check within the cleanup interval, and a
-- failure or a success of another IP.
abbrev pub Spares : Limits → String → ℕ → Entry → Call → Type 0
Spares c ip u e (check jp now now') =
    (now < u) × (now' < u) × (now ≤ e.last_attempt + c.cleanup_seconds)
Spares c ip u e (fail jp now now') = jp ≢ ip
Spares c ip u e (succeed jp) = jp ≢ ip

abbrev pub failures : List Call → ℕ
failures [] = 0
failures (check jp now now' ∷ calls) = failures calls
failures (fail jp now now' ∷ calls) = failures calls + 1
failures (succeed jp ∷ calls) = failures calls

-- While there is room no entry is evicted.
make_room_free :
    (c : Limits) (ip : String) (d : Dict String Entry)
    → length d < c.max_tracked_ips
    → make_room c ip d ≡ some d
unfolding make_room
make_room_free c ip d room = ground arith

pub step-lookup :
    (c : Limits) (call : Call) (ip : String) (u : ℕ) (e : Entry) (t : Tracker)
    → lookup ip t.entries ≡ some e
    → e.locked_until ≡ some u
    → Spares c ip u e call
    → length t.entries + failures (call ∷ []) ≤ c.max_tracked_ips
    → lookup ip (step c call t).entries ≡ some e
unfolding step is_rate_limited record_failure record_success
step-lookup c (check jp now now') ip u e t found lock (before, before', recent) room =
    let t' : Tracker = cleanup_tracker c now t in
    check_lock-lookup ip jp now' u e (lookup jp t'.entries) t' refl
      (lookup-cleanup_tracker c now ip e t (is_stale_locked _ now u e lock before recent) found)
      lock before'
step-lookup c (fail jp now now') ip u e t found lock other room =
    let f : Entry = failed_entry c now now' (lookup jp t.entries) in
    rw (make_room_free c jp t.entries (omega arith), record_failure, step)
      (ground (arith, lookup-insert ip jp f t.entries, string_key.same_iff jp ip))
step-lookup c (succeed jp) ip u e t found lock other room =
    ground (arith, lookup-erase ip jp t.entries, string_key.same_iff jp ip)

length-remaining_lockout :
    (jp : String) (now' : ℕ) (o : Option Entry) (t : Tracker)
    → length (remaining_lockout jp now' o t).1.entries ≤ length t.entries
unfolding remaining_lockout check_lock
length-remaining_lockout jp now' none t = omega arith
length-remaining_lockout jp now' (some f) t = ground (arith, length-erase_le jp t.entries)

length-cleanup_tracker :
    (c : Limits) (now : ℕ) (t : Tracker)
    → length (cleanup_tracker c now t).entries ≤ length t.entries
unfolding cleanup_tracker
length-cleanup_tracker c now t = ground (arith, length-purge c.cleanup_seconds now t.entries)

length-step :
    (c : Limits) (call : Call) (t : Tracker)
    → length t.entries + failures (call ∷ []) ≤ c.max_tracked_ips
    → length (step c call t).entries ≤ length t.entries + failures (call ∷ [])
unfolding step is_rate_limited record_failure record_success
length-step c (check jp now now') t room =
    let t' : Tracker = cleanup_tracker c now t in
    omega (
      arith,
      length-remaining_lockout jp now' (lookup jp t'.entries) t',
      length-cleanup_tracker c now t,
    )
length-step c (fail jp now now') t room =
    rw (make_room_free c jp t.entries (omega arith), record_failure, step)
      (ground (arith, length-insert jp (failed_entry c now now' (lookup jp t.entries)) t.entries))
length-step c (succeed jp) t room = ground (arith, length-erase_le jp t.entries)

failures-cons :
    (call : Call) (calls : List Call)
    → failures (call ∷ calls) ≡ failures (call ∷ []) + failures calls
failures-cons (check jp now now') calls = omega arith
failures-cons (fail jp now now') calls = omega arith
failures-cons (succeed jp) calls = omega arith

-- While the calls spare it and fit, the entry of `ip` stays as it is.
pub run-lookup :
    (c : Limits) (calls : List Call) (ip : String) (u : ℕ) (e : Entry) (t : Tracker)
    → lookup ip t.entries ≡ some e
    → e.locked_until ≡ some u
    → All (Spares c ip u e) calls
    → length t.entries + failures calls ≤ c.max_tracked_ips
    → lookup ip (run c calls t).entries ≡ some e
unfolding run
run-lookup c [] ip u e t found lock spare room = found
run-lookup c (call ∷ calls) ip u e t found lock spare room =
    let fits : length t.entries + failures (call ∷ []) ≤ c.max_tracked_ips =
      omega (arith, failures-cons call calls) in
    run-lookup c calls ip u e (step c call t) (step-lookup c call ip u e t found lock spare.0 fits)
      lock spare.1 (omega (arith, failures-cons call calls, length-step c call t fits))

-- The entry that a failure leaves, when nothing has to be evicted.
pub record_failure_entry :
    (c : Limits) (ip : String) (now now' : ℕ) (t : Tracker)
    → length t.entries < c.max_tracked_ips
    → let e = failed_entry c now now' (lookup ip t.entries) in
      record_failure c ip now now' t
      ≡ some ((leb c.max_failures e.count, e.count), record t { entries = insert ip e t.entries })
unfolding record_failure
record_failure_entry c ip now now' t room =
    rw (make_room_free c ip t.entries room, record_failure) refl

failed_entry_locks :
    (c : Limits) (now now' : ℕ) (o : Option Entry)
    → c.max_failures ≤ (failed_entry c now now' o).count
    → (failed_entry c now now' o).locked_until ≡ some (now' + c.lockout_seconds)
unfolding failed_entry
failed_entry_locks c now now' o reached = rw (le→leb _ _ reached) refl

-- An IP that reaches `max_failures` at the readings `t1`, `t2` is refused until `t2 + lockout_seconds`
-- with exactly the seconds that are left, whatever happens in between: any checks, and the failures
-- and successes of other IPs. The conditions: there is room for every failure in between without
-- an eviction, and no clock reading is past the cleanup interval after `t1` or past the deadline.
pub lockout_holds :
    (c : Limits) (ip : String) (t1 t2 now now' : ℕ) (t : Tracker) (calls : List Call)
    → let e = failed_entry c t1 t2 (lookup ip t.entries) in
      let locked = record t { entries = insert ip e t.entries } in
      let until = t2 + c.lockout_seconds in
      c.max_failures ≤ e.count
      → All (Spares c ip until e) calls
      → length t.entries + 1 + failures calls ≤ c.max_tracked_ips
      → now < until
      → now' < until
      → now ≤ t1 + c.cleanup_seconds
      → (record_failure c ip t1 t2 t ≡ some ((true, e.count), locked))
        × ((is_rate_limited c ip now now' (run c calls locked)).0 ≡ until - now')
        × (0 < (is_rate_limited c ip now now' (run c calls locked)).0)
unfolding failed_entry
lockout_holds c ip t1 t2 now now' t calls reached spare room before before' recent =
    let e : Entry = failed_entry c t1 t2 (lookup ip t.entries) in
    let locked : Tracker = record t { entries = insert ip e t.entries } in
    let lock = failed_entry_locks c t1 t2 (lookup ip t.entries) reached in
    let found : lookup ip (run c calls locked).entries ≡ some e =
      run-lookup c calls ip (t2 + c.lockout_seconds) e locked (lookup-insert_self ip e t.entries)
        lock spare (ground (arith, length-insert ip e t.entries)) in
    let refused = is_rate_limited_locked c ip now now' _ e _ found lock before before' recent in
    (
      rw (record_failure_entry c ip t1 t2 t (omega arith)) (rw (le→leb _ _ reached) refl),
      ap (λ r. r.0) refused,
      rw refused (omega arith),
    )
