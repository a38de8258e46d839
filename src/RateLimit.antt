-- ===== src/RateLimit.antt =====
-- genpi/ratelimit.py: the per-IP failure tracker, `_fail_tracker` and `_last_cleanup`. Every function
-- takes the readings of `time.monotonic()` that it makes, in the order in which it makes them.
-- A reading, and the intervals of CONFIG, are counted in one unit of time.
pub mod Bounds
pub mod Lockout
pub mod Threshold
pub mod Tests
use generatorpi.Base.{
  ltb, leb, if◌then◌else◌, length, Dict, lookup, insert, erase, contains, ℕ, ◌+◌, ◌-◌, String, Bool,
  false, not, ◌&&◌, ◌||◌, Option, none, some, List, [], ◌∷◌, string_key,
}

-- The RATE_LIMIT_* keys of CONFIG.
pub record Limits : Type 0 where
  pub max_failures : ℕ
  pub lockout_seconds : ℕ
  pub cleanup_seconds : ℕ
  pub max_tracked_ips : ℕ

pub record Entry : Type 0 where
  pub count : ℕ
  pub locked_until : Option ℕ
  pub last_attempt : ℕ

pub record Tracker : Type 0 where
  pub entries : Dict String Entry
  pub last_cleanup : ℕ

pub is_expired : Option ℕ → ℕ → Bool
is_expired none now = false
is_expired (some u) now = leb u now

-- The filter of the list `expired` in `_cleanup_tracker`.
pub is_stale : ℕ → ℕ → Entry → Bool
unfolding is_expired
is_stale interval now e = is_expired e.locked_until now || ltb interval (now - e.last_attempt)

-- The loop that deletes what is stale.
unfoldable pub purge : ℕ → ℕ → Dict String Entry → Dict String Entry
unfolding is_stale
purge interval now [] = []
purge interval now ((ip, e) ∷ d) =
    let rest = purge interval now d in if is_stale interval now e then rest else (ip, e) ∷ rest

unfoldable pub cleanup_tracker : Limits → ℕ → Tracker → Tracker
cleanup_tracker c now t =
    if ltb (now - t.last_cleanup) c.cleanup_seconds
    then t
    else record { entries = purge c.cleanup_seconds now t.entries; last_cleanup = now }

-- What `is_rate_limited` does with the entry that it found, by its field `locked_until`.
pub check_lock : String → ℕ → Option ℕ → Tracker → ℕ × Tracker
check_lock ip now none t = (0, t)
check_lock ip now (some u) t =
    if leb u now then (0, record t { entries = erase ip t.entries }) else (u - now, t)

pub remaining_lockout : String → ℕ → Option Entry → Tracker → ℕ × Tracker
unfolding check_lock
remaining_lockout ip now none t = (0, t)
remaining_lockout ip now (some e) t = check_lock ip now e.locked_until t

-- The seconds that are left of a lockout, or 0. `now` is read by the cleanup, `now'` after it.
unfoldable pub is_rate_limited : Limits → String → ℕ → ℕ → Tracker → ℕ × Tracker
unfolding remaining_lockout
is_rate_limited c ip now now' t =
    let t' = cleanup_tracker c now t in remaining_lockout ip now' (lookup ip t'.entries) t'

-- `min(_fail_tracker, key=last_attempt)`: the first of the oldest. `none` stands for the
-- `ValueError` that `min` raises on an empty dict.
pub older : String × Entry → Option (String × Entry) → Option (String × Entry)
older (ip, e) none = some (ip, e)
older (ip, e) (some (jp, f)) =
    if leb e.last_attempt f.last_attempt then some (ip, e) else some (jp, f)

pub oldest : Dict String Entry → Option (String × Entry)
unfolding older
oldest [] = none
oldest ((ip, e) ∷ d) = older (ip, e) (oldest d)

-- The hard cap at the top of `record_failure`.
pub make_room : Limits → String → Dict String Entry → Option (Dict String Entry)
unfolding oldest
make_room c ip d =
    if not (contains ip d) && leb c.max_tracked_ips (length d)
    then elim (oldest d) [ none ↦ none | some (jp, f) ↦ some (erase jp d) ]
    else some d

pub old_count : Option Entry → ℕ
old_count none = 0
old_count (some e) = e.count

pub old_lock : Option Entry → Option ℕ
old_lock none = none
old_lock (some e) = e.locked_until

-- The entry after one more failure: `last_attempt` is read at `now`, the lockout starts at `now'`.
pub failed_entry : Limits → ℕ → ℕ → Option Entry → Entry
unfolding old_count old_lock
failed_entry c now now' o = record {
  count = old_count o + 1;
  locked_until =
      if leb c.max_failures (old_count o + 1) then some (now' + c.lockout_seconds) else old_lock o;
  last_attempt = now;
}

-- (locked_out, fail_count) and the tracker.
unfoldable pub record_failure : Limits → String → ℕ → ℕ → Tracker → Option ((Bool × ℕ) × Tracker)
unfolding make_room failed_entry
record_failure c ip now now' t = elim (make_room c ip t.entries) [
  | none ↦ none
  | some d ↦
      let e = failed_entry c now now' (lookup ip d) in
      some ((leb c.max_failures e.count, e.count), record t { entries = insert ip e d })
]

unfoldable pub record_success : String → Tracker → Tracker
record_success ip t = if contains ip t.entries then record t { entries = erase ip t.entries } else t

abbrev pub no_failures : ℕ → Tracker
no_failures now = record { entries = []; last_cleanup = now }

-- One call of the module, with the readings of the clock that it makes.
pub data Call : Type 0 where
  check : String → ℕ → ℕ → Call
  fail : String → ℕ → ℕ → Call
  succeed : String → Call

-- A call that raises leaves the tracker as it is.
unfoldable pub step : Limits → Call → Tracker → Tracker
unfolding is_rate_limited record_failure record_success
step c (check ip now now') t = (is_rate_limited c ip now now' t).1
step c (fail ip now now') t = elim (record_failure c ip now now' t) [ none ↦ t | some (r, t') ↦ t' ]
step c (succeed ip) t = record_success ip t

unfoldable pub run : Limits → List Call → Tracker → Tracker
run c [] t = t
run c (call ∷ calls) t = run c calls (step c call t)
