-- ===== src/RateLimit/Bounds.antt =====
-- The tracker's well-formedness and its hard cap.
use generatorpi.Base.{
  leb, if◌then◌else◌, Bool-cases, Option-cases, length, beq_refl, Dict, lookup, insert, erase,
  contains, length-insert, length-erase_le, length-erase_lt, NodupKeys, insert-NodupKeys,
  erase-NodupKeys, ℕ, ◌+◌, ◌≤◌, ◌<◌, String, ◌≡◌, refl, inl, inr, Bool, true, Option, none, some,
  List, [], ◌∷◌, arith, string_key,
}
use generatorpi.RateLimit.{
  Limits, Entry, Tracker, purge, older, oldest, make_room, cleanup_tracker, remaining_lockout,
  is_rate_limited, failed_entry, record_failure, record_success, Call, check, fail, succeed, step,
  run,
}

pub length-purge : (i now : ℕ) (d : Dict String Entry) → length (purge i now d) ≤ length d
unfolding purge
length-purge i now [] = omega arith
length-purge i now ((ip, e) ∷ d) = ground (arith, length-purge i now d)

lookup-purge-none :
    (i now : ℕ) (ip : String) (d : Dict String Entry)
    → lookup ip d ≡ none
    → lookup ip (purge i now d) ≡ none
unfolding purge lookup
lookup-purge-none i now ip [] h = refl
lookup-purge-none i now ip ((jp, e) ∷ d) h = ground (arith, lookup-purge-none i now ip d)

purge-NodupKeys : (i now : ℕ) (d : Dict String Entry) → NodupKeys d → NodupKeys (purge i now d)
unfolding purge
purge-NodupKeys i now [] h = tt
purge-NodupKeys i now ((ip, e) ∷ d) h =
    ground (arith, purge-NodupKeys i now d h.1, lookup-purge-none i now ip d)

-- The key that `min` finds is a key of the dict, so its deletion makes room.
pub oldest-contains :
    (d : Dict String Entry) (ip : String) (e : Entry)
    → oldest d ≡ some (ip, e)
    → contains ip d ≡ true
unfolding oldest lookup
oldest-contains [] ip e h = absurd (cc)
oldest-contains ((jp, f) ∷ d) ip e h = elim (Option-cases (oldest d)) [
  | inl q ↦ ground (arith, beq_refl ip)
  | inr ((kp, g), q) ↦ ground (arith, beq_refl ip, oldest-contains d kp g q)
]

pub older-some :
    (p : String × Entry) (o : Option (String × Entry)) → (q : String × Entry) × (older p o ≡ some q)
unfolding older
older-some (ip, e) none = ((ip, e), refl)
older-some (ip, e) (some (jp, f)) = elim (Bool-cases (leb e.last_attempt f.last_attempt)) [
  | inl h ↦ ((ip, e), rw h refl)
  | inr h ↦ ((jp, f), rw h refl)
]

oldest-some : (d : Dict String Entry) → 0 < length d → (q : String × Entry) × (oldest d ≡ some q)
unfolding oldest
oldest-some [] h = absurd (omega arith)
oldest-some ((jp, f) ∷ d) h = older-some (jp, f) (oldest d)

pub record IsValid (c : Limits) (t : Tracker) : Type 0 where
  pub unique : NodupKeys t.entries
  pub capped : length t.entries ≤ c.max_tracked_ips

pub make_room-length :
    (c : Limits) (ip : String) (d : Dict String Entry)
    → 0 < c.max_tracked_ips
    → length d ≤ c.max_tracked_ips
    → NodupKeys d
    → (d' : Dict String Entry) × (make_room c ip d ≡ some d')
      × ((if contains ip d' then length d' else length d' + 1) ≤ c.max_tracked_ips)
      × NodupKeys d'
unfolding make_room
make_room-length c ip d room fits u = elim (Bool-cases (contains ip d)) [
  | inl old ↦ (d, rw old refl, rw old fits, u)
  | inr fresh ↦ elim (Bool-cases (leb c.max_tracked_ips (length d))) [
    | inr room ↦ (d, rw (fresh, room) refl, rw fresh (ground arith), u)
    | inl full ↦
        let ((jp, f), q) = oldest-some d (ground arith) in
        (
          erase jp d,
          rw (fresh, full) (rw q refl),
          ground (arith, length-erase_lt jp d (oldest-contains d jp f q)),
          erase-NodupKeys jp d u,
        )
  ]
]

-- A failure is recorded, unless the cap is 0, and keeps the tracker well formed.
pub record_failure_total :
    (c : Limits) (ip : String) (now now' : ℕ) (t : Tracker)
    → 0 < c.max_tracked_ips
    → IsValid c t
    → (r : Bool × ℕ) × (t' : Tracker) × (record_failure c ip now now' t ≡ some (r, t'))
      × IsValid c t'
unfolding record_failure
record_failure_total c ip now now' t room v =
    let (d, q, fits, u) = make_room-length c ip t.entries room v.capped v.unique in
    let e : Entry = failed_entry c now now' (lookup ip d) in
    (
      (leb c.max_failures e.count, e.count),
      record t { entries = insert ip e d },
      rw (q, record_failure) refl,
      record { unique = insert-NodupKeys ip e d u; capped = rw (length-insert ip e d) fits },
    )

cleanup_tracker-IsValid :
    (c : Limits) (now : ℕ) (t : Tracker) → IsValid c t → IsValid c (cleanup_tracker c now t)
unfolding cleanup_tracker
cleanup_tracker-IsValid c now t v = ground (
  arith,
  purge-NodupKeys c.cleanup_seconds now t.entries v.unique,
  length-purge c.cleanup_seconds now t.entries,
)

remaining_lockout-IsValid :
    (c : Limits) (ip : String) (now : ℕ) (o : Option Entry) (t : Tracker)
    → IsValid c t
    → IsValid c (remaining_lockout ip now o t).1
unfolding remaining_lockout
remaining_lockout-IsValid c ip now none t v = v
remaining_lockout-IsValid c ip now (some e) t v =
    ground (arith, erase-NodupKeys ip t.entries v.unique, length-erase_le ip t.entries)

is_rate_limited-IsValid :
    (c : Limits) (ip : String) (now now' : ℕ) (t : Tracker)
    → IsValid c t
    → IsValid c (is_rate_limited c ip now now' t).1
unfolding is_rate_limited
is_rate_limited-IsValid c ip now now' t v =
    let t' = cleanup_tracker c now t in
    remaining_lockout-IsValid c ip now' (lookup ip t'.entries) t'
      (cleanup_tracker-IsValid c now t v)

pub record_success-IsValid :
    (c : Limits) (ip : String) (t : Tracker) → IsValid c t → IsValid c (record_success ip t)
unfolding record_success
record_success-IsValid c ip t v =
    ground (arith, erase-NodupKeys ip t.entries v.unique, length-erase_le ip t.entries)

pub step-IsValid :
    (c : Limits) (call : Call) (t : Tracker)
    → 0 < c.max_tracked_ips
    → IsValid c t
    → IsValid c (step c call t)
unfolding step
step-IsValid c (check ip now now') t room v = is_rate_limited-IsValid c ip now now' t v
step-IsValid c (fail ip now now') t room v =
    let (r, t', q, v') = record_failure_total c ip now now' t room v in rw (q, step) v'
step-IsValid c (succeed ip) t room v = record_success-IsValid c ip t v

-- Whatever the calls and their times, a well-formed tracker stays well formed: it holds every IP at
-- most once, and never more than `max_tracked_ips` of them, if that cap is not 0.
pub run-IsValid :
    (c : Limits) (calls : List Call) (t : Tracker)
    → 0 < c.max_tracked_ips
    → IsValid c t
    → IsValid c (run c calls t)
unfolding run
run-IsValid c [] t room v = v
run-IsValid c (call ∷ calls) t room v =
    run-IsValid c calls (step c call t) room (step-IsValid c call t room v)

-- With a cap of 0, a failure of an IP that is not tracked raises when the tracker is empty.
pub record_failure_zero_cap :
    (c : Limits) (ip : String) (now now' : ℕ) (t : Tracker)
    → c.max_tracked_ips ≡ 0
    → t.entries ≡ []
    → record_failure c ip now now' t ≡ none
unfolding record_failure make_room oldest lookup
record_failure_zero_cap c ip now now' t zero_cap empty = rw (zero_cap, empty) refl
