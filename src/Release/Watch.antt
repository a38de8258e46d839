-- ===== src/Release/Watch.antt =====
-- The uses of the update check: `update_check_loop` of genpi/updater.py, and /api/check-update of
-- genpi/routes/update.py.
use generatorpi.Base.{
  if◌then◌else◌, is_some, Bool-cases, if_either, if_true, if_false, take, Bytes, ℕ, ◌≡◌, refl, sym,
  ap, ◌∙◌, inl, inr, Bool, true, false, not, ◌&&◌, ◌||◌, Option, none, List, [], ◌∷◌,
}
use generatorpi.Release.{CheckCache, is_newer, run_update_check}

-- A poll that was made: what was fetched, and when.
abbrev pub Poll : Type 0
Poll = Option Bytes × ℕ

-- The cache, the flag of the loop, and the versions of which an event was recorded and a push was sent,
-- the newest first.
pub record Watch : Type 0 where
  pub cache : CheckCache
  pub pushed : Bool
  pub announced : List (Option Bytes)

abbrev pub unchecked : CheckCache
unchecked = record { latest = none; update_available = false; checked_at = none }

abbrev pub fresh_watch : Watch
fresh_watch = record { cache = unchecked; pushed = false; announced = [] }

unfoldable pub watch_once : (installed : Bytes) → Poll → Watch → Watch
unfolding run_update_check
watch_once installed poll w =
    let result = run_update_check installed poll.0 poll.1 in
    if not w.pushed && result.update_available
    then record { cache = result; pushed = true; announced = result.latest ∷ w.announced }
    else record w { cache = result }

-- The polls that the loop makes until it is told to stop.
unfoldable pub update_check_loop : (installed : Bytes) → List Poll → Watch → Watch
unfolding watch_once
update_check_loop installed [] w = w
update_check_loop installed (poll ∷ polls) w =
    update_check_loop installed polls (watch_once installed poll w)

-- The polls that found a newer version.
unfoldable pub newer_versions : (installed : Bytes) → List Poll → List (Option Bytes)
newer_versions installed [] = []
newer_versions installed ((fetched, now) ∷ polls) =
    let rest = newer_versions installed polls in
    if is_newer installed fetched then fetched ∷ rest else rest

update_check_loop-pushed :
    (installed : Bytes) (polls : List Poll) (cache : CheckCache) (announced : List (Option Bytes))
    → (update_check_loop installed polls
        (record { cache = cache; pushed = true; announced = announced })).announced
      ≡ announced
unfolding update_check_loop watch_once
update_check_loop-pushed installed [] cache announced = refl
update_check_loop-pushed installed (poll ∷ polls) cache announced =
    update_check_loop-pushed installed polls (run_update_check installed poll.0 poll.1) announced

update_check_loop-first :
    (installed : Bytes) (polls : List Poll) (cache : CheckCache)
    → (update_check_loop installed polls
        (record { cache = cache; pushed = false; announced = [] })).announced
      ≡ take 1 (newer_versions installed polls)
unfolding update_check_loop watch_once run_update_check newer_versions
update_check_loop-first installed [] cache = refl
update_check_loop-first installed ((fetched, now) ∷ polls) cache =
    let result = run_update_check installed fetched now in
    let go : Watch → List (Option Bytes) = (λ w. (update_check_loop installed polls w).announced) in
    let rest = newer_versions installed polls in
    elim (Bool-cases (is_newer installed fetched)) [
      | inl newer ↦
          ap go (if_true (is_newer installed fetched) _ _ newer)
          ∙ update_check_loop-pushed installed polls result (fetched ∷ [])
          ∙ sym (ap (take 1) (if_true (is_newer installed fetched) (fetched ∷ rest) rest newer))
      | inr other ↦
          ap go (if_false (is_newer installed fetched) _ _ other)
          ∙ update_check_loop-first installed polls result
          ∙ sym (ap (take 1) (if_false (is_newer installed fetched) (fetched ∷ rest) rest other))
    ]

-- Over a run of the program the loop announces a release at most once: the first one that a poll found to
-- be newer than the installed version, if there was any.
announces_first :
    (installed : Bytes) (polls : List Poll)
    → (update_check_loop installed polls fresh_watch).announced
      ≡ take 1 (newer_versions installed polls)
announces_first installed polls = update_check_loop-first installed polls unchecked

-- /api/check-update: what it answers, and the cache after it. `poll` is what a live check would fetch.
unfoldable pub api_check_update :
    (fresh : Bool) (installed : Bytes) → Poll → CheckCache → (Option Bytes × Bool) × CheckCache
unfolding run_update_check
api_check_update fresh installed poll cache =
    let live = run_update_check installed poll.0 poll.1 in
    if fresh || not (is_some cache.checked_at)
    then ((live.latest, live.update_available), live)
    else ((cache.latest, cache.update_available), cache)

-- The cache says of its version what the comparison says.
abbrev Agrees : Bytes → CheckCache → Type 0
Agrees installed cache = cache.update_available ≡ is_newer installed cache.latest

update_check_loop-Agrees :
    (installed : Bytes) (polls : List Poll) (w : Watch)
    → Agrees installed w.cache
    → Agrees installed (update_check_loop installed polls w).cache
unfolding update_check_loop watch_once run_update_check
update_check_loop-Agrees installed [] w h = h
update_check_loop-Agrees installed (poll ∷ polls) w h =
    update_check_loop-Agrees installed polls (watch_once installed poll w) (
      if_either (λ (v : Watch). Agrees installed v.cache)
        (not w.pushed && is_newer installed poll.0) refl refl)

-- Whatever the loop has polled before, and whether the answer is live or from the cache, /api/check-update
-- offers an update exactly if the version that it names is newer than the installed one.
api_check_update-Agrees :
    (fresh : Bool) (installed : Bytes) (polls : List Poll) (poll : Poll)
    → let r =
        api_check_update fresh installed poll
          (update_check_loop installed polls fresh_watch).cache in
      r.0.1 ≡ is_newer installed r.0.0
unfolding api_check_update run_update_check is_newer
api_check_update-Agrees fresh installed polls poll =
    let cache = (update_check_loop installed polls fresh_watch).cache in
    if_either (λ (r : (Option Bytes × Bool) × CheckCache). r.0.1 ≡ is_newer installed r.0.0)
      (fresh || not (is_some cache.checked_at)) refl
      (update_check_loop-Agrees installed polls fresh_watch refl)
