-- ===== src/EventLog/Tests.antt =====
-- The event log on concrete events, with a cap of 3.
use generatorpi.Base.{take, ℕ, String, ◌≡◌, refl, none, some, List, [], ◌∷◌}
use generatorpi.EventLog.{Row, Log, record_all, empty_log, get_events, max_seq, evict, record_event}
use generatorpi.EventLog.Newest.{numbered, record_all_keeps_newest}
use generatorpi.EventLog.Paging.{get_events_pages, IsLog}

abbrev story : List String
story = "startup" ∷ "start" ∷ "start_complete" ∷ "fuel" ∷ "stop" ∷ []

abbrev log : Log String
log = record_all 3 story empty_log

record_all_keeps_newest_example : (record_all 3 story empty_log).rows ≡ take 3 (numbered 0 story [])
record_all_keeps_newest_example = record_all_keeps_newest 3 story

abbrev row : ℕ → String → Row String
row seq content = record { seq = seq; content = content }

get_events_pages_example :
    (get_events 2 (some 4) none log ≡ take 2 (row 3 "start_complete" ∷ []))
    × (get_events 2 none (some 4) log ≡ take 2 (row 5 "stop" ∷ []))
unfolding record_all record_event evict max_seq
get_events_pages_example =
    get_events_pages 2 none log (row 5 "stop" ∷ []) (row 3 "start_complete" ∷ []) (row 4 "fuel")
      (unfold IsLog in (refl, (refl, (refl, tt)))) refl
