-- ===== src/EventLog.antt =====
-- The event log of genpi/store.py: the table `events`, newest row first, with the last number that
-- AUTOINCREMENT gave out. A statement of SQL is the function on the rows that it denotes. `content`
-- is the time, the type and the message of an event.
pub mod Newest
pub mod Paging
mod Tests
use generatorpi.Base.{
  ltb, if◌then◌else◌, take, keep, ℕ, ◌+◌, max, Bool, true, Option, none, some, List, [], ◌∷◌,
}

pub record Row {ℓ} (E : Type ℓ) : Type ℓ where
  pub seq : ℕ
  pub content : E

pub record Log {ℓ} (E : Type ℓ) : Type ℓ where
  pub rows : List (Row E)
  pub last_seq : ℕ

module _ {ℓ} {E : Type ℓ} where
  -- `SELECT MAX(seq) FROM events`, 0 where it is NULL
  unfoldable pub max_seq : List (Row E) → ℕ
  max_seq [] = 0
  max_seq (r ∷ rows) = max r.seq (max_seq rows)

  -- `DELETE FROM events WHERE seq <= (SELECT MAX(seq) FROM events) - ?`; the difference may be
  -- negative, so both sides have the cap added.
  unfoldable pub evict : ℕ → List (Row E) → List (Row E)
  unfolding max_seq
  evict cap rows = keep (λ r. ltb (max_seq rows) (r.seq + cap)) rows

  -- A write that the database refuses is swallowed.
  unfoldable pub record_event : (cap : ℕ) (ok : Bool) → E → Log E → Log E
  unfolding evict
  record_event cap ok e log =
      let seq = log.last_seq + 1 in
      if ok
      then record {
        rows = evict cap (record { seq = seq; content = e } ∷ log.rows);
        last_seq = seq;
      }
      else log

  -- The WHERE clause: `before` goes before `after`.
  unfoldable pub is_wanted : Option ℕ → Option ℕ → Row E → Bool
  is_wanted (some cursor) after r = ltb r.seq cursor
  is_wanted none (some cursor) r = ltb cursor r.seq
  is_wanted none none r = true

  unfoldable pub get_events : (limit : ℕ) (before after : Option ℕ) → Log E → List (Row E)
  unfolding is_wanted
  get_events limit before after log = take limit (keep (is_wanted before after) log.rows)

  unfoldable pub get_latest_seq : Log E → ℕ
  unfolding max_seq
  get_latest_seq log = max_seq log.rows

  abbrev pub empty_log : Log E
  empty_log = record { rows = []; last_seq = 0 }

  -- A history of events, the oldest first.
  unfoldable pub record_all : ℕ → List E → Log E → Log E
  unfolding record_event
  record_all cap [] log = log
  record_all cap (e ∷ es) log = record_all cap es (record_event cap true e log)
