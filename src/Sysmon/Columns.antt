-- ===== src/Sysmon/Columns.antt =====
-- /api/system/history of genpi/routes/core.py, and what the page in genpi/frontend/app.js does with its reply. The
-- interval of the samples and the clock in the reply are left out.
use generatorpi.Base.{
  ltb, if◌then◌else◌, length, is_empty, drop, keep, ℤ, leb_ℤ, last, ℕ, ◌-◌, ◌≡◌, refl, ap, Bool,
  not, Option, none, some, List, [], ◌∷◌, ◌++◌, map,
}
use generatorpi.Sysmon.Sampling.{Point}

-- One list for each field.
pub record Columns (F : Type 0) : Type 0 where
  pub t : List ℤ
  pub cpu : List (Option F)
  pub mem : List (Option F)
  pub load1 : List (Option F)
  pub load5 : List (Option F)
  pub temp : List (Option F)
  pub volt : List (Option F)
  pub thr : List (Option ℤ)
  pub rssi : List (Option ℤ)
  pub qual : List (Option ℤ)

-- `col[i]`, column by column.
abbrev pub first : {A : Type 0} → List (Option A) → Option A
first [] = none
first (x ∷ xs) = x

abbrev pub behind_first : {A : Type 0} → List A → List A
behind_first [] = []
behind_first (x ∷ xs) = xs

module _ {F : Type 0} where
  abbrev pub columns : List (Point F) → Columns F
  columns points = record {
    t = map (λ p. p.t) points;
    cpu = map (λ p. p.cpu) points;
    mem = map (λ p. p.mem) points;
    load1 = map (λ p. p.load1) points;
    load5 = map (λ p. p.load5) points;
    temp = map (λ p. p.temp) points;
    volt = map (λ p. p.volt) points;
    thr = map (λ p. p.thr) points;
    rssi = map (λ p. p.rssi) points;
    qual = map (λ p. p.qual) points;
  }

  -- `p["t"] > since_t`
  abbrev pub is_after : (since : ℤ) → Point F → Bool
  is_after since p = not (leb_ℤ p.t since)

  -- `since` is `none` where it is missing or no number; a page asks with the time of a point.
  abbrev pub points_after : (since : Option ℤ) → List (Point F) → List (Point F)
  points_after none points = points
  points_after (some since) points = keep (is_after since) points

  unfoldable pub api_system_history : (since : Option ℤ) → List (Point F) → Columns F
  api_system_history since history = columns (points_after since history)

  abbrev pub row_at : ℤ → Columns F → Point F
  row_at t c = record {
    t = t;
    cpu = first c.cpu;
    mem = first c.mem;
    load1 = first c.load1;
    load5 = first c.load5;
    temp = first c.temp;
    volt = first c.volt;
    thr = first c.thr;
    rssi = first c.rssi;
    qual = first c.qual;
  }

  abbrev pub behind_all : List ℤ → Columns F → Columns F
  behind_all ts c = record {
    t = ts;
    cpu = behind_first c.cpu;
    mem = behind_first c.mem;
    load1 = behind_first c.load1;
    load5 = behind_first c.load5;
    temp = behind_first c.temp;
    volt = behind_first c.volt;
    thr = behind_first c.thr;
    rssi = behind_first c.rssi;
    qual = behind_first c.qual;
  }

  abbrev pub rows_from : List ℤ → Columns F → List (Point F)
  rows_from [] c = []
  rows_from (t ∷ ts) c = row_at t c ∷ rows_from ts (behind_all ts c)

  -- `colsToRows(d)`
  unfoldable pub cols_to_rows : Columns F → List (Point F)
  cols_to_rows c = rows_from c.t c

  abbrev pub last_time : List (Point F) → Option ℤ
  last_time points = elim (last points) as (λ _. Option ℤ) [ none ↦ none | some p ↦ some p.t ]

  abbrev pub newest : (capacity : ℕ) → List (Point F) → List (Point F)
  newest capacity points =
      if ltb capacity (length points) then drop (length points - capacity) points else points

  -- The points of the page, after a reply.
  unfoldable pub merge_points : (capacity : ℕ) → (points fresh : List (Point F)) → List (Point F)
  merge_points capacity points fresh = elim (last_time points) [
    | none ↦ fresh
    | some since ↦
        if is_empty fresh then points else newest capacity (points ++ keep (is_after since) fresh)
  ]

  -- One poll of the page: `load`.
  unfoldable pub poll_history : (capacity : ℕ) → (history points : List (Point F)) → List (Point F)
  unfolding api_system_history cols_to_rows merge_points
  poll_history capacity history points =
      merge_points capacity points (cols_to_rows (api_system_history (last_time points) history))

  pub cols_to_rows-columns : (points : List (Point F)) → cols_to_rows (columns points) ≡ points
  unfolding cols_to_rows
  cols_to_rows-columns [] = refl
  cols_to_rows-columns (p ∷ points) = ap (λ rows. p ∷ rows) (cols_to_rows-columns points)
