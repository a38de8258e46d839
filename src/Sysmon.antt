-- ===== src/Sysmon.antt =====
-- The system metrics of genpi/sysmon.py: the readers, each with the contents of the files or the output of
-- the command that it reads (`none` where that fails), and the ring buffer. `float` is Python's reading
-- of a number, `none` where it raises.
pub mod History
pub mod Sampling
pub mod Points
pub mod Columns
pub mod Newest
pub mod Mirror
mod Tests
use generatorpi.Base.{
  if◌then◌else◌, ◌==◌, ℤ, pos, negsuc, ◌+ℤ◌, ◌-ℤ◌, leb_ℤ, Bytes, codes, is_space, strip, lower,
  starts_with, onto_first, ℕ, zero, suc, Bool, true, false, ◌&&◌, ◌||◌, Option, none, some, List,
  [], ◌∷◌, bytes_key, nat_key,
}
use generatorpi.Float.{Float}
use generatorpi.Release.{signed}

-- `s.split()`: the words between white space.
unfoldable pub words : Bytes → List Bytes
words [] = []
words (c ∷ []) = if is_space c then [] else (c ∷ []) ∷ []
words (c ∷ d ∷ s) =
    let rest = words (d ∷ s) in
    if is_space c then rest else if is_space d then (c ∷ []) ∷ rest else onto_first c rest

-- `[int(x) for x in parts]`, if none raises
unfoldable pub all_ints : List Bytes → Option (List ℤ)
unfolding signed
all_ints [] = some []
all_ints (x ∷ xs) = elim (signed (strip x)) [
  | none ↦ none
  | some n ↦ elim (all_ints xs) [ none ↦ none | some ns ↦ some (n ∷ ns) ]
]

abbrev pub sum : List ℤ → ℤ
sum [] = pos 0
sum (x ∷ xs) = x +ℤ sum xs

-- `vals[n]`
abbrev pub at : {A : Type 0} → ℕ → List A → Option A
at n [] = none
at zero (x ∷ xs) = some x
at (suc n) (x ∷ xs) = at n xs

unfoldable pub jiffies : List ℤ → Option (ℤ × ℤ)
jiffies vals = elim (at 3 vals) [
  | none ↦ none
  | some idle ↦ elim (at 4 vals) [
    | none ↦ some (sum vals, idle)
    | some iowait ↦ some (sum vals, idle +ℤ iowait)
  ]
]

-- The first line of /proc/stat: the total and the idle time.
unfoldable pub read_cpu_times : Option Bytes → Option (ℤ × ℤ)
unfolding words all_ints jiffies
read_cpu_times none = none
read_cpu_times (some line) = elim (words line) [
  | [] ↦ none
  | name ∷ parts ↦
      if name == codes "cpu"
      then elim (all_ints parts) [ none ↦ none | some vals ↦ jiffies vals ]
      else none
]

-- What the lines of /proc/meminfo gave: `MemTotal` and `MemAvailable`, or a line that cannot be read.
pub data Memory (F : Type 0) : Type 0 where
  found : Option F → Option F → Memory F
  unreadable : Memory F

module _ {F : Type 0} ⦃f : Float F⦄ where
  abbrev pub of_int : ℤ → F
  of_int (pos n) = f.decimal n 0
  of_int (negsuc n) = f.sub (f.decimal 0 0) (f.decimal (suc n) 0)

  unfoldable pub cpu_delta_pct : Option (ℤ × ℤ) → Option (ℤ × ℤ) → Option F
  cpu_delta_pct none cur = none
  cpu_delta_pct (some prev) none = none
  cpu_delta_pct (some prev) (some cur) =
      let total_d = cur.0 -ℤ prev.0 in
      let idle_d = cur.1 -ℤ prev.1 in
      if leb_ℤ total_d (pos 0)
      then none
      else some (
          f.round 1 (f.div (f.mul (f.decimal 100 0) (of_int (total_d -ℤ idle_d))) (of_int total_d)))

  -- The answer, and the read that is kept for the next one.
  unfoldable pub cpu_pct : Option Bytes → Option (ℤ × ℤ) → Option F × Option (ℤ × ℤ)
  unfolding read_cpu_times cpu_delta_pct
  cpu_pct stat prev = let cur = read_cpu_times stat in (cpu_delta_pct prev cur, cur)

  unfoldable pub rounded : ℕ → Option F → Option F
  rounded places none = none
  rounded places (some x) = some (f.round places x)

  -- The words of /proc/loadavg.
  unfoldable pub read_loadavg : (Bytes → Option F) → Option Bytes → Option F × Option F
  unfolding words rounded
  read_loadavg float none = (none, none)
  read_loadavg float (some s) = elim (words s) [
    | [] ↦ (none, none)
    | one ∷ rest ↦ elim rest [
      | [] ↦ (none, none)
      | five ∷ more ↦ elim (float one) [
        | none ↦ (none, none)
        | some a ↦ elim (float five) [
          | none ↦ (none, none)
          | some b ↦ (some (f.round 2 a), some (f.round 2 b))
        ]
      ]
    ]
  ]

  unfoldable pub second_float : (Bytes → Option F) → Bytes → Option F
  unfolding words
  second_float float line = elim (at 1 (words line)) [ none ↦ none | some w ↦ float w ]

  unfoldable pub scan_memory : (Bytes → Option F) → List Bytes → Option F → Option F → Memory F
  unfolding second_float
  scan_memory float [] total avail = found total avail
  scan_memory float (line ∷ lines) total avail = elim (starts_with (codes "MemTotal:") line) [
    | true ↦ elim (second_float float line) [
      | none ↦ unreadable
      | some t ↦ elim avail [
        | none ↦ scan_memory float lines (some t) none
        | some a ↦ found (some t) (some a)
      ]
    ]
    | false ↦ elim (starts_with (codes "MemAvailable:") line) [
      | true ↦ elim (second_float float line) [
        | none ↦ unreadable
        | some a ↦ elim total [
          | none ↦ scan_memory float lines none (some a)
          | some t ↦ found (some t) (some a)
        ]
      ]
      | false ↦ scan_memory float lines total avail
    ]
  ]

  -- `not total` holds of 0.0 as well.
  unfoldable pub memory_pct : Memory F → Option F
  memory_pct unreadable = none
  memory_pct (found none avail) = none
  memory_pct (found (some total) none) = none
  memory_pct (found (some total) (some avail)) =
      if f.le total (f.decimal 0 0) && f.le (f.decimal 0 0) total
      then none
      else some (f.round 1 (f.mul (f.decimal 100 0) (f.sub (f.decimal 1 0) (f.div avail total))))

  unfoldable pub read_mem_pct : (Bytes → Option F) → Option (List Bytes) → Option F
  unfolding scan_memory memory_pct
  read_mem_pct float none = none
  read_mem_pct float (some lines) = memory_pct (scan_memory float lines none none)

  -- The content of the sensor's file, in thousandths of a degree.
  unfoldable pub read_temp_c : Option Bytes → Option F
  unfolding signed
  read_temp_c none = none
  read_temp_c (some s) = elim (signed (strip s)) [
    | none ↦ none
    | some n ↦ some (f.round 1 (f.div (of_int n) (f.decimal 1000 0)))
  ]

-- Whether one of the words stands in a text.
unfoldable pub holds : Bytes → Bytes → Bool
holds part [] = part == []
holds part (c ∷ s) = starts_with part (c ∷ s) || holds part s

abbrev pub looks_like_cpu : Bytes → Bool
looks_like_cpu kind =
    holds (codes "cpu") kind
    || holds (codes "soc") kind
    || holds (codes "x86_pkg") kind
    || holds (codes "arm") kind

-- The loop over the zones, with their paths and their types, `none` for one that cannot be read.
unfoldable pub choose_zone : (first : Bytes) → List (Bytes × Option Bytes) → Bytes
unfolding holds
choose_zone first [] = first
choose_zone first ((base, none) ∷ zones) = choose_zone first zones
choose_zone first ((base, some kind) ∷ zones) =
    let rest = choose_zone first zones in if looks_like_cpu (lower (strip kind)) then base else rest

abbrev pub thermal_zone0 : Bytes
thermal_zone0 = codes "/sys/class/thermal/thermal_zone0/temp"

unfoldable pub scan_zones : List (Bytes × Option Bytes) → Bytes
unfolding choose_zone
scan_zones [] = thermal_zone0
scan_zones ((base, kind) ∷ zones) = choose_zone base ((base, kind) ∷ zones)

-- The path and the cache. `zones` is `none` if the scan raises.
unfoldable pub auto_temp_path :
    (override : Bytes) → Option (List (Bytes × Option Bytes)) → Option Bytes → Bytes × Option Bytes
unfolding scan_zones
auto_temp_path (c ∷ s) zones cache = (c ∷ s, cache)
auto_temp_path [] zones (some path) = (path, some path)
auto_temp_path [] none none = (thermal_zone0, some thermal_zone0)
auto_temp_path [] (some zones) none = (scan_zones zones, some (scan_zones zones))
