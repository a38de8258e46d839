-- ===== src/Sysmon/Sampling.antt =====
-- The readers of the radio, the voltage and the throttle flags of genpi/sysmon.py, and the sampler.
use generatorpi.Base.{
  leb, if◌then◌else◌, is_empty, drop, ◌==◌, ℤ, pos, Bytes, strip, split, ℕ, ◌+◌, ◌-◌, ◌*◌, Bool,
  true, false, not, ◌&&◌, ◌||◌, Option, none, some, List, [], ◌∷◌, bytes_key, nat_key,
}
use mathlib.Core.List.{reverse}
use generatorpi.Float.{Float}
use generatorpi.Release.{is_digit, with_sign, negated}
use generatorpi.Sysmon.{words, at, cpu_pct, read_loadavg, read_mem_pct, read_temp_c}
use generatorpi.Sysmon.History.{append_point}

-- `s.rstrip(chars)`, of one character
unfoldable pub lstrip_of : ℕ → Bytes → Bytes
lstrip_of ch [] = []
lstrip_of ch (c ∷ s) = let rest = lstrip_of ch s in if c == ch then rest else c ∷ s

unfoldable pub rstrip_of : ℕ → Bytes → Bytes
unfolding lstrip_of
rstrip_of ch s = reverse (lstrip_of ch (reverse s))

abbrev pub hex_value : ℕ → Option ℕ
hex_value c =
    if is_digit c
    then some (c - b'0')
    else if leb b'a' c && leb c b'f'
    then some (c - b'a' + 10)
    else if leb b'A' c && leb c b'F'
    then some (c - b'A' + 10)
    else none

-- Hexadecimal digits with single underscores between them; the flags tell whether an underscore or the end
-- may come.
unfoldable pub hex_digits : (underscore finish : Bool) → ℕ → Bytes → Option ℕ
hex_digits underscore finish n [] = if finish then some n else none
hex_digits underscore finish n (c ∷ s) = elim (hex_value c) [
  | some d ↦ hex_digits true true (n * 16 + d) s
  | none ↦ elim (c == b'_' && underscore) [ true ↦ hex_digits false false n s | false ↦ none ]
]

unfoldable pub hex_body : Bytes → Option ℕ
unfolding hex_digits
hex_body [] = none
hex_body (c ∷ []) = hex_digits false false 0 (c ∷ [])
hex_body (c ∷ d ∷ s) =
    if c == b'0' && (d == b'x' || d == b'X')
    then hex_digits true false 0 s
    else hex_digits false false 0 (c ∷ d ∷ s)

-- `int(s, 16)`
unfoldable pub hex_number : Bytes → Option ℤ
unfolding hex_body negated
hex_number [] = none
hex_number (c ∷ s) =
    if c == b'-'
    then with_sign negated (hex_body s)
    else with_sign pos (if c == b'+' then hex_body s else hex_body (c ∷ s))

-- What stands behind the first `=` and before the next.
abbrev pub second_part : Bytes → Option Bytes
second_part s = at 1 (split b'=' (strip s))

unfoldable pub parse_throttled : Option Bytes → Option ℤ
unfolding hex_number
parse_throttled none = none
parse_throttled (some s) = elim (second_part s) [ none ↦ none | some v ↦ hex_number (strip v) ]

-- Whether a line is of the interface that is wanted; a line without a colon is of none.
unfoldable pub is_wanted_line : Bytes → Bytes → Bool
is_wanted_line want line = elim (split b':' line) [
  | [] ↦ false
  | name ∷ rest ↦ not (is_empty rest) && (is_empty want || strip name == want)
]

module _ {F : Type 0} ⦃f : Float F⦄ where
  unfoldable pub parse_volts : (Bytes → Option F) → Option Bytes → Option F
  unfolding rstrip_of
  parse_volts float none = none
  parse_volts float (some s) = elim (second_part s) [
    | none ↦ none
    | some v ↦ elim (float (rstrip_of b'V' v)) [ none ↦ none | some x ↦ some (f.round 3 x) ]
  ]

  -- `int(float(fields[n].rstrip(".")))`
  unfoldable pub dotted : (Bytes → Option F) → ℕ → List Bytes → Option ℤ
  unfolding rstrip_of
  dotted float n fields = elim (at n fields) [
    | none ↦ none
    | some w ↦ elim (float (rstrip_of b'.' w)) [ none ↦ none | some x ↦ some (f.to_int x) ]
  ]

  -- The level and the quality of an interface's line.
  unfoldable pub wifi_line : (Bytes → Option F) → Bytes → Option ℤ × Option ℤ
  unfolding dotted words
  wifi_line float line = elim (dotted float 2 (words line)) [
    | none ↦ (none, none)
    | some qual ↦ elim (dotted float 3 (words line)) [
      | none ↦ (none, none)
      | some rssi ↦ (some rssi, some qual)
    ]
  ]

  unfoldable pub scan_wifi : (Bytes → Option F) → Bytes → List Bytes → Option ℤ × Option ℤ
  unfolding is_wanted_line wifi_line
  scan_wifi float want [] = (none, none)
  scan_wifi float want (line ∷ lines) =
      let rest = scan_wifi float want lines in
      if is_wanted_line want line then wifi_line float line else rest

  -- The lines of /proc/net/wireless, the first two of which are headers.
  unfoldable pub read_wifi : (Bytes → Option F) → Bytes → Option (List Bytes) → Option ℤ × Option ℤ
  unfolding scan_wifi
  read_wifi float want none = (none, none)
  read_wifi float want (some lines) = scan_wifi float want (drop 2 lines)

-- One point of the history, with `SYS_FIELDS` as its fields.
pub record Point (F : Type 0) : Type 0 where
  pub t : ℤ
  pub cpu : Option F
  pub mem : Option F
  pub load1 : Option F
  pub load5 : Option F
  pub temp : Option F
  pub volt : Option F
  pub thr : Option ℤ
  pub rssi : Option ℤ
  pub qual : Option ℤ

-- What a sample reads.
pub record Sources (F : Type 0) : Type 0 where
  pub now : F
  pub stat : Option Bytes
  pub loadavg : Option Bytes
  pub meminfo : Option (List Bytes)
  pub zone : Option Bytes
  pub wireless : Option (List Bytes)
  pub measure_volts : Option Bytes
  pub get_throttled : Option Bytes

-- `_sys_history` and `_prev_cpu`
pub record Monitor (F : Type 0) : Type 0 where
  pub history : List (Point F)
  pub prev_cpu : Option (ℤ × ℤ)

-- The point of a sample, with the read of the processor's times before it.
unfoldable pub point_of :
    {F : Type 0} ⦃f : Float F⦄
    → (float : Bytes → Option F) (want : Bytes) → Option (ℤ × ℤ)
    → Sources F
    → Point F
unfolding cpu_pct read_loadavg read_mem_pct read_temp_c read_wifi parse_volts parse_throttled
point_of ⦃f⦄ float want prev r =
    let load = read_loadavg float r.loadavg in
    let wifi = read_wifi float want r.wireless in
    record {
      t = f.to_int r.now;
      cpu = (cpu_pct r.stat prev).0;
      mem = read_mem_pct float r.meminfo;
      load1 = load.0;
      load5 = load.1;
      temp = read_temp_c r.zone;
      volt = parse_volts float r.measure_volts;
      thr = parse_throttled r.get_throttled;
      rssi = wifi.0;
      qual = wifi.1;
    }

unfoldable pub sample_system :
    {F : Type 0} ⦃f : Float F⦄
    → (float : Bytes → Option F) (want : Bytes) (maxlen : ℕ) → Sources F
    → Monitor F
    → Monitor F
unfolding point_of cpu_pct append_point
sample_system ⦃f⦄ float want maxlen r m = record {
  history = append_point maxlen (point_of float want m.prev_cpu r) m.history;
  prev_cpu = (cpu_pct ⦃f = f⦄ r.stat m.prev_cpu).1;
}
