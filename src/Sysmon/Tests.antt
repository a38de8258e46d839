-- ===== src/Sysmon/Tests.antt =====
-- Readings at concrete files, and the buffer of three points.
use generatorpi.Float.Fixed.{fixed}
use generatorpi.Sysmon.Points.{sample_all, points_since, sample_all_exact}
use generatorpi.Base.{
  if◌then◌else◌, ◌==◌, ℤ, pos, Bytes, codes, ℕ, ◌≡◌, refl, Option, none, some, [], ◌∷◌, bytes_key,
  nat_key,
}
use generatorpi.Sysmon.{
  read_cpu_times, words, all_ints, jiffies, auto_temp_path, scan_zones, choose_zone, holds,
}
use generatorpi.Sysmon.History.{last_points, append_all, append_point}
use generatorpi.Sysmon.Mirror.{watch, watch_mirrors}
use generatorpi.Sysmon.Sampling.{Point, Sources, parse_throttled, hex_number, hex_body, hex_digits}
use generatorpi.Release.{signed, digits, negated}

cpu_line : read_cpu_times (some (codes "cpu  10 2 3 40 5\n")) ≡ some (pos 60, pos 45)
unfolding read_cpu_times words all_ints jiffies signed digits negated
cpu_line = refl

short_line : read_cpu_times (some (codes "cpu 10 2 3")) ≡ none
unfolding read_cpu_times words all_ints jiffies signed digits negated
short_line = refl

flags : parse_throttled (some (codes "throttled=0x50005\n")) ≡ some (pos 327685)
unfolding parse_throttled hex_number hex_body hex_digits negated
flags = refl

soc_zone :
    auto_temp_path []
      (some (
        (codes "z0", none)
        ∷ (codes "z1", some (codes "gpu"))
        ∷ (codes "z2", some (codes "SoC-thermal"))
        ∷ []))
      none
    ≡ (codes "z2", some (codes "z2"))
unfolding auto_temp_path scan_zones choose_zone holds
soc_zone = refl

newest_three :
    append_all {A = ℤ} 3 (pos 1 ∷ pos 2 ∷ pos 3 ∷ pos 4 ∷ []) [] ≡ pos 2 ∷ pos 3 ∷ pos 4 ∷ []
unfolding append_all append_point
newest_three = refl

abbrev reading : ℕ → Sources ℤ
reading n = record {
  now = pos n;
  stat = some (if n == 1 then codes "cpu 10 0 0 40" else codes "cpu 40 0 0 50");
  loadavg = none;
  meminfo = none;
  zone = some (codes "48312");
  wireless = none;
  measure_volts = none;
  get_throttled = none;
}

abbrev no_floats : Bytes → Option ℤ
no_floats s = none

sample_all_exact_example :
    (sample_all no_floats [] 2
      (reading 1 ∷ reading 2 ∷ reading 3 ∷ [])
      (record { history = []; prev_cpu = none })).history
    ≡ last_points 2 (points_since no_floats [] none (reading 1 ∷ reading 2 ∷ reading 3 ∷ []))
sample_all_exact_example = sample_all_exact no_floats [] 2 (reading 1 ∷ reading 2 ∷ reading 3 ∷ [])

abbrev point : ℕ → Point ℤ
point n = record {
  t = pos n;
  cpu = some (pos n);
  mem = none;
  load1 = none;
  load5 = none;
  temp = none;
  volt = none;
  thr = none;
  rssi = none;
  qual = some (pos 70);
}

watch_mirrors_example :
    watch 2 ((point 1 ∷ []) ∷ [] ∷ (point 3 ∷ point 4 ∷ []) ∷ []) [] []
    ≡ (point 3 ∷ point 4 ∷ [], point 3 ∷ point 4 ∷ [])
watch_mirrors_example =
    watch_mirrors 1 ((point 1 ∷ []) ∷ [] ∷ (point 3 ∷ point 4 ∷ []) ∷ [])
      ((refl, (refl, tt)), ((refl, tt), (tt, tt)))
