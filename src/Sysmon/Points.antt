-- ===== src/Sysmon/Points.antt =====
-- What the history of genpi/sysmon.py holds after any number of samples.
use generatorpi.Base.{ℤ, Bytes, ℕ, ◌≡◌, refl, ◌∙◌, Option, none, List, [], ◌∷◌}
use generatorpi.Float.{Float}
use generatorpi.Sysmon.{read_cpu_times, cpu_pct}
use generatorpi.Sysmon.History.{append_all, last_points, history_holds_newest}
use generatorpi.Sysmon.Sampling.{Sources, Monitor, Point, point_of, sample_system}

module _ {F : Type 0} ⦃f : Float F⦄ (float : Bytes → Option F) (want : Bytes) where
  -- The points of some samples: the load of the processor is that since the sample before.
  unfoldable pub points_since : Option (ℤ × ℤ) → List (Sources F) → List (Point F)
  unfolding point_of read_cpu_times
  points_since prev [] = []
  points_since prev (r ∷ rs) = point_of float want prev r ∷ points_since (read_cpu_times r.stat) rs

module _ {F : Type 0} ⦃f : Float F⦄ (float : Bytes → Option F) (want : Bytes) (maxlen : ℕ) where
  -- The loop of `system_monitor_loop`.
  unfoldable pub sample_all : List (Sources F) → Monitor F → Monitor F
  unfolding sample_system
  sample_all [] m = m
  sample_all (r ∷ rs) m = sample_all rs (sample_system float want maxlen r m)

  sample_all-append :
      (rs : List (Sources F)) (m : Monitor F)
      → (sample_all rs m).history
        ≡ append_all maxlen (points_since float want m.prev_cpu rs) m.history
  unfolding sample_all points_since append_all sample_system cpu_pct
  sample_all-append [] m = refl
  sample_all-append (r ∷ rs) m = sample_all-append rs (sample_system float want maxlen r m)

  -- After any number of samples from the start, the history holds exactly the points of the newest ones,
  -- as many as it has places for, in their order; a point's processor load is that since the sample
  -- before it, also where that one is no longer held.
  pub sample_all_exact :
      (rs : List (Sources F))
      → (sample_all rs (record { history = []; prev_cpu = none })).history
        ≡ last_points maxlen (points_since float want none rs)
  sample_all_exact rs =
      sample_all-append rs (record { history = []; prev_cpu = none })
      ∙ history_holds_newest maxlen (points_since float want none rs)
