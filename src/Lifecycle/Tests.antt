-- ===== src/Lifecycle/Tests.antt =====
-- Binding a port that drains twice.
use generatorpi.Base.{ltb, if◌then◌else◌, ℕ, ◌≡◌, refl}
use generatorpi.Lifecycle.{Bind, free, draining, bound, bind_retry}
use generatorpi.Lifecycle.Retries.{Fits, binding_ends}

abbrev port : ℕ → Bind
port n = if ltb n 2 then draining else free

two_sleeps : bind_retry port 10 0 ≡ (bound, 2)
unfolding bind_retry
two_sleeps = refl

binding_ends_example : Fits port 10 0 (bind_retry port 10 0)
binding_ends_example = binding_ends port
