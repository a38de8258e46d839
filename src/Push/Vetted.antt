-- ===== src/Push/Vetted.antt =====
-- Where genpi/store.py sends notifications, after any requests to genpi/routes/push.py.
use generatorpi.Base.{
  All, Bytes, ℕ, ◌≡◌, ◌≢◌, ◌⊎◌, false, Option, none, some, List, [], ◌∷◌, bytes_key, nat_key,
}
use generatorpi.Push.Requests.{Field, text, has_value, PushCall, subscribe, unsubscribe, send}
use generatorpi.Push.Endpoint.{IsSafe}

module _ (bound : Field → Option Bytes) (max_subs : ℕ) where
  -- The request offers this endpoint: an https URL whose host stands for public addresses, and no others, on
  -- the network as it is then.
  abbrev pub Accepts : Bytes → PushCall → Type 0
  Accepts e (subscribe net none now) = ⊥
  Accepts e (subscribe net (some b) now) = (b.endpoint ≡ text e) × IsSafe net (net.urlparse e)
  Accepts e (unsubscribe f) = ⊥
  Accepts e (send a k d) = ⊥

  -- The request does not take the endpoint back.
  abbrev pub Survives : Bytes → PushCall → Type 0
  Survives e (subscribe net body now) = Unit
  Survives e (unsubscribe f) = (has_value f ≡ false) ⊎ (bound f ≢ some e)
  Survives e (send a k d) = Unit

  -- Some request offered it, and none after it takes it back.
  abbrev pub IsVetted : List PushCall → Bytes → Type 0
  IsVetted [] e = ⊥
  IsVetted (c ∷ calls) e = (Accepts e c × All (Survives e) calls) ⊎ IsVetted calls e
