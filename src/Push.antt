-- ===== src/Push.antt =====
-- Whether Web Push can be sent: `push_status` of genpi/store.py and the cache of its key check. `parses`
-- is whether py-vapid's `Vapid.from_raw` takes a key; an absent key is the empty one.
pub mod Status
pub mod Subscriptions
pub mod Endpoint
pub mod Requests
pub mod Reports
pub mod Table
pub mod Vetted
mod Tests
use generatorpi.Base.{
  if◌then◌else◌, ◌==◌, Bytes, Bool, true, false, not, ◌||◌, Option, none, some, List, [], ◌∷◌,
  bytes_key,
}

-- What `push_status` looks at.
pub record Setup : Type 0 where
  pub available : Bool
  pub private_key : Bytes
  pub public_key : Bytes

pub data Reason : Type 0 where
  is_ok library_missing no_keys invalid_keys : Reason

-- `_vapid_valid_cache`
pub record Cache : Type 0 where
  pub key : Option Bytes
  pub valid : Bool

abbrev pub no_cache : Cache
no_cache = record { key = none; valid = false }

abbrev pub is_cached : Option Bytes → Bytes → Bool
is_cached none priv = false
is_cached (some k) priv = k == priv

unfoldable pub vapid_key_valid : (Bytes → Bool) → Bytes → Cache → Bool × Cache
vapid_key_valid parses priv cache =
    if priv == []
    then (false, cache)
    else if is_cached cache.key priv
    then (cache.valid, cache)
    else (parses priv, record { key = some priv; valid = parses priv })

unfoldable pub push_status : (Bytes → Bool) → Setup → Cache → (Bool × Reason) × Cache
unfolding vapid_key_valid
push_status parses c cache =
    let (valid, cache') = vapid_key_valid parses c.private_key cache in
    if not c.available
    then ((false, library_missing), cache)
    else if (c.private_key == []) || (c.public_key == [])
    then ((false, no_keys), cache)
    else if not valid
    then ((false, invalid_keys), cache')
    else ((true, is_ok), cache')

-- The polls of a process, with the configuration at each.
unfoldable pub poll_all : (Bytes → Bool) → List Setup → Cache → Cache
unfolding push_status
poll_all parses [] cache = cache
poll_all parses (c ∷ cs) cache = poll_all parses cs (push_status parses c cache).1
