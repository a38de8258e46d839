-- ===== src/Auth/Guard.antt =====
-- `auth_required` and `caller_identity` of genpi/auth.py, over the rate limiter of genpi/ratelimit.py.
pub mod Decision
use generatorpi.Base.{
  ltb, if◌then◌else◌, Key, Dict, Bytes, codes, ℕ, String, Bool, true, false, Option, none, some,
  bytes_key,
}
use generatorpi.RateLimit.{Limits, Tracker, is_rate_limited, record_failure, record_success}
use generatorpi.Auth.{check_auth, KeyConfig, check_api_key, Users}

pub record Setup : Type 0 where
  pub limits : Limits
  pub keys : KeyConfig
  pub users : Users
  pub ttl : ℕ

-- What `auth.username` and `auth.password` are: a text, or None where the header has no such part, as
-- with a scheme other than Basic.
abbrev pub Authorization : Type 0
Authorization = Option Bytes × Option Bytes

-- `authorization` is the Authorization header, if there is one.
pub record Request : Type 0 where
  pub ip : String
  pub key_argument : Option Bytes
  pub key_header : Option Bytes
  pub authorization : Option Authorization

-- The clocks as they are read on the way.
pub record Readings : Type 0 where
  pub checked : ℕ × ℕ
  pub wall : ℕ
  pub failed : ℕ × ℕ

pub record Gate (D : Type 0) : Type 0 where
  pub tracker : Tracker
  pub cache : Dict D ℕ

pub data Method : Type 0 where
  by_key by_password : Method

-- 429 with the seconds left; 401, with what `record_failure` returned; the handler runs; 500.
pub data Reply : Type 0 where
  too_many : ℕ → Reply
  unauthorized : Bool × ℕ → Reply
  handled : Method → Reply
  server_error : Reply

module _ {D : Type 0} ⦃k : Key D⦄ where
  -- `auth and check_auth(auth.username, auth.password)`; `none` if it raises: `_auth_cache_key` encodes
  -- both parts before anything else is done with the cache.
  unfoldable pub check_basic :
      (Bytes → D)
      → (Bytes → Bytes → Bool)
      → Bytes
      → Setup
      → ℕ
      → Option Authorization
      → Dict D ℕ
      → Option Bool × Dict D ℕ
  check_basic digest verify dummy c wall none cache = (some false, cache)
  check_basic digest verify dummy c wall (some (some name, some password)) cache =
      let (ok, cache') = check_auth digest verify dummy c.ttl c.users wall name password cache in
      (some ok, cache')
  check_basic digest verify dummy c wall (some (some name, none)) cache = (none, cache)
  check_basic digest verify dummy c wall (some (none, password)) cache = (none, cache)

  unfoldable pub refuse : Setup → Request → Readings → Gate D → Reply × Gate D
  refuse c r clock g = elim (record_failure c.limits r.ip clock.failed.0 clock.failed.1 g.tracker) [
    | none ↦ (server_error, g)
    | some (result, t) ↦ (unauthorized result, record g { tracker = t })
  ]

  unfoldable pub accept : Method → Request → Gate D → Reply × Gate D
  accept method r g = (handled method, record g { tracker = record_success r.ip g.tracker })

  unfoldable pub auth_required :
      (Bytes → D)
      → (Bytes → Bytes → Bool)
      → Bytes
      → Setup
      → Request
      → Readings
      → Gate D
      → Reply × Gate D
  unfolding check_basic refuse accept
  auth_required digest verify dummy c r clock g =
      let (left, t) = is_rate_limited c.limits r.ip clock.checked.0 clock.checked.1 g.tracker in
      let (ok, cache) = check_basic digest verify dummy c clock.wall r.authorization g.cache in
      if ltb 0 left
      then (too_many left, record g { tracker = t })
      else if check_api_key c.keys r.key_argument r.key_header
      then accept by_key r (record g { tracker = t })
      else elim ok [
        | none ↦ (server_error, record { tracker = t; cache = cache })
        | some true ↦ accept by_password r (record { tracker = t; cache = cache })
        | some false ↦ refuse c r clock (record { tracker = t; cache = cache })
      ]

-- The header is not looked at after a key; `none` is Python's None.
unfoldable pub caller_identity : Method → Request → Option Bytes
caller_identity by_key r = some (codes "apikey")
caller_identity by_password r = elim r.authorization [
  | none ↦ some (codes "apikey")
  | some auth ↦ auth.0
]
