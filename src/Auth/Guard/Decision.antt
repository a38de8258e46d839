-- ===== src/Auth/Guard/Decision.antt =====
-- Who gets past `auth_required` of genpi/auth.py, and what it records.
use generatorpi.Base.{
  ltb, if◌then◌else◌, Bool-cases, Option-cases, Key, Dict, contains, Bytes, ℕ, ◌≡◌, refl, ap, inl,
  inr, Bool, true, false, not, ◌&&◌, ◌||◌, Option, none, some, List, [], ◌∷◌, bytes_key,
}
use generatorpi.RateLimit.{
  Tracker, is_rate_limited, Call, check, fail, succeed, run, step, record_failure,
}
use generatorpi.Auth.{check_api_key, stored_hash}
use generatorpi.Auth.Transparent.{check_auth-is_authentic, IsClean, IsGenuine, is_authentic}
use generatorpi.Auth.Guard.{
  Setup, Request, Readings, Gate, Reply, too_many, unauthorized, handled, server_error, check_basic,
  auth_required, refuse, accept, Authorization,
}

unfoldable pub is_handled : Reply → Bool
is_handled (handled method) = true
is_handled (too_many left) = false
is_handled (unauthorized result) = false
is_handled server_error = false

unfoldable pub is_locked : Setup → Request → Readings → Tracker → Bool
is_locked c r clock t = ltb 0 (is_rate_limited c.limits r.ip clock.checked.0 clock.checked.1 t).0

-- A name of the table and its password, judged without the cache.
unfoldable pub has_login : (Bytes → Bytes → Bool) → Bytes → Setup → Option Authorization → Bool
has_login verify dummy c (some (some name, some password)) =
    verify (stored_hash dummy name c.users) password && contains name c.users
has_login verify dummy c (some (some name, none)) = false
has_login verify dummy c (some (none, password)) = false
has_login verify dummy c none = false

-- An Authorization header without a name or without a password.
unfoldable pub is_partial : Option Authorization → Bool
is_partial none = false
is_partial (some (some name, some password)) = false
is_partial (some (some name, none)) = true
is_partial (some (none, password)) = true

-- What the request shows.
unfoldable pub is_entitled : (Bytes → Bytes → Bool) → Bytes → Setup → Request → Bool
unfolding has_login
is_entitled verify dummy c r =
    check_api_key c.keys r.key_argument r.key_header || has_login verify dummy c r.authorization

-- What the request is to the rate limiter.
unfoldable pub calls : (locked entitled : Bool) → Request → Readings → List Call
unfolding is_partial
calls locked entitled r clock =
    check r.ip clock.checked.0 clock.checked.1
    ∷ (if locked
        then []
        else if entitled
        then succeed r.ip ∷ []
        else if is_partial r.authorization
        then []
        else fail r.ip clock.failed.0 clock.failed.1 ∷ [])

partial_login :
    (verify : Bytes → Bytes → Bool) (dummy : Bytes) (c : Setup) (auth : Option Authorization)
    → is_partial auth ≡ true
    → has_login verify dummy c auth ≡ false
unfolding is_partial has_login
partial_login verify dummy c none h = refl
partial_login verify dummy c (some (some name, some password)) h = absurd (cc)
partial_login verify dummy c (some (some name, none)) h = refl
partial_login verify dummy c (some (none, password)) h = refl

module _ {D : Type 0} ⦃k : Key D⦄ where
  refuse_fails :
      (c : Setup) (r : Request) (clock : Readings) (g : Gate D)
      → (is_handled (refuse c r clock g).0 ≡ false)
        × ((refuse c r clock g).1.tracker
            ≡ step c.limits (fail r.ip clock.failed.0 clock.failed.1) g.tracker)
  unfolding refuse step is_handled
  refuse_fails c r clock g =
      elim (Option-cases (record_failure c.limits r.ip clock.failed.0 clock.failed.1 g.tracker)) [
        | inl q ↦ rw (q, refuse, step, is_handled) (refl, refl)
        | inr ((result, t'), q) ↦ rw (q, refuse, step, is_handled) (refl, refl)
      ]

  check_basic_is_authentic :
      (digest : Bytes → D) (verify : Bytes → Bytes → Bool) (dummy : Bytes) (c : Setup) (wall : ℕ)
      (auth : Option Authorization) (cache : Dict D ℕ)
      → ((x y : Bytes) → digest x ≡ digest y → x ≡ y)
      → IsClean c.users
      → IsGenuine digest verify cache
      → (check_basic digest verify dummy c wall auth cache).0
        ≡ (if is_partial auth then none else some (has_login verify dummy c auth))
  unfolding check_basic is_authentic is_partial has_login
  check_basic_is_authentic digest verify dummy c wall none cache injective clean genuine = refl
  check_basic_is_authentic digest verify dummy c wall (some (some name, some password)) cache
        injective clean genuine =
      ap some (
        check_auth-is_authentic digest verify injective dummy c.ttl c.users wall name password cache
          clean genuine)
  check_basic_is_authentic digest verify dummy c wall (some (some name, none)) cache injective clean
        genuine =
      refl
  check_basic_is_authentic digest verify dummy c wall (some (none, password)) cache injective clean
        genuine =
      refl

  -- The handler runs exactly when the IP is not locked out and the request shows the configured key
  -- or a name of the table with the password that verifies against its hash. The rate limiter sees
  -- one check, and then nothing of a locked-out IP, a success of a handled request, nothing of another
  -- request whose Authorization header has no name or no password, and a failure of all the others. The
  -- conditions: the digest does not collide, the cache holds verified credentials only, and the table
  -- holds no NUL byte.
  pub auth_required_decides :
      (digest : Bytes → D) (verify : Bytes → Bytes → Bool) (dummy : Bytes) (c : Setup) (r : Request)
      (clock : Readings) (g : Gate D)
      → ((x y : Bytes) → digest x ≡ digest y → x ≡ y)
      → IsClean c.users
      → IsGenuine digest verify g.cache
      → let locked = is_locked c r clock g.tracker in
        let entitled = is_entitled verify dummy c r in
        let (reply, g') = auth_required digest verify dummy c r clock g in
        (is_handled reply ≡ not locked && entitled)
        × (g'.tracker ≡ run c.limits (calls locked entitled r clock) g.tracker)
  unfolding auth_required is_handled is_locked is_entitled calls run step accept
  auth_required_decides digest verify dummy c r clock g injective clean genuine =
      let limited = is_rate_limited c.limits r.ip clock.checked.0 clock.checked.1 g.tracker in
      let key_ok = check_api_key c.keys r.key_argument r.key_header in
      let checked = check_basic digest verify dummy c clock.wall r.authorization g.cache in
      let same =
        check_basic_is_authentic digest verify dummy c clock.wall r.authorization g.cache injective
          clean genuine in
      elim (Bool-cases (ltb 0 limited.0)) [
        | inl locked ↦ rw locked (refl, refl)
        | inr free ↦
            rw (free, same)
              (elim (Bool-cases key_ok) [
                | inl keyed ↦ rw keyed (refl, refl)
                | inr unkeyed ↦ rw unkeyed (elim (Bool-cases (is_partial r.authorization)) [
                  | inl broken ↦
                      rw (broken, partial_login verify dummy c r.authorization broken) (refl, refl)
                  | inr both ↦
                      rw both (elim (Bool-cases (has_login verify dummy c r.authorization)) [
                        | inl ok ↦ rw ok (refl, refl)
                        | inr wrong ↦ rw wrong (
                            refuse_fails c r clock
                              (record { tracker = limited.1; cache = checked.1 }))
                      ])
                ])
              ])
      ]
