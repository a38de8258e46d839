-- ===== src/Auth/Tests.antt =====
-- The guard on concrete requests: the digest keeps its text, and a hash is the password itself.
use generatorpi.Base.{
  lookup, insert, Bytes, same_bytes, codes, ℕ, ◌≡◌, refl, true, not, ◌&&◌, none, some, List, [],
  ◌∷◌, arith, bytes_key,
}
use generatorpi.RateLimit.{no_failures, run, is_rate_limited, cleanup_tracker}
use generatorpi.RateLimit.Tests.{limits}
use generatorpi.Auth.{
  Users, stored_hash, is_fresh, make_space, auth_cache_key, check_auth, check_api_key,
}
use generatorpi.Auth.Transparent.{
  Attempt, attempt, after, IsClean, nil-IsGenuine, is_authentic, check_auth_transparent,
}
use generatorpi.Auth.Guard.{
  Setup, Request, Readings, Gate, auth_required, handled, by_password, caller_identity, check_basic,
  refuse, accept, by_key, server_error,
}
use generatorpi.Auth.Guard.Decision.{
  is_handled, is_locked, is_entitled, calls, auth_required_decides,
}

abbrev table : Users
table = ((1 ∷ 2 ∷ []), (7 ∷ 8 ∷ [])) ∷ []

table-IsClean : IsClean table
table-IsClean = (((omega arith, (omega arith, tt)), (omega arith, (omega arith, tt))), tt)

abbrev same_text : Bytes → Bytes
same_text b = b

abbrev login : ℕ → Bytes → Attempt
login now password = record { users = table; now = now; name = 1 ∷ 2 ∷ []; password = password }

abbrev visits : List Attempt
visits = login 100 (7 ∷ 8 ∷ []) ∷ login 110 (7 ∷ []) ∷ []

two_visits_cached :
    after same_text same_bytes [] 60 visits []
    ≡ ((1 ∷ 2 ∷ 0 ∷ 7 ∷ 8 ∷ 0 ∷ 7 ∷ 8 ∷ 0 ∷ []), 160) ∷ []
unfolding after attempt check_auth make_space stored_hash is_fresh auth_cache_key lookup insert
two_visits_cached = refl

check_auth_transparent_example :
    (attempt same_text same_bytes [] 60
      (login 120 (7 ∷ 8 ∷ []))
      (after same_text same_bytes [] 60 visits [])).0
    ≡ is_authentic same_text same_bytes [] table (1 ∷ 2 ∷ []) (7 ∷ 8 ∷ [])
check_auth_transparent_example =
    check_auth_transparent same_text same_bytes [] 60 visits (login 120 (7 ∷ 8 ∷ [])) (λ x y e. e)
      (table-IsClean, (table-IsClean, tt)) table-IsClean

abbrev setup : Setup
setup = record {
  limits = limits;
  keys = record { api_key_enabled = true; api_key = 5 ∷ [] };
  users = table;
  ttl = 60;
}

abbrev visit : Request
visit = record {
  ip = "10.0.0.9";
  key_argument = none;
  key_header = some (6 ∷ []);
  authorization = some (some (1 ∷ 2 ∷ []), some (7 ∷ 8 ∷ []));
}

abbrev readings : Readings
readings = record { checked = (20, 20); wall = 100; failed = (21, 21) }

abbrev fresh_gate : Gate Bytes
fresh_gate = record { tracker = no_failures 0; cache = [] }

auth_required_decides_example :
    (is_handled (auth_required same_text same_bytes [] setup visit readings fresh_gate).0
      ≡ not (is_locked setup visit readings (no_failures 0))
        && is_entitled same_bytes [] setup visit)
    × ((auth_required same_text same_bytes [] setup visit readings fresh_gate).1.tracker
        ≡ run limits
            (calls
              (is_locked setup visit readings (no_failures 0))
              (is_entitled same_bytes [] setup visit)
              visit
              readings)
            (no_failures 0))
auth_required_decides_example =
    auth_required_decides same_text same_bytes [] setup visit readings fresh_gate (λ x y e. e)
      table-IsClean (nil-IsGenuine same_text same_bytes)

abbrev bearer_visit : Request
bearer_visit = record visit { authorization = some (none, none) }

-- An Authorization header of another scheme raises: it is no failure to the rate limiter.
bearer_raises :
    auth_required same_text same_bytes [] setup bearer_visit readings fresh_gate
    ≡ (server_error, fresh_gate)
unfolding auth_required check_basic check_api_key is_rate_limited cleanup_tracker lookup
bearer_raises = refl

abbrev apikey_setup : Setup
apikey_setup = record setup { users = (codes "apikey", (7 ∷ 8 ∷ [])) ∷ [] }

abbrev apikey_visit : Request
apikey_visit = record visit { authorization = some (some (codes "apikey"), some (7 ∷ 8 ∷ [])) }

-- A user of that name logs in by password and has the identity of a key.
user_named_apikey :
    ((auth_required same_text same_bytes [] apikey_setup apikey_visit readings fresh_gate).0
      ≡ handled by_password)
    × (caller_identity by_password apikey_visit ≡ caller_identity by_key apikey_visit)
unfolding auth_required check_basic check_auth make_space stored_hash is_fresh auth_cache_key lookup
    insert check_api_key refuse accept is_rate_limited cleanup_tracker caller_identity
user_named_apikey = (refl, refl)
