-- ===== src/Auth.antt =====
-- genpi/auth.py: the credential checks and their cache. Texts are their UTF-8 bytes and the wall clock
-- counts whole units from the epoch. Parameters: `digest`, the HMAC under the secret of the process;
-- `verify`, werkzeug's `check_password_hash`; `dummy`, the hash for names that do not exist.
pub mod Transparent
pub mod Cap
pub mod Guard
mod Tests
use generatorpi.Base.{
  ltb, leb, if◌then◌else◌, length, keep, Key, ◌==◌, Dict, lookup, insert, contains, Bytes, ℕ, ◌+◌,
  Bool, false, not, ◌&&◌, Option, none, some, [], ◌∷◌, ◌++◌, bytes_key, nat_key,
}

-- `AUTH_USERS`: the stored hash of each name
abbrev pub Users : Type 0
Users = Dict Bytes Bytes

-- `_AUTH_CACHE_MAX`
abbrev pub cache_max : ℕ
cache_max = 256

-- `AUTH_USERS.get(username, _DUMMY_HASH)`
unfoldable pub stored_hash : Bytes → Bytes → Users → Bytes
stored_hash dummy name users = elim (lookup name users) [ none ↦ dummy | some h ↦ h ]

-- `exp is not None and exp > now`
unfoldable pub is_fresh : ℕ → Option ℕ → Bool
is_fresh now none = false
is_fresh now (some expiry) = ltb now expiry

module _ {D : Type 0} ⦃k : Key D⦄ where
  -- The eviction before an entry is added to a full cache.
  unfoldable pub make_space : ℕ → Dict D ℕ → Dict D ℕ
  make_space now cache =
      let live = keep (λ entry. ltb now entry.1) cache in
      if leb cache_max (length cache)
      then (if leb cache_max (length live) then [] else live)
      else cache

  -- `_auth_cache_key`: each part and a NUL byte after it
  unfoldable pub auth_cache_key : (Bytes → D) → Bytes → Bytes → Bytes → D
  auth_cache_key digest name stored password =
      digest (name ++ 0 ∷ (stored ++ 0 ∷ (password ++ 0 ∷ [])))

  -- A `ttl` that is negative in the environment is 0 here: either turns the cache off.
  unfoldable pub check_auth :
      (digest : Bytes → D) (verify : Bytes → Bytes → Bool) (dummy : Bytes) (ttl : ℕ) (users : Users)
      (now : ℕ) (name password : Bytes)
      → Dict D ℕ
      → Bool × Dict D ℕ
  unfolding stored_hash is_fresh make_space auth_cache_key
  check_auth digest verify dummy ttl users now name password cache =
      let stored = stored_hash dummy name users in
      let key = auth_cache_key digest name stored password in
      let ok = verify stored password && contains name users in
      if is_fresh now (lookup key cache)
      then (contains name users, cache)
      else if ok && ltb 0 ttl
      then (ok, insert key (now + ttl) (make_space now cache))
      else (ok, cache)

-- `CONFIG`'s part of `check_api_key`
pub record KeyConfig : Type 0 where
  pub api_key_enabled : Bool
  pub api_key : Bytes

-- `a or b` of two texts that may be missing; an empty text is false.
abbrev pub first_given : Option Bytes → Option Bytes → Option Bytes
first_given (some (x ∷ xs)) other = some (x ∷ xs)
first_given _ other = other

abbrev pub is_given : Bytes → Option Bytes → Bool
is_given configured none = false
is_given configured (some []) = false
is_given configured (some (x ∷ xs)) = (x ∷ xs) == configured

-- `?key=` goes before the header `X-API-Key`.
unfoldable pub check_api_key : KeyConfig → Option Bytes → Option Bytes → Bool
check_api_key c argument header =
    if not c.api_key_enabled
    then false
    else if c.api_key == []
    then false
    else is_given c.api_key (first_given argument header)
