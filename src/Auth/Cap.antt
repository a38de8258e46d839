-- ===== src/Auth/Cap.antt =====
-- The cap of the cache of genpi/auth.py.
use generatorpi.Base.{
  length, Key, Dict, length-insert, Bytes, ℕ, ◌+◌, ◌≤◌, ◌<◌, Bool, List, [], ◌∷◌, arith, bytes_key,
}
use generatorpi.Auth.{check_auth, Users, cache_max, stored_hash, make_space, auth_cache_key}
use generatorpi.Auth.Transparent.{attempt, after, Attempt}

module _ {D : Type 0} ⦃k : Key D⦄ where
  make_space_lt : (now : ℕ) (cache : Dict D ℕ) → length (make_space now cache) < cache_max
  unfolding make_space
  make_space_lt now cache = ground arith

  check_auth_le :
      (digest : Bytes → D) (verify : Bytes → Bytes → Bool) (dummy : Bytes) (ttl : ℕ) (users : Users)
      (now : ℕ) (name password : Bytes) (cache : Dict D ℕ)
      → length cache ≤ cache_max
      → length (check_auth digest verify dummy ttl users now name password cache).1 ≤ cache_max
  unfolding check_auth
  check_auth_le digest verify dummy ttl users now name password cache fits =
      let key = auth_cache_key digest name (stored_hash dummy name users) password in
      let room = make_space now cache in
      ground (arith, length-insert key (now + ttl) room, make_space_lt now cache)

  -- Whatever is checked, the cache never holds more than 256 entries, if it did not at first.
  pub cache_bounded :
      (digest : Bytes → D) (verify : Bytes → Bytes → Bool) (dummy : Bytes) (ttl : ℕ)
      (history : List Attempt) (cache : Dict D ℕ)
      → length cache ≤ cache_max
      → length (after digest verify dummy ttl history cache) ≤ cache_max
  unfolding after attempt
  cache_bounded digest verify dummy ttl [] cache fits = fits
  cache_bounded digest verify dummy ttl (a ∷ later) cache fits =
      cache_bounded digest verify dummy ttl later _
        (check_auth_le digest verify dummy ttl a.users a.now a.name a.password cache fits)
