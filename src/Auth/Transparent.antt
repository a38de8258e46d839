-- ===== src/Auth/Transparent.antt =====
-- The cache of genpi/auth.py never changes an answer, and stays within its cap.
use generatorpi.Base.{
  ltb, Bool-cases, Option-cases, if_either, keep, All, All-keep, Key, Dict, lookup, insert,
  contains, All-lookup, All-insert, Bytes, ℕ, ◌+◌, ◌<◌, ◌≡◌, refl, sym, inl, inr, Bool, true, ◌&&◌,
  List, [], ◌∷◌, ◌++◌, arith, bytes_key,
}
use generatorpi.Auth.{Users, stored_hash, make_space, auth_cache_key, check_auth, is_fresh}

-- Names and hashes hold no NUL byte.
abbrev pub NoNul : Bytes → Type 0
NoNul = All (λ b. 0 < b)

abbrev pub IsClean : Users → Type 0
IsClean = All (λ entry. NoNul entry.0 × NoNul entry.1)

-- The three parts of a key can be read back from it.
split_nul :
    (u v : Bytes) {r s : Bytes} → NoNul u → NoNul v → u ++ 0 ∷ r ≡ v ++ 0 ∷ s → (u ≡ v) × (r ≡ s)
split_nul [] [] hu hv e = ground arith
split_nul [] (y ∷ v) hu hv e = ground arith
split_nul (x ∷ u) [] hu hv e = ground arith
split_nul (x ∷ u) (y ∷ v) {r} {s} hu hv e = ground (arith, split_nul u v {r = r} {s = s} hu.1 hv.1)

append_cancel : (u v : Bytes) → u ++ 0 ∷ [] ≡ v ++ 0 ∷ [] → u ≡ v
append_cancel [] [] e = refl
append_cancel [] (y ∷ []) e = ground arith
append_cancel [] (y ∷ z ∷ v) e = ground arith
append_cancel (x ∷ []) [] e = ground arith
append_cancel (x ∷ z ∷ u) [] e = ground arith
append_cancel (x ∷ u) (y ∷ v) e = ground (arith, append_cancel u v)

module _ {D : Type 0} ⦃k : Key D⦄ (digest : Bytes → D) (verify : Bytes → Bytes → Bool) where
  -- A key of the cache was made from a credential that was verified.
  Genuine : D → Type 0
  Genuine key =
      (u : Bytes) × (h : Bytes) × (p : Bytes) × (auth_cache_key digest u h p ≡ key)
      × NoNul u
      × NoNul h
      × (verify h p ≡ true)

  pub IsGenuine : Dict D ℕ → Type 0
  IsGenuine = All (λ entry. Genuine entry.0)

  -- What `check_auth` answers without a cache.
  unfoldable pub is_authentic : Bytes → Users → Bytes → Bytes → Bool
  is_authentic dummy users name password =
      verify (stored_hash dummy name users) password && contains name users

  keep-IsGenuine :
      (p : D × ℕ → Bool) (cache : Dict D ℕ) → IsGenuine cache → IsGenuine (keep p cache)
  unfolding IsGenuine
  keep-IsGenuine = All-keep (λ entry. Genuine entry.0)

  pub nil-IsGenuine : IsGenuine []
  unfolding IsGenuine
  nil-IsGenuine = tt

  insert-IsGenuine :
      (key : D) (expiry : ℕ) (cache : Dict D ℕ)
      → Genuine key
      → IsGenuine cache
      → IsGenuine (insert key expiry cache)
  unfolding IsGenuine
  insert-IsGenuine = All-insert (λ entry. Genuine entry.0)

  make_space-IsGenuine :
      (now : ℕ) (cache : Dict D ℕ) → IsGenuine cache → IsGenuine (make_space now cache)
  unfolding make_space
  make_space-IsGenuine now cache g =
      if_either IsGenuine _ (if_either IsGenuine _ nil-IsGenuine (keep-IsGenuine _ cache g)) g

  -- A name in the table has a hash there that is clean.
  member_stored :
      (dummy : Bytes) (users : Users) (name : Bytes)
      → IsClean users
      → contains name users ≡ true
      → NoNul name × NoNul (stored_hash dummy name users)
  unfolding stored_hash
  member_stored dummy users name clean c = elim (Option-cases (lookup name users)) [
    | inl q ↦ absurd (ground arith)
    | inr (h, q) ↦
        rw (q, stored_hash)
          (All-lookup (λ entry. NoNul entry.0 × NoNul entry.1) name h users clean q)
  ]

  check_auth-IsGenuine :
      (dummy : Bytes) (ttl : ℕ) (users : Users) (now : ℕ) (name password : Bytes) (cache : Dict D ℕ)
      → IsClean users
      → IsGenuine cache
      → IsGenuine (check_auth digest verify dummy ttl users now name password cache).1
  unfolding check_auth Genuine
  check_auth-IsGenuine dummy ttl users now name password cache clean g =
      let stored = stored_hash dummy name users in
      let ok = verify stored password && contains name users in
      let key = auth_cache_key digest name stored password in
      elim (Bool-cases (is_fresh now (lookup key cache))) [
        | inl hit ↦ rw hit g
        | inr miss ↦ rw miss (elim (Bool-cases (ok && ltb 0 ttl)) [
          | inl e ↦
              let (clean_name, clean_hash) = member_stored dummy users name clean (ground arith) in
              rw e (
                insert-IsGenuine key (now + ttl) (make_space now cache)
                  (name, stored, password, refl, clean_name, clean_hash, ground arith)
                  (make_space-IsGenuine now cache g))
          | inr e ↦ rw e g
        ])
      ]

  module _ (injective : (x y : Bytes) → digest x ≡ digest y → x ≡ y) where
    same_credential :
        (u h p v i q : Bytes)
        → NoNul u
        → NoNul h
        → NoNul v
        → NoNul i
        → auth_cache_key digest u h p ≡ auth_cache_key digest v i q
        → (h ≡ i) × (p ≡ q)
    unfolding auth_cache_key
    same_credential u h p v i q hu hh hv hi e =
        let (_, rest) = split_nul u v hu hv (injective _ _ e) in
        let (same_hash, tail) = split_nul h i hh hi rest in (same_hash, append_cancel p q tail)

    hit_is_authentic :
        (dummy : Bytes) (users : Users) (name password : Bytes)
        → IsClean users
        → Genuine (auth_cache_key digest name (stored_hash dummy name users) password)
        → contains name users ≡ true
        → verify (stored_hash dummy name users) password ≡ true
    unfolding Genuine
    hit_is_authentic dummy users name password clean (u, h, p, e, hu, hh, ok) c =
        let (clean_name, clean_hash) = member_stored dummy users name clean c in
        let (a, b) = same_credential u h p name _ password hu hh clean_name clean_hash e in
        rw (sym a, sym b) ok

    pub check_auth-is_authentic :
        (dummy : Bytes) (ttl : ℕ) (users : Users) (now : ℕ) (name password : Bytes)
        (cache : Dict D ℕ)
        → IsClean users
        → IsGenuine cache
        → (check_auth digest verify dummy ttl users now name password cache).0
          ≡ is_authentic dummy users name password
    unfolding check_auth is_authentic IsGenuine is_fresh
    check_auth-is_authentic dummy ttl users now name password cache clean g =
        let key = auth_cache_key digest name (stored_hash dummy name users) password in
        elim (Option-cases (lookup key cache)) [
          | inl q ↦ ground arith
          | inr (expiry, q) ↦
              let genuine = All-lookup (λ entry. Genuine entry.0) key expiry cache g q in
              ground (arith, hit_is_authentic dummy users name password clean genuine)
        ]

-- One call of `check_auth`, with the table of that time.
pub record Attempt : Type 0 where
  pub users : Users
  pub now : ℕ
  pub name : Bytes
  pub password : Bytes

module _ {D : Type 0} ⦃k : Key D⦄ where
  unfoldable pub attempt :
      (Bytes → D) → (Bytes → Bytes → Bool) → Bytes → ℕ → Attempt → Dict D ℕ → Bool × Dict D ℕ
  attempt digest verify dummy ttl a =
      check_auth digest verify dummy ttl a.users a.now a.name a.password

  unfoldable pub after :
      (Bytes → D) → (Bytes → Bytes → Bool) → Bytes → ℕ → List Attempt → Dict D ℕ → Dict D ℕ
  unfolding attempt
  after digest verify dummy ttl [] cache = cache
  after digest verify dummy ttl (a ∷ later) cache =
      after digest verify dummy ttl later (attempt digest verify dummy ttl a cache).1

  after-IsGenuine :
      (digest : Bytes → D) (verify : Bytes → Bytes → Bool) (dummy : Bytes) (ttl : ℕ)
      (history : List Attempt) (cache : Dict D ℕ)
      → All (λ a. IsClean a.users) history
      → IsGenuine digest verify cache
      → IsGenuine digest verify (after digest verify dummy ttl history cache)
  unfolding after
  after-IsGenuine digest verify dummy ttl [] cache clean g = g
  after-IsGenuine digest verify dummy ttl (a ∷ later) cache clean g =
      after-IsGenuine digest verify dummy ttl later _ clean.1 (
        check_auth-IsGenuine digest verify dummy ttl a.users a.now a.name a.password cache clean.0
          g)

  -- After any history of checks from an empty cache, whatever the table was at each of them, a check
  -- answers exactly what it would answer without the cache: the password verifies against the hash
  -- that is stored now, and the name is in the table now. The conditions: the digest does not
  -- collide, and no name or hash of a table holds a NUL byte.
  pub check_auth_transparent :
      (digest : Bytes → D) (verify : Bytes → Bytes → Bool) (dummy : Bytes) (ttl : ℕ)
      (history : List Attempt) (a : Attempt)
      → ((x y : Bytes) → digest x ≡ digest y → x ≡ y)
      → All (λ b. IsClean b.users) history
      → IsClean a.users
      → (attempt digest verify dummy ttl a (after digest verify dummy ttl history [])).0
        ≡ is_authentic digest verify dummy a.users a.name a.password
  unfolding attempt
  check_auth_transparent digest verify dummy ttl history a injective cleans clean =
      check_auth-is_authentic digest verify injective dummy ttl a.users a.now a.name a.password _
        clean
        (after-IsGenuine digest verify dummy ttl history [] cleans (nil-IsGenuine digest verify))
