-- ===== src/Push/Status.antt =====
-- The key cache of `push_status` never changes its answer.
use generatorpi.Base.{
  if◌then◌else◌, Bool-cases, if_either, ◌==◌, beq_eq, Bytes, ◌≡◌, refl, ap, ◌∙◌, ◌⊎◌, inl, inr,
  Bool, true, false, not, ◌&&◌, ◌||◌, Option, none, some, List, [], ◌∷◌, arith, bytes_key,
}
use generatorpi.Push.{
  Cache, is_cached, vapid_key_valid, Setup, Reason, is_ok, library_missing, no_keys, invalid_keys,
  push_status, no_cache, poll_all,
}

-- What the cache holds is what the parser says of its key.
pub IsFaithful : (Bytes → Bool) → Cache → Type 0
IsFaithful parses cache =
    (cache.key ≡ none) ⊎ ((k : Bytes) × (cache.key ≡ some k) × (cache.valid ≡ parses k))

hit_valid :
    (parses : Bytes → Bool) (priv : Bytes) (key : Option Bytes) (valid : Bool)
    → is_cached key priv ≡ true
    → (key ≡ none) ⊎ ((k : Bytes) × (key ≡ some k) × (valid ≡ parses k))
    → valid ≡ parses priv
hit_valid parses priv none valid hit f = absurd (ground arith)
hit_valid parses priv (some j) valid hit f = elim f [
  | inl e ↦ absurd (ground arith)
  | inr (k, e, v) ↦
      let same : some j ≡ some priv = ap (λ b. some b) (beq_eq j priv hit) in
      v ∙ ap parses (let q : k ≡ priv = ground (arith, same) in q)
]

vapid_key_valid_lem :
    (parses : Bytes → Bool) (priv : Bytes) (cache : Cache)
    → IsFaithful parses cache
    → let (valid, cache') = vapid_key_valid parses priv cache in
      (valid ≡ (not (priv == []) && parses priv)) × IsFaithful parses cache'
unfolding vapid_key_valid IsFaithful
vapid_key_valid_lem parses priv cache f = elim (Bool-cases (priv == [])) [
  | inl none_given ↦ rw none_given (refl, f)
  | inr given ↦ rw given (elim (Bool-cases (is_cached cache.key priv)) [
    | inl hit ↦ rw hit (hit_valid parses priv cache.key cache.valid hit f, f)
    | inr miss ↦ rw miss (refl, inr (priv, refl, refl))
  ])
]

-- The reason, read off the configuration alone.
unfoldable pub true_reason : (Bytes → Bool) → Setup → Reason
true_reason parses c =
    if not c.available
    then library_missing
    else if (c.private_key == []) || (c.public_key == [])
    then no_keys
    else if parses c.private_key
    then is_ok
    else invalid_keys

push_status_lem :
    (parses : Bytes → Bool) (c : Setup) (cache : Cache)
    → IsFaithful parses cache
    → ((push_status parses c cache).0.1 ≡ true_reason parses c)
      × IsFaithful parses (push_status parses c cache).1
unfolding push_status true_reason
push_status_lem parses c cache f =
    let (valid, cache') = vapid_key_valid parses c.private_key cache in
    let (answer, kept) = vapid_key_valid_lem parses c.private_key cache f in
    let P : (Bool × Reason) × Cache → Type 0 = (λ r. IsFaithful parses r.1) in
    (
      ground (arith, answer),
      if_either P (not c.available) {x = ((false, library_missing), cache)} f (
          if_either P ((c.private_key == []) || (c.public_key == []))
            {x = ((false, no_keys), cache)} f
            (if_either P (not valid) {x = ((false, invalid_keys), cache')}
              {y = ((true, is_ok), cache')} kept kept)),
    )

poll_all-IsFaithful :
    (parses : Bytes → Bool) (history : List Setup) (cache : Cache)
    → IsFaithful parses cache
    → IsFaithful parses (poll_all parses history cache)
unfolding poll_all
poll_all-IsFaithful parses [] cache f = f
poll_all-IsFaithful parses (c ∷ cs) cache f =
    poll_all-IsFaithful parses cs _ (push_status_lem parses c cache f).1

-- After any history of polls, whatever the configuration was at each, a poll reports the reason that the
-- configuration of now gives without the cache.
pub push_status_exact :
    (parses : Bytes → Bool) (history : List Setup) (c : Setup)
    → (push_status parses c (poll_all parses history no_cache)).0.1 ≡ true_reason parses c
push_status_exact parses history c =
    let fresh : IsFaithful parses no_cache = unfold IsFaithful in inl refl in
    (push_status_lem parses c _ (poll_all-IsFaithful parses history no_cache fresh)).0
