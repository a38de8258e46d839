-- ===== src/Push/Endpoint.antt =====
-- `_push_endpoint_error` of genpi/routes/push.py. Python's `urlparse`,
-- `ipaddress` and `getaddrinfo` are the fields of `Network`.
use generatorpi.Base.{
  if◌then◌else◌, Bool-cases, Option-cases, if_true, if_false, length, All, ◌==◌, beq_refl, beq_eq,
  Bytes, codes, ℕ, ◌<◌, ◌≡◌, refl, sym, ap, ◌∙◌, subst, ◌↔◌, inl, inr, Bool, true, false, not, ◌||◌,
  Option, none, some, List, [], ◌∷◌, arith, bytes_key,
}

pub record Address : Type 0 where
  pub is_private : Bool
  pub is_loopback : Bool
  pub is_link_local : Bool
  pub is_reserved : Bool

-- `urlparse` gives the scheme and the host name, or raises.
pub record Network : Type 0 where
  pub urlparse : Bytes → Option (Bytes × Option Bytes)
  pub ip_address : Bytes → Option Address
  pub getaddrinfo : Bytes → Option (List Bytes)

pub data EndpointError : Type 0 where
  missing not_https no_host not_public unresolved invalid_address non_routable : EndpointError

pub data Verdict : Type 0 where
  accepted : Verdict
  refused : EndpointError → Verdict
  raised : Verdict

unfoldable pub is_internal : Address → Bool
is_internal ip = ip.is_private || ip.is_loopback || ip.is_link_local || ip.is_reserved

-- The loop over the resolved addresses.
unfoldable pub check_infos : Network → List Bytes → Verdict
unfolding is_internal
check_infos net [] = accepted
check_infos net (addr ∷ infos) =
    let rest = check_infos net infos in
    elim (net.ip_address addr) [
      | none ↦ refused invalid_address
      | some rip ↦ if is_internal rip then refused non_routable else rest
    ]

unfoldable pub check_resolved : Network → Option (List Bytes) → Verdict
unfolding check_infos
check_resolved net none = refused unresolved
check_resolved net (some []) = refused unresolved
check_resolved net (some (a ∷ infos)) = check_infos net (a ∷ infos)

unfoldable pub check_literal : Network → Bytes → Option Address → Verdict
unfolding is_internal check_resolved
check_literal net host none = check_resolved net (net.getaddrinfo host)
check_literal net host (some ip) = if is_internal ip then refused not_public else accepted

unfoldable pub check_host : Network → Option Bytes → Verdict
unfolding check_literal
check_host net none = refused no_host
check_host net (some []) = refused no_host
check_host net (some (c ∷ host)) = check_literal net (c ∷ host) (net.ip_address (c ∷ host))

unfoldable pub check_url : Network → Option (Bytes × Option Bytes) → Verdict
unfolding check_host
check_url net none = raised
check_url net (some (scheme, host)) =
    if not (scheme == codes "https") then refused not_https else check_host net host

-- A value that is no string is `none`.
unfoldable pub push_endpoint_error : Network → Option Bytes → Verdict
unfolding check_url
push_endpoint_error net none = refused missing
push_endpoint_error net (some []) = refused missing
push_endpoint_error net (some (c ∷ s)) = check_url net (net.urlparse (c ∷ s))

abbrev pub resolved_to : Option (List Bytes) → List Bytes
resolved_to none = []
resolved_to (some infos) = infos

-- What the host stands for: itself if it is an address, what it resolves to otherwise.
unfoldable pub destinations : Network → Bytes → Option Address → List Bytes
destinations net host (some ip) = host ∷ []
destinations net host none = resolved_to (net.getaddrinfo host)

abbrev pub IsPublic : Network → Bytes → Type 0
IsPublic net a = (ip : Address) × ((net.ip_address a ≡ some ip) × (is_internal ip ≡ false))

check_infos-IsPublic :
    (net : Network) (infos : List Bytes)
    → check_infos net infos ≡ accepted
    → All (IsPublic net) infos
unfolding check_infos
check_infos-IsPublic net [] h = tt
check_infos-IsPublic net (a ∷ infos) h = elim (Option-cases (net.ip_address a)) [
  | inl none_is ↦ absurd (grind (arith, h, none_is))
  | inr (ip, is_ip) ↦ elim (Bool-cases (is_internal ip)) [
    | inl inside ↦ absurd (grind (arith, h, is_ip, inside))
    | inr outside ↦
        ((ip, (is_ip, outside)), check_infos-IsPublic net infos (grind (arith, h, is_ip, outside)))
  ]
]

check_resolved-IsPublic :
    (net : Network) (r : Option (List Bytes))
    → check_resolved net r ≡ accepted
    → All (IsPublic net) (resolved_to r)
unfolding check_resolved
check_resolved-IsPublic net none h = tt
check_resolved-IsPublic net (some []) h = tt
check_resolved-IsPublic net (some (a ∷ infos)) h = check_infos-IsPublic net (a ∷ infos) h

resolved-some :
    (net : Network) (r : Option (List Bytes))
    → check_resolved net r ≡ accepted
    → 0 < length (resolved_to r)
unfolding check_resolved
resolved-some net none h = absurd (cc)
resolved-some net (some []) h = absurd (cc)
resolved-some net (some (a ∷ infos)) h = omega arith

check_infos-accepts :
    (net : Network) (infos : List Bytes)
    → All (IsPublic net) infos
    → check_infos net infos ≡ accepted
unfolding check_infos
check_infos-accepts net [] h = refl
check_infos-accepts net (a ∷ infos) ((ip, (is_ip, outside)), rest) =
    grind (arith, is_ip, outside, check_infos-accepts net infos rest)

check_resolved-accepts :
    (net : Network) (r : Option (List Bytes))
    → 0 < length (resolved_to r)
    → All (IsPublic net) (resolved_to r)
    → check_resolved net r ≡ accepted
unfolding check_resolved
check_resolved-accepts net none n h = absurd (omega arith)
check_resolved-accepts net (some []) n h = absurd (omega arith)
check_resolved-accepts net (some (a ∷ infos)) n h = check_infos-accepts net (a ∷ infos) h

-- The host stands for some address, and every address that it stands for is public.
abbrev pub IsPublicHost : Network → Bytes → Option Address → Type 0
IsPublicHost net host o =
    (0 < length (destinations net host o)) × All (IsPublic net) (destinations net host o)

check_literal-exact :
    (net : Network) (host : Bytes) (o : Option Address)
    → net.ip_address host ≡ o
    → (check_literal net host o ≡ accepted) ↔ IsPublicHost net host o
unfolding check_literal destinations
check_literal-exact net host none e = (
  λ h. (
    resolved-some net (net.getaddrinfo host) h,
    check_resolved-IsPublic net (net.getaddrinfo host) h,
  ),
  λ (n, p). check_resolved-accepts net (net.getaddrinfo host) n p,
)
check_literal-exact net host (some ip) e = elim (Bool-cases (is_internal ip)) [
  | inl inside ↦ (
    λ h. absurd (grind (arith, h, inside)),
    λ (n, ((ip', (e', outside)), _)). absurd (grind (arith, e, e', outside, inside)),
  )
  | inr outside ↦
      (λ h. (omega arith, ((ip, (e, outside)), tt)), λ h. if_false (is_internal ip) _ _ outside)
]

-- Such a host, in what `urlparse` found.
abbrev pub HasPublicHost : Network → Option Bytes → Type 0
HasPublicHost net o =
    (c : ℕ) × (s : Bytes) × ((o ≡ some (c ∷ s)) × IsPublicHost net (c ∷ s) (net.ip_address (c ∷ s)))

check_host-exact :
    (net : Network) (o : Option Bytes) → (check_host net o ≡ accepted) ↔ HasPublicHost net o
unfolding check_host
check_host-exact net none = (λ h. absurd (cc), λ (c, s, (e, p)). absurd (cc))
check_host-exact net (some []) = (λ h. absurd (cc), λ (c, s, (e, p)). absurd (ground arith))
check_host-exact net (some (c ∷ s)) =
    let exact = check_literal-exact net (c ∷ s) (net.ip_address (c ∷ s)) refl in
    (
      λ h. (c, s, (refl, exact.0 h)),
      λ (d, t, (e, p)).
          let same : d ∷ t ≡ c ∷ s = ground arith in
          exact.1 (subst (λ x. IsPublicHost net x (net.ip_address x)) same p),
    )

-- An https URL with a public host.
abbrev pub IsSafe : Network → Option (Bytes × Option Bytes) → Type 0
IsSafe net u = (host : Option Bytes) × ((u ≡ some (codes "https", host)) × HasPublicHost net host)

check_url-exact :
    (net : Network) (u : Option (Bytes × Option Bytes))
    → (check_url net u ≡ accepted) ↔ IsSafe net u
unfolding check_url
check_url-exact net none = (λ h. absurd (cc), λ (host, (e, p)). absurd (cc))
check_url-exact net (some (scheme, host)) =
    let exact = check_host-exact net host in
    elim (Bool-cases (scheme == codes "https")) [
      | inl e ↦
          let step : check_url net (some (scheme, host)) ≡ check_host net host =
            if_false (not (scheme == codes "https")) _ _ (ap not e) in
          (
            λ h. (
              host,
              (ap (λ x. some (x, host)) (beq_eq scheme (codes "https") e), exact.0 (sym step ∙ h)),
            ),
            λ (other, (q, p)).
                step
                ∙ exact.1
                    (subst (HasPublicHost net) (let same : other ≡ host = ground arith in same) p),
          )
      | inr e ↦
          let step : check_url net (some (scheme, host)) ≡ refused not_https =
            if_true (not (scheme == codes "https")) _ _ (ap not e) in
          (
            λ h. absurd (let no : refused not_https ≡ accepted = sym step ∙ h in cc),
            λ (other, (q, p)). absurd (
                let same : (scheme == codes "https") ≡ true =
                  ap (λ t. t == codes "https") (let s : scheme ≡ codes "https" = ground arith in s)
                  ∙ beq_refl (codes "https") in
                cc),
          )
    ]

-- A subscription's endpoint is accepted exactly if it is an https URL whose host stands for at least one
-- address, and only for public ones. The condition is that the endpoint is not empty.
pub push_endpoint_error-exact :
    (net : Network) (c : ℕ) (s : Bytes)
    → (push_endpoint_error net (some (c ∷ s)) ≡ accepted) ↔ IsSafe net (net.urlparse (c ∷ s))
unfolding push_endpoint_error
push_endpoint_error-exact net c s = check_url-exact net (net.urlparse (c ∷ s))
