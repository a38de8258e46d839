-- ===== src/Web/Origin.antt =====
-- What `csrf_origin_guard` of genpi/app.py lets through of the requests that a browser sends.
use generatorpi.Base.{
  Bool-cases, if_false, append_nil, append_assoc, ◌==◌, beq_refl, beq_eq, Bytes, codes, starts_with,
  member, ◌≡◌, refl, sym, ap, ◌∙◌, ◌↔◌, ◌⊎◌, inl, inr, true, false, not, none, some, [], ◌∷◌, ◌++◌,
  arith, bytes_key, nat_key,
}
use generatorpi.Web.{
  Request, expected_origin, csrf_protected_methods, referer_allowed, csrf_origin_guard,
  origin_allowed,
}

-- Text with no slash.
abbrev pub HasNoSlash : Bytes → Type 0
HasNoSlash [] = Unit
HasNoSlash (c ∷ s) = ((c == b'/') ≡ false) × HasNoSlash s

-- The first slash cuts a text in one way.
cut_at_slash :
    (a b x y : Bytes)
    → HasNoSlash a
    → HasNoSlash b
    → a ++ (b'/' ∷ x) ≡ b ++ (b'/' ∷ y)
    → (a ≡ b) × (x ≡ y)
cut_at_slash [] [] x y h k e = ground arith
cut_at_slash [] (d ∷ b) x y h k e = absurd (ground arith)
cut_at_slash (c ∷ a) [] x y h k e = absurd (ground arith)
cut_at_slash (c ∷ a) (d ∷ b) x y h k e =
    let (same, rest) = cut_at_slash a b x y h.1 k.1 (ground arith) in (ground arith, rest)

no_slash_cut : (a b x : Bytes) → HasNoSlash b → a ++ (b'/' ∷ x) ≡ b → ⊥
no_slash_cut [] [] x k e = absurd (cc)
no_slash_cut [] (d ∷ b) x k e = absurd (ground arith)
no_slash_cut (c ∷ a) [] x k e = absurd (cc)
no_slash_cut (c ∷ a) (d ∷ b) x k e = no_slash_cut a b x k.1 (ground arith)

HasNoSlash-colon : (s : Bytes) → HasNoSlash s → HasNoSlash (s ++ codes ":")
HasNoSlash-colon [] h = (refl, tt)
HasNoSlash-colon (c ∷ s) h = (h.0, HasNoSlash-colon s h.1)

-- The page that a browser sends a request from.
pub record Page : Type 0 where
  pub scheme : Bytes
  pub host : Bytes
  pub path : Bytes

abbrev pub origin_of : Page → Bytes
origin_of p = expected_origin p.scheme p.host

abbrev pub url_of : Page → Bytes
url_of p = origin_of p ++ (b'/' ∷ p.path)

-- A browser sends the origin of the page, or the page's address, or both.
abbrev pub SentFrom : Page → Request → Type 0
SentFrom p r =
    ((r.origin ≡ some (origin_of p)) ⊎ ((r.origin ≡ none) × (r.referer ≡ some (url_of p))))

-- Schemes and hosts hold no slash.
abbrev pub IsOrigin : Bytes → Bytes → Type 0
IsOrigin scheme host = HasNoSlash scheme × HasNoSlash host

origin_parts :
    (scheme host rest : Bytes)
    → expected_origin scheme host ++ rest ≡ (scheme ++ codes ":") ++ (b'/' ∷ b'/' ∷ (host ++ rest))
unfolding expected_origin
origin_parts scheme host rest = simp append_assoc

pub starts_with-rest : (p s : Bytes) → starts_with p s ≡ true → (t : Bytes) × (s ≡ p ++ t)
starts_with-rest [] s h = (s, refl)
starts_with-rest (c ∷ p) [] h = absurd (cc)
starts_with-rest (c ∷ p) (d ∷ s) h = elim (Bool-cases (c == d)) [
  | inl e ↦ let (t, q) = starts_with-rest p s (ground arith) in (t, ground (arith, beq_eq c d e))
  | inr e ↦ absurd (ground arith)
]

-- The parts of an origin, from an address below it.
same_parts :
    (s h s' h' x y : Bytes)
    → IsOrigin s h
    → IsOrigin s' h'
    → expected_origin s h ++ (b'/' ∷ x) ≡ expected_origin s' h' ++ (b'/' ∷ y)
    → expected_origin s h ≡ expected_origin s' h'
unfolding expected_origin
same_parts s h s' h' x y i j e =
    let whole = sym (origin_parts s h (b'/' ∷ x)) ∙ e ∙ origin_parts s' h' (b'/' ∷ y) in
    let (schemes, rest) =
      cut_at_slash (s ++ codes ":") (s' ++ codes ":") _ _ (HasNoSlash-colon s i.0)
        (HasNoSlash-colon s' j.0) whole in
    let (_, hosts) = cut_at_slash [] [] (h ++ (b'/' ∷ x)) (h' ++ (b'/' ∷ y)) tt tt rest in
    let (same, _) = cut_at_slash h h' x y i.1 j.1 hosts in
    sym (append_assoc s (codes ":") (codes "//" ++ h))
    ∙ ap (λ t. t ++ (codes "//" ++ h)) schemes
    ∙ ap (λ t. (s' ++ codes ":") ++ (codes "//" ++ t)) same
    ∙ append_assoc s' (codes ":") (codes "//" ++ h')

-- The address of a page is no bare origin.
no_bare_origin :
    (s h s' h' x : Bytes)
    → IsOrigin s h
    → IsOrigin s' h'
    → expected_origin s h ++ (b'/' ∷ x) ≡ expected_origin s' h'
    → ⊥
no_bare_origin s h s' h' x i j e =
    let whole =
      sym (origin_parts s h (b'/' ∷ x))
      ∙ e
      ∙ sym (append_nil (expected_origin s' h'))
      ∙ origin_parts s' h' [] in
    let (_, rest) =
      cut_at_slash (s ++ codes ":") (s' ++ codes ":") _ _ (HasNoSlash-colon s i.0)
        (HasNoSlash-colon s' j.0) whole in
    let (_, hosts) = cut_at_slash [] [] (h ++ (b'/' ∷ x)) (h' ++ []) tt tt rest in
    no_slash_cut h h' x j.1 (hosts ∙ append_nil h')

referer-same :
    (p : Page) (s h : Bytes)
    → IsOrigin p.scheme p.host
    → IsOrigin s h
    → referer_allowed (expected_origin s h) (some (url_of p)) ≡ true
    → origin_of p ≡ expected_origin s h
unfolding referer_allowed
referer-same p s h i j allowed =
    let e = expected_origin s h in
    elim (Bool-cases (url_of p == e)) [
      | inl bare ↦ absurd (no_bare_origin p.scheme p.host s h p.path i j (beq_eq (url_of p) e bare))
      | inr other ↦
          let (t, q) = starts_with-rest (e ++ codes "/") (url_of p) (ground arith) in
          same_parts p.scheme p.host s h p.path t i j (q ∙ append_assoc e (codes "/") t)
    ]

pub starts_with-append : (p t : Bytes) → starts_with p (p ++ t) ≡ true
starts_with-append [] t = refl
starts_with-append (c ∷ p) t = ground (arith, starts_with-append p t)

referer-own : (e x : Bytes) → referer_allowed e (some (e ++ (b'/' ∷ x))) ≡ true
unfolding referer_allowed
referer-own e x =
    let own : starts_with (e ++ codes "/") (e ++ (b'/' ∷ x)) ≡ true =
      ap (starts_with (e ++ codes "/")) (sym (append_assoc e (codes "/") x))
      ∙ starts_with-append (e ++ codes "/") x in
    ground (arith, own)

-- A request that changes something and that a browser sends from a page reaches its handler exactly if the
-- page has the origin that the request was served on. The conditions are that schemes and hosts hold no
-- slash, and that the browser sends the page's origin, or else its address as the referer.
pub csrf_origin_guard-exact :
    (p : Page) (r : Request)
    → IsOrigin p.scheme p.host
    → IsOrigin r.scheme r.host
    → member r.method csrf_protected_methods ≡ true
    → SentFrom p r
    → (csrf_origin_guard r ≡ true) ↔ (origin_of p ≡ expected_origin r.scheme r.host)
unfolding csrf_origin_guard
csrf_origin_guard-exact p r i j m (inl o) =
    let e = expected_origin r.scheme r.host in
    let step : csrf_origin_guard r ≡ (origin_of p == e) =
      if_false (not (member r.method csrf_protected_methods)) _ _ (ap not m)
      ∙ ap (λ x. origin_allowed e x r.referer) o in
    (λ h. beq_eq (origin_of p) e (sym step ∙ h), λ q. step ∙ ap (λ t. t == e) q ∙ beq_refl e)
csrf_origin_guard-exact p r i j m (inr (o, f)) =
    let e = expected_origin r.scheme r.host in
    let step : csrf_origin_guard r ≡ referer_allowed e (some (url_of p)) =
      if_false (not (member r.method csrf_protected_methods)) _ _ (ap not m)
      ∙ ap (λ x. origin_allowed e x r.referer) o
      ∙ ap (referer_allowed e) f in
    (
      λ h. referer-same p r.scheme r.host i j (sym step ∙ h),
      λ q.
          step ∙ ap (λ t. referer_allowed e (some (t ++ (b'/' ∷ p.path)))) q ∙ referer-own e p.path,
    )
