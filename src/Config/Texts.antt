-- ===== src/Config/Texts.antt =====
-- Texts that were stripped, cut or joined.
use generatorpi.Base.{
  Bool-cases, if_either, if_true, if_false, All, ◌==◌, beq_refl, Bytes, is_space, lstrip, strip, ℕ,
  ◌≡◌, refl, sym, ap, ◌∙◌, subst, ◌⊎◌, inl, inr, false, Option, none, some, List, [], ◌∷◌, ◌++◌,
  arith, bytes_key, nat_key,
}
use mathlib.Core.List.{reverse, reverse-cons, reverse-reverse}
use generatorpi.Config.{cut_at, onto_cut}

onto_cut-some :
    (c : ℕ) (o : Option (Bytes × Bytes)) (a b : Bytes)
    → onto_cut c o ≡ some (a, b)
    → (a' : Bytes) × (a ≡ c ∷ a') × (o ≡ some (a', b))
onto_cut-some c none a b e = absurd (cc)
onto_cut-some c (some (x, y)) a b e = (x, ground arith, ground arith)

cut_at-cases :
    (sep c : ℕ) (s a b : Bytes)
    → cut_at sep (c ∷ s) ≡ some (a, b)
    → ((a ≡ []) × (b ≡ s))
      ⊎ ((a' : Bytes) × (a ≡ c ∷ a') × (cut_at sep s ≡ some (a', b)) × ((c == sep) ≡ false))
unfolding cut_at
cut_at-cases sep c s a b e = elim (Bool-cases (c == sep)) [
  | inl same ↦
      let q : ◌≡◌ {A = Option (Bytes × Bytes)} (some ([], s)) (some (a, b)) =
        sym (if_true (c == sep) _ _ same) ∙ e in
      let x : a ≡ [] = ground arith in let y : b ≡ s = ground arith in inl (x, y)
  | inr other ↦
      let (a', h, k) =
        onto_cut-some c (cut_at sep s) a b (sym (if_false (c == sep) _ _ other) ∙ e) in
      inr (a', h, k, other)
]

module _ {A : Type 0} (P : A → Type 0) where
  pub All-append : (a b : List A) → All P a → All P b → All P (a ++ b)
  All-append [] b h k = k
  All-append (c ∷ a) b h k = (h.0, All-append a b h.1 k)

  pub All-reverse : (s : List A) → All P s → All P (reverse s)
  All-reverse [] h = tt
  All-reverse (c ∷ s) h =
      subst (All P) (sym (reverse-cons c s))
        (All-append (reverse s) (c ∷ []) (All-reverse s h.1) (h.0, tt))

module _ (P : ℕ → Type 0) where
  pub All-lstrip : (s : Bytes) → All P s → All P (lstrip s)
  All-lstrip [] h = h
  All-lstrip (c ∷ s) h = if_either (All P) (is_space c) (All-lstrip s h.1) h

  pub All-strip : (s : Bytes) → All P s → All P (strip s)
  All-strip s h =
      All-reverse P (lstrip (reverse (lstrip s)))
        (All-lstrip (reverse (lstrip s)) (All-reverse P (lstrip s) (All-lstrip s h)))

  pub All-cut : (sep : ℕ) (s a b : Bytes) → cut_at sep s ≡ some (a, b) → All P s → All P a × All P b
  unfolding cut_at
  All-cut sep [] a b e h = absurd (cc)
  All-cut sep (c ∷ s) a b e h = elim (cut_at-cases sep c s a b e) [
    | inl (x, y) ↦ (subst (All P) (sym x) tt, subst (All P) (sym y) h.1)
    | inr (a', x, q, _) ↦
        let (k, l) = All-cut sep s a' b q h.1 in (subst (All P) (sym x) (h.0, k), l)
  ]

pub cut_at-free :
    (sep : ℕ) (s a b : Bytes) → cut_at sep s ≡ some (a, b) → All (λ c. (c == sep) ≡ false) a
unfolding cut_at
cut_at-free sep [] a b e = absurd (cc)
cut_at-free sep (c ∷ s) a b e = elim (cut_at-cases sep c s a b e) [
  | inl (x, y) ↦ subst (All (λ d. (d == sep) ≡ false)) (sym x) tt
  | inr (a', x, q, other) ↦
      subst (All (λ d. (d == sep) ≡ false)) (sym x) (other, cut_at-free sep s a' b q)
]

pub cut_at-joined :
    (sep : ℕ) (a b : Bytes)
    → All (λ c. (c == sep) ≡ false) a
    → cut_at sep (a ++ (sep ∷ b)) ≡ some (a, b)
unfolding cut_at
cut_at-joined sep [] b h = if_true (sep == sep) _ _ (beq_refl sep)
cut_at-joined sep (c ∷ a) b h =
    if_false (c == sep) _ _ h.0 ∙ ap (onto_cut c) (cut_at-joined sep a b h.1)

pub lstrip_again : (s : Bytes) → lstrip (lstrip s) ≡ lstrip s
lstrip_again [] = refl
lstrip_again (c ∷ s) = elim (Bool-cases (is_space c)) [
  | inl e ↦ rw e (lstrip_again s)
  | inr e ↦ rw e (rw e refl)
]

-- Text that begins and ends with no white space.
pub strip-fixed : (s : Bytes) → lstrip s ≡ s → lstrip (reverse s) ≡ reverse s → strip s ≡ s
strip-fixed s h k = ap (λ t. reverse (lstrip (reverse t))) h ∙ ap reverse k ∙ reverse-reverse s

pub strip_ends : (s : Bytes) → lstrip (reverse (strip s)) ≡ reverse (strip s)
strip_ends s =
    let r = lstrip (reverse (lstrip s)) in
    ap lstrip (reverse-reverse r) ∙ lstrip_again (reverse (lstrip s)) ∙ sym (reverse-reverse r)

abbrev pub HasNoWhite : Bytes → Type 0
HasNoWhite s = All (λ c. is_space c ≡ false) s

pub lstrip-append :
    (c : ℕ) (s x : Bytes) → is_space c ≡ false → lstrip ((c ∷ s) ++ x) ≡ (c ∷ s) ++ x
lstrip-append c s x h = if_false (is_space c) _ _ h

pub lstrip-white : (s : Bytes) → HasNoWhite s → lstrip s ≡ s
lstrip-white [] h = refl
lstrip-white (c ∷ s) h = if_false (is_space c) _ _ h.0

pub strip-white : (s : Bytes) → HasNoWhite s → strip s ≡ s
strip-white s h =
    strip-fixed s (lstrip-white s h)
      (lstrip-white (reverse s) (All-reverse (λ c. is_space c ≡ false) s h))
