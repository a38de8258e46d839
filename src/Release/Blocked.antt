-- ===== src/Release/Blocked.antt =====
-- Which versions block a web update of genpi/updater.py, told without its comparisons.
use generatorpi.Base.{
  Bool-cases, if_true, if_false, Any, ◌==◌, beq_refl, beq_eq, beq_ne, Dict, ℤ, pos, negsuc, leb_ℤ,
  Bytes, strip, member, ℕ, ◌<◌, ◌≡◌, refl, sym, ap, ◌∙◌, subst, ◌≢◌, ◌↔◌, ◌⊎◌, inl, inr, true,
  false, ◌||◌, List, [], ◌∷◌, arith, nat_key, bytes_key,
}
use generatorpi.Release.{
  same_ℤ, before, version_tuple, is_older, without_v, gate_ver, is_crossed, crossed, Incompatible,
  gates_of, blocking,
}
use generatorpi.Release.Order.{same_ℤ_eq}
use generatorpi.Release.Gate.{member-blocking}

-- The order of the integers.
abbrev pub IsLess : ℤ → ℤ → Type 0
IsLess (pos a) (pos b) = a < b
IsLess (pos a) (negsuc b) = ⊥
IsLess (negsuc a) (pos b) = Unit
IsLess (negsuc a) (negsuc b) = b < a

-- The lexicographic order: at the first difference the number is less, or the sequence ends first.
unfoldable pub IsBefore : List ℤ → List ℤ → Type 0
IsBefore xs [] = ⊥
IsBefore [] (y ∷ ys) = Unit
IsBefore (x ∷ xs) (y ∷ ys) = IsLess x y ⊎ ((x ≡ y) × IsBefore xs ys)

-- `g` is the text `t` less a `v` or `V` in front.
abbrev pub IsNormal : Bytes → Bytes → Type 0
IsNormal t g =
    (t ≡ b'v' ∷ g)
    ⊎ ((t ≡ b'V' ∷ g) ⊎ ((t ≡ g) × ((s : Bytes) → t ≢ b'v' ∷ s) × ((s : Bytes) → t ≢ b'V' ∷ s)))

-- The key's version `g` is above the installed one and not above the latest one.
abbrev pub Blocks : (installed latest key g : Bytes) → Type 0
Blocks installed latest key g =
    IsNormal (strip key) g
    × (g ≢ [])
    × IsBefore (version_tuple installed) (version_tuple g)
    × (¬ IsBefore (version_tuple latest) (version_tuple g))

IsLess-of_tests : (a b : ℤ) → same_ℤ a b ≡ false → leb_ℤ a b ≡ true → IsLess a b
IsLess-of_tests (pos a) (pos b) h k = ground arith
IsLess-of_tests (pos a) (negsuc b) h k = ground arith
IsLess-of_tests (negsuc a) (pos b) h k = tt
IsLess-of_tests (negsuc a) (negsuc b) h k = ground arith

IsLess-tests : (a b : ℤ) → IsLess a b → (same_ℤ a b ≡ false) × (leb_ℤ a b ≡ true)
IsLess-tests (pos a) (pos b) h = (ground arith, ground arith)
IsLess-tests (pos a) (negsuc b) h = absurd h
IsLess-tests (negsuc a) (pos b) h = (ground arith, ground arith)
IsLess-tests (negsuc a) (negsuc b) h = (ground arith, ground arith)

same_ℤ_refl : (a : ℤ) → same_ℤ a a ≡ true
same_ℤ_refl (pos a) = ground arith
same_ℤ_refl (negsuc a) = ground arith

before-IsBefore : (xs ys : List ℤ) → before xs ys ≡ true → IsBefore xs ys
unfolding before IsBefore
before-IsBefore xs [] h = absurd (ground arith)
before-IsBefore [] (y ∷ ys) h = tt
before-IsBefore (x ∷ xs) (y ∷ ys) h = elim (Bool-cases (same_ℤ x y)) [
  | inl same ↦
      inr (same_ℤ_eq x y same, before-IsBefore xs ys (sym (if_true (same_ℤ x y) _ _ same) ∙ h))
  | inr other ↦ inl (IsLess-of_tests x y other (sym (if_false (same_ℤ x y) _ _ other) ∙ h))
]

IsBefore-before : (xs ys : List ℤ) → IsBefore xs ys → before xs ys ≡ true
unfolding before IsBefore
IsBefore-before xs [] h = absurd h
IsBefore-before [] (y ∷ ys) h = refl
IsBefore-before (x ∷ xs) (y ∷ ys) (inl less) =
    let (other, le) = IsLess-tests x y less in if_false (same_ℤ x y) _ _ other ∙ le
IsBefore-before (x ∷ xs) (y ∷ ys) (inr (e, h)) =
    let same : same_ℤ x y ≡ true = ap (same_ℤ x) (sym e) ∙ same_ℤ_refl x in
    if_true (same_ℤ x y) _ _ same ∙ IsBefore-before xs ys h

normal_of : (t g : Bytes) → IsNormal t g → without_v t ≡ g
unfolding without_v
normal_of t g (inl e) = rw (e, without_v) refl
normal_of t g (inr (inl e)) = rw (e, without_v) refl
normal_of [] g (inr (inr (e, _, _))) = e
normal_of (c ∷ s) g (inr (inr (e, no_v, no_upper))) = elim (Bool-cases (c == b'v')) [
  | inl q ↦ absurd (no_v s (ap (λ x. x ∷ s) (beq_eq c b'v' q)))
  | inr p ↦ elim (Bool-cases (c == b'V')) [
    | inl q ↦ absurd (no_upper s (ap (λ x. x ∷ s) (beq_eq c b'V' q)))
    | inr q ↦ if_false (c == b'v' || c == b'V') s (c ∷ s) (ground arith) ∙ e
  ]
]

first_char : {c d : ℕ} {s r : Bytes} → c ∷ s ≡ d ∷ r → c ≡ d
first_char {c = c} e = ap (λ (l : Bytes). elim l as (λ _. ℕ) [ [] ↦ c | x ∷ xs ↦ x ]) e

without_v-IsNormal : (t : Bytes) → IsNormal t (without_v t)
unfolding without_v
without_v-IsNormal [] = inr (inr (refl, (λ s e. absurd (cc)), (λ s e. absurd (cc))))
without_v-IsNormal (c ∷ s) = elim (Bool-cases (c == b'v')) [
  | inl q ↦ rw (beq_eq c b'v' q) (inl refl)
  | inr p ↦ elim (Bool-cases (c == b'V')) [
    | inl q ↦ rw (beq_eq c b'V' q) (inr (inl refl))
    | inr q ↦
        let e = if_false (c == b'v' || c == b'V') s (c ∷ s) (ground arith) in
        inr (
          inr (
            sym e,
            (λ r d. absurd (ground (arith, first_char d))),
            (λ r d. absurd (ground (arith, first_char d))),
          ))
  ]
]

module _ (installed latest : Bytes) where
  crossed_bounds :
      (g : Bytes)
      → is_crossed installed latest g ≡ true
      → (g ≢ [])
        × IsBefore (version_tuple installed) (version_tuple g)
        × (¬ IsBefore (version_tuple latest) (version_tuple g))
  unfolding is_crossed is_older
  crossed_bounds g h =
      let vt = version_tuple g in
      (
        (λ e. let same : (g == []) ≡ true = ap (λ x. x == []) e in absurd (ground arith)),
        before-IsBefore (version_tuple installed) vt (ground arith),
        (λ b. absurd (ground (arith, IsBefore-before (version_tuple latest) vt b))),
      )

  bounds_crossed :
      (g : Bytes)
      → (g ≢ [])
      → IsBefore (version_tuple installed) (version_tuple g)
      → (¬ IsBefore (version_tuple latest) (version_tuple g))
      → is_crossed installed latest g ≡ true
  unfolding is_crossed is_older
  bounds_crossed g some_text above below =
      let vt = version_tuple g in
      let low = IsBefore-before (version_tuple installed) vt above in
      let text : (g == []) ≡ false = beq_ne g [] some_text in
      elim (Bool-cases (before (version_tuple latest) vt)) [
        | inl b ↦ absurd (below (before-IsBefore (version_tuple latest) vt b))
        | inr b ↦ ground arith
      ]

  member-Blocks :
      (g : Bytes) (gates : Dict Bytes Bytes)
      → member g (crossed installed latest gates) ≡ true
      → Any (λ kv. Blocks installed latest kv.0 g) gates
  unfolding crossed gate_ver
  member-Blocks g [] h = absurd (ground arith)
  member-Blocks g ((k, v) ∷ gates) h =
      let gv = gate_ver k in
      elim (Bool-cases (is_crossed installed latest gv)) [
        | inl c ↦
            let among = sym (ap (member g) (if_true _ _ _ c)) ∙ h in
            elim (Bool-cases (gv == g)) [
              | inl same ↦
                  let e = beq_eq gv g same in
                  let (text, above, below) =
                    crossed_bounds g (ap (is_crossed installed latest) (sym e) ∙ c) in
                  inl (
                    subst (IsNormal (strip k)) e (without_v-IsNormal (strip k)),
                    text,
                    above,
                    below,
                  )
              | inr other ↦ inr (member-Blocks g gates (ground arith))
            ]
        | inr out ↦ inr (member-Blocks g gates (sym (ap (member g) (if_false _ _ _ out)) ∙ h))
      ]

  Blocks-member :
      (g : Bytes) (gates : Dict Bytes Bytes)
      → Any (λ kv. Blocks installed latest kv.0 g) gates
      → member g (crossed installed latest gates) ≡ true
  unfolding crossed gate_ver
  Blocks-member g [] h = absurd h
  Blocks-member g ((k, v) ∷ gates) (inl (normal, some_text, above, below)) =
      let gv = gate_ver k in
      let e : gv ≡ g = normal_of (strip k) g normal in
      let c = ap (is_crossed installed latest) e ∙ bounds_crossed g some_text above below in
      let same : (gv == g) ≡ true = ap (λ x. x == g) e ∙ beq_refl g in
      ap (member g) (if_true _ _ _ c) ∙ ground arith
  Blocks-member g ((k, v) ∷ gates) (inr h) =
      let rest = Blocks-member g gates h in
      elim (Bool-cases (is_crossed installed latest (gate_ver k))) [
        | inl c ↦ ap (member g) (if_true _ _ _ c) ∙ ground arith
        | inr out ↦ ap (member g) (if_false _ _ _ out) ∙ rest
      ]

module _ (iterate : List Bytes → List Bytes)
    (same_members : (g : Bytes) (gs : List Bytes) → member g (iterate gs) ≡ member g gs)
    (installed latest : Bytes) (i : Incompatible) where
  -- The versions that block are exactly these: a key of `incompatible_versions` without the white space
  -- around it and without one `v` or `V` in front, that is not empty, whose sequence of numbers lies
  -- after that of the installed version and not after that of the latest version.
  -- The condition is that a set iterates over its own elements.
  pub blocking_exact :
      (g : Bytes)
      → (member g (blocking iterate installed latest i) ≡ true)
        ↔ Any (λ kv. Blocks installed latest kv.0 g) (gates_of i)
  blocking_exact g =
      let same = member-blocking iterate same_members installed latest i g in
      (
        (λ m. member-Blocks installed latest g (gates_of i) (sym same ∙ m)),
        (λ h. same ∙ Blocks-member installed latest g (gates_of i) h),
      )
