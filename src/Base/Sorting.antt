-- ===== src/Base/Sorting.antt =====
-- Python's `sorted` with a key, as an insertion sort: it is stable, and so the same function. `before` is
-- the strict order of the keys.
use mathlib.Core.Path.{◌≡◌, refl, sym, ap, ◌∙◌, subst}
use mathlib.Core.Logic.{inl, inr}
use mathlib.Core.Bool.{Bool, true, false, ◌||◌}
use mathlib.Core.Option.{Option, none, some}
use mathlib.Core.List.{List, [], ◌∷◌}
use native.Mathlib.Omega.{arith}
use generatorpi.Base.Tests.{if◌then◌else◌, Bool-cases, Option-cases}
use generatorpi.Base.Lists.{All}
use generatorpi.Base.Equality.{Key, ◌==◌, beq_eq, beq_refl}

module _ {ℓ} {A : Type ℓ} where
  -- In front of what is not before it.
  abbrev pub insort : (A → A → Bool) → A → List A → List A
  insort before x [] = x ∷ []
  insort before x (y ∷ ys) =
      let rest = insort before x ys in if before y x then y ∷ rest else x ∷ y ∷ ys

  abbrev pub sorted : (A → A → Bool) → List A → List A
  sorted before [] = []
  sorted before (x ∷ xs) = insort before x (sorted before xs)

  -- `xs[-1]`
  abbrev pub last : List A → Option A
  last [] = none
  last (x ∷ xs) = elim (last xs) [ none ↦ some x | some y ↦ some y ]

module _ {ℓ} {A : Type ℓ} ⦃e : Key A⦄ where
  -- `x in xs`
  abbrev pub member : A → List A → Bool
  member x [] = false
  member x (y ∷ ys) = y == x || member x ys

  -- The elements of a set, each once.
  abbrev pub distinct : List A → List A
  distinct [] = []
  distinct (x ∷ xs) = let rest = distinct xs in if member x xs then rest else x ∷ rest

  pub member-distinct : (x : A) (xs : List A) → member x (distinct xs) ≡ member x xs
  member-distinct x [] = refl
  member-distinct x (y ∷ ys) = elim (Bool-cases (member y ys)) [
    | inl again ↦ elim (Bool-cases (y == x)) [
      | inl same ↦ ground (arith, e.same_iff y x, member-distinct x ys)
      | inr other ↦ ground (arith, member-distinct x ys)
    ]
    | inr once ↦ ground (arith, member-distinct x ys)
  ]

  pub no_members : (xs : List A) → ((x : A) → member x xs ≡ false) → xs ≡ []
  no_members [] h = refl
  no_members (x ∷ xs) h = let other = h x in absurd (ground (arith, beq_refl x))

  pub member-insort :
      (before : A → A → Bool) (x y : A) (xs : List A)
      → member x (insort before y xs) ≡ (y == x || member x xs)
  member-insort before x y [] = refl
  member-insort before x y (z ∷ zs) = ground (arith, member-insort before x y zs)

  pub member-sorted :
      (before : A → A → Bool) (x : A) (xs : List A) → member x (sorted before xs) ≡ member x xs
  member-sorted before x [] = refl
  member-sorted before x (y ∷ ys) =
      ground (arith, member-insort before x y (sorted before ys), member-sorted before x ys)

module _ {ℓ κ} {A : Type ℓ} (P : A → Type κ) where
  pub All-of-members : ⦃e : Key A⦄ (xs : List A) → ((x : A) → member x xs ≡ true → P x) → All P xs
  All-of-members [] h = tt
  All-of-members (y ∷ ys) h =
      (h y (ground (arith, beq_refl y)), All-of-members ys (λ x m. h x (ground arith)))

  pub All-member : ⦃e : Key A⦄ (x : A) (xs : List A) → All P xs → member x xs ≡ true → P x
  All-member x [] h m = absurd (cc)
  All-member x (y ∷ ys) h m = elim (Bool-cases (y == x)) [
    | inl same ↦ subst P (beq_eq y x same) h.0
    | inr other ↦ All-member x ys h.1 (ground arith)
  ]

module _ {ℓ} {A : Type ℓ} where
  last_of :
      (x : A) (xs : List A) (o : Option A)
      → last xs ≡ o
      → last (x ∷ xs) ≡ (elim o [ none ↦ some x | some y ↦ some y ])
  last_of x xs o e = ap (λ r. elim r [ none ↦ some x | some y ↦ some y ]) e

  pub last-none : (xs : List A) → last xs ≡ none → xs ≡ []
  last-none [] e = refl
  last-none (x ∷ xs) e = elim (Option-cases (last xs)) [
    | inl q ↦ absurd (cc (sym (last_of x xs none q) ∙ e))
    | inr (y, q) ↦ absurd (cc (sym (last_of x xs (some y) q) ∙ e))
  ]

  pub last-All {κ} : (P : A → Type κ) (xs : List A) (g : A) → All P xs → last xs ≡ some g → P g
  last-All P [] g h e = absurd (cc e)
  last-All P (x ∷ xs) g h e = elim (Option-cases (last xs)) [
    | inl q ↦
        let same : some x ≡ some g = sym (last_of x xs none q) ∙ e in
        subst P (let r : x ≡ g = ground (arith, same) in r) h.0
    | inr (y, q) ↦
        let same : some y ≡ some g = sym (last_of x xs (some y) q) ∙ e in
        last-All P xs g h.1 (q ∙ same)
  ]

-- Every element is not after those that come behind it.
abbrev pub Sorted {ℓ} : {A : Type ℓ} → (A → A → Bool) → List A → Type 0
Sorted before [] = Unit
Sorted before (x ∷ xs) = All (λ y. before y x ≡ false) xs × Sorted before xs

module _ {ℓ} {A : Type ℓ} (before : A → A → Bool)
    (asym : (x y : A) → before x y ≡ true → before y x ≡ false)
    (neg_trans : (x y z : A) → before x y ≡ false → before y z ≡ false → before x z ≡ false) where
  All-insort {κ} :
      (P : A → Type κ) (x : A) (xs : List A) → P x → All P xs → All P (insort before x xs)
  All-insort P x [] p h = (p, tt)
  All-insort P x (y ∷ ys) p h = ground (arith, All-insort P x ys p h.1)

  after_first :
      (x y : A) (ys : List A)
      → before y x ≡ false
      → All (λ z. before z y ≡ false) ys
      → All (λ z. before z x ≡ false) ys
  after_first x y [] h k = tt
  after_first x y (z ∷ zs) h k = (neg_trans z y x k.0 h, after_first x y zs h k.1)

  insort-Sorted : (x : A) (xs : List A) → Sorted before xs → Sorted before (insort before x xs)
  insort-Sorted x [] h = (tt, tt)
  insort-Sorted x (y ∷ ys) h = elim (Bool-cases (before y x)) [
    | inl less ↦
        rw less
          (All-insort (λ z. before z y ≡ false) x ys (asym y x less) h.0, insort-Sorted x ys h.1)
    | inr other ↦ rw other ((other, after_first x y ys other h.0), h)
  ]

  pub sorted-Sorted : (xs : List A) → Sorted before (sorted before xs)
  sorted-Sorted [] = tt
  sorted-Sorted (x ∷ xs) = insort-Sorted x (sorted before xs) (sorted-Sorted xs)

  irrefl : (x : A) → before x x ≡ false
  irrefl x = elim (Bool-cases (before x x)) [ inl h ↦ asym x x h | inr e ↦ e ]

  -- Nothing in a sorted list comes after its last element.
  pub last-Sorted :
      (xs : List A) (g : A) → Sorted before xs → last xs ≡ some g → All (λ y. before g y ≡ false) xs
  last-Sorted [] g h e = tt
  last-Sorted (x ∷ xs) g h e = elim (Option-cases (last xs)) [
    | inl none_behind ↦ rw (last-none xs none_behind) (
        let same : some x ≡ some g = sym (last_of x xs none none_behind) ∙ e in
        let same' : x ≡ g = ground (arith, same) in (rw same' (irrefl g), tt))
    | inr (y, q) ↦
        let same : some y ≡ some g = sym (last_of x xs (some y) q) ∙ e in
        let q' = q ∙ same in
        (last-All (λ z. before z x ≡ false) xs g h.0 q', last-Sorted xs g h.1 q')
  ]
