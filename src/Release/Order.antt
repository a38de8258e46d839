-- ===== src/Release/Order.antt =====
-- The order of the versions of genpi/updater.py.
use generatorpi.Base.{
  Bool-cases, ℤ, pos, negsuc, leb_ℤ, Bytes, ◌≡◌, refl, sym, ap, ◌∙◌, ◌⊎◌, inl, inr, true, false,
  List, [], ◌∷◌, arith,
}
use generatorpi.Release.{same_ℤ, before, version_tuple, is_older}

pub same_ℤ_eq : (a b : ℤ) → same_ℤ a b ≡ true → a ≡ b
same_ℤ_eq (pos a) (pos b) h = ap pos (ground arith)
same_ℤ_eq (pos a) (negsuc b) h = absurd (ground arith)
same_ℤ_eq (negsuc a) (pos b) h = absurd (ground arith)
same_ℤ_eq (negsuc a) (negsuc b) h = ap negsuc (ground arith)

before_irrefl : (xs : List ℤ) → before xs xs ≡ false
unfolding before
before_irrefl [] = refl
before_irrefl (x ∷ xs) = ground (arith, before_irrefl xs)

before_trans : (xs ys zs : List ℤ) → before xs ys ≡ true → before ys zs ≡ true → before xs zs ≡ true
unfolding before
before_trans xs ys [] h k = absurd (ground arith)
before_trans [] ys (z ∷ zs) h k = refl
before_trans (x ∷ xs) [] (z ∷ zs) h k = absurd (ground arith)
before_trans (x ∷ xs) (y ∷ ys) (z ∷ zs) h k = ground (arith, before_trans xs ys zs)

before-total : (xs ys : List ℤ) → (before xs ys ≡ true) ⊎ ((xs ≡ ys) ⊎ (before ys xs ≡ true))
unfolding before
before-total [] [] = inr (inl refl)
before-total [] (y ∷ ys) = inl refl
before-total (x ∷ xs) [] = inr (inr refl)
before-total (x ∷ xs) (y ∷ ys) = elim (Bool-cases (same_ℤ x y)) [
  | inl same ↦ elim (before-total xs ys) [
    | inl less ↦ inl (ground arith)
    | inr (inl e) ↦ inr (inl (ap (λ n. n ∷ xs) (same_ℤ_eq x y same) ∙ ap (λ l. y ∷ l) e))
    | inr (inr more) ↦ inr (inr (ground arith))
  ]
  | inr other ↦ elim (Bool-cases (leb_ℤ x y)) [
    | inl less ↦ inl (ground arith)
    | inr more ↦ inr (inr (ground arith))
  ]
]

-- What is not before something has that at or before it.
pub before-flip : (u v w : List ℤ) → before u v ≡ false → before u w ≡ true → before v w ≡ true
before-flip u v w h k = elim (before-total u v) [
  | inl less ↦ absurd (ground arith)
  | inr (inl e) ↦ rw (sym e) k
  | inr (inr more) ↦ before_trans v u w more k
]

pub is_older_flip :
    (u v w : Bytes) → is_older u v ≡ false → is_older u w ≡ true → is_older v w ≡ true
unfolding is_older
is_older_flip u v w = before-flip (version_tuple u) (version_tuple v) (version_tuple w)

pub is_older_asym : (u v : Bytes) → is_older u v ≡ true → is_older v u ≡ false
unfolding is_older
is_older_asym u v h = elim (Bool-cases (is_older v u)) [
  | inl back ↦
      let x = version_tuple u in
      let loop = before_trans x (version_tuple v) x h back in
      absurd (ground (arith, before_irrefl x, loop))
  | inr e ↦ e
]

pub is_older_neg_trans :
    (u v w : Bytes) → is_older u v ≡ false → is_older v w ≡ false → is_older u w ≡ false
is_older_neg_trans u v w h k = elim (Bool-cases (is_older u w)) [
  | inl less ↦ absurd (ground (arith, is_older_flip u v w h less))
  | inr e ↦ e
]

-- Versions compare as sequences of numbers, in one direction: if a version is older than a second, and
-- the second is not newer than a third, then the first is older than the third, and the third is not
-- older than the first.
is_older_order :
    (u v w : Bytes)
    → is_older u v ≡ true
    → is_older w v ≡ false
    → (is_older u w ≡ true) × (is_older w u ≡ false)
is_older_order u v w h k = elim (Bool-cases (is_older u w)) [
  | inl less ↦ (less, is_older_asym u w less)
  | inr other ↦ absurd (ground (arith, is_older_flip u w v other h))
]
