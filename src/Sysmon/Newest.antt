-- ===== src/Sysmon/Newest.antt =====
-- Lists of the newest points: what the ring buffer of genpi/sysmon.py keeps of two lists after one another.
use generatorpi.Base.{
  Bool-cases, Option-cases, length, drop, keep, All, length-append, length-drop, drop_nil,
  drop-drop, last, ℕ, zero, suc, ◌+◌, ◌-◌, ◌<◌, min, ◌≡◌, refl, sym, ap, ◌∙◌, inl, inr, Bool, true,
  false, Option, none, some, List, [], ◌∷◌, ◌++◌, arith,
}
use generatorpi.Sysmon.History.{last_points}

module _ {A : Type 0} where
  pub keep-append : (p : A → Bool) (xs ys : List A) → keep p (xs ++ ys) ≡ keep p xs ++ keep p ys
  keep-append p [] ys = refl
  keep-append p (x ∷ xs) ys = elim (Bool-cases (p x)) [
    | inl e ↦ rw e (ap (λ l. x ∷ l) (keep-append p xs ys))
    | inr e ↦ rw e (keep-append p xs ys)
  ]

  pub keep_every : (p : A → Bool) (xs : List A) → All (λ x. p x ≡ true) xs → keep p xs ≡ xs
  keep_every p [] h = refl
  keep_every p (x ∷ xs) h = rw h.0 (ap (λ l. x ∷ l) (keep_every p xs h.1))

  pub keep_nothing : (p : A → Bool) (xs : List A) → All (λ x. p x ≡ false) xs → keep p xs ≡ []
  keep_nothing p [] h = refl
  keep_nothing p (x ∷ xs) h = rw h.0 (keep_nothing p xs h.1)

  drop_both : (k : ℕ) (xs ys : List A) → drop k (xs ++ ys) ≡ drop k xs ++ drop (k - length xs) ys
  drop_both zero xs ys =
      let e : ◌≡◌ {A = ℕ} 0 (0 - length xs) = omega arith in ap (λ k. xs ++ drop k ys) e
  drop_both (suc k) [] ys = let e : suc k ≡ suc k - 0 = omega arith in ap (λ j. drop j ys) e
  drop_both (suc k) (x ∷ xs) ys =
      let e : k - length xs ≡ suc k - length (x ∷ xs) = omega arith in
      drop_both k xs ys ∙ ap (λ j. drop k xs ++ drop j ys) e

  drop-min : (k : ℕ) (xs : List A) → drop k xs ≡ drop (min k (length xs)) xs
  drop-min zero xs =
      let e : ◌≡◌ {A = ℕ} 0 (min 0 (length xs)) = omega arith in ap (λ j. drop j xs) e
  drop-min (suc k) [] = sym (drop_nil (min (suc k) (length {A = A} [])))
  drop-min (suc k) (x ∷ xs) =
      let e : suc (min k (length xs)) ≡ min (suc k) (length (x ∷ xs)) = omega arith in
      drop-min k xs ∙ ap (λ j. drop j (x ∷ xs)) e

  drop_same :
      (j k : ℕ) (xs : List A) → min j (length xs) ≡ min k (length xs) → drop j xs ≡ drop k xs
  drop_same j k xs e = drop-min j xs ∙ ap (λ i. drop i xs) e ∙ sym (drop-min k xs)

  pub last_points-append :
      (m : ℕ) (xs ys : List A)
      → last_points m (xs ++ ys) ≡ drop (length xs + length ys - m) xs ++ drop (length ys - m) ys
  last_points-append m xs ys =
      let n = length xs + length ys - m in
      ap (λ l. drop (l - m) (xs ++ ys)) (length-append xs ys)
      ∙ drop_both n xs ys
      ∙ ap (λ t. drop n xs ++ t) (drop_same (n - length xs) (length ys - m) ys (omega arith))

  -- The newest of the newest are the newest.
  pub last_points-join :
      (m : ℕ) (xs ys : List A)
      → last_points m (last_points m xs ++ last_points m ys) ≡ last_points m (xs ++ ys)
  last_points-join m xs ys =
      let a = length xs - m in
      let b = length ys - m in
      let u = drop a xs in
      let v = drop b ys in
      let lu = length-drop a xs in
      let lv = length-drop b ys in
      let none_more : length v - m ≡ 0 = omega (arith, lv) in
      let same : min (a + (length u + length v - m)) (length xs)
          ≡ min (length xs + length ys - m) (length xs) =
        omega (arith, lu, lv) in
      last_points-append m u v
      ∙ ap (λ k. drop (length u + length v - m) u ++ drop k v) none_more
      ∙ ap (λ t. t ++ v)
          (drop-drop (length u + length v - m) a xs
            ∙ drop_same (a + (length u + length v - m)) (length xs + length ys - m) xs same)
      ∙ sym (last_points-append m xs ys)

  pub last-some : (x : A) (xs : List A) → (l : A) × (last (x ∷ xs) ≡ some l)
  last-some x xs = elim (Option-cases (last xs)) [
    | inl q ↦ (x, rw q refl)
    | inr (y, q) ↦ (y, rw q refl)
  ]

  pub last-drop : (k : ℕ) (xs : List A) → k < length xs → last (drop k xs) ≡ last xs
  last-drop zero xs h = refl
  last-drop (suc k) [] h = absurd (omega arith)
  last-drop (suc k) (x ∷ []) h = absurd (omega arith)
  last-drop (suc k) (x ∷ y ∷ xs) h =
      let (l, e) = last-some y xs in
      last-drop k (y ∷ xs) (omega arith)
      ∙ e
      ∙ sym (ap (λ o. elim o as (λ _. Option A) [ none ↦ some x | some z ↦ some z ]) e)
