-- ===== src/EventLog/Newest.antt =====
-- What the event log of genpi/store.py holds after any history.
use generatorpi.Base.{
  ltb, take, keep, ℕ, zero, suc, ◌+◌, ◌≤◌, max, ◌≡◌, refl, ap, ◌∙◌, subst, List, [], ◌∷◌, arith,
}
use generatorpi.EventLog.{Row, max_seq, evict, record_event, record_all, empty_log}

module _ {ℓ} {E : Type ℓ} where
  -- The numbers of the rows run down from n without a gap.
  abbrev pub Contiguous : ℕ → List (Row E) → Type 0
  Contiguous n [] = Unit
  Contiguous zero (r ∷ rows) = ◌≡◌ {A = ℕ} 0 1
  Contiguous (suc n) (r ∷ rows) = (r.seq ≡ suc n) × Contiguous n rows

  pub Contiguous-take :
      (k n : ℕ) (rows : List (Row E)) → Contiguous n rows → Contiguous n (take k rows)
  Contiguous-take zero n rows c = tt
  Contiguous-take (suc k) n [] c = tt
  Contiguous-take (suc k) zero (r ∷ rows) c = c
  Contiguous-take (suc k) (suc n) (r ∷ rows) c = (c.0, Contiguous-take k n rows c.1)

  max_seq_le : (n : ℕ) (rows : List (Row E)) → Contiguous n rows → max_seq rows ≤ n
  unfolding max_seq
  max_seq_le n [] c = omega arith
  max_seq_le zero (r ∷ rows) c = absurd (omega arith)
  max_seq_le (suc n) (r ∷ rows) c = omega (arith, max_seq_le n rows c.1)

  take-take : (k : ℕ) (xs : List (Row E)) → take k (take (suc k) xs) ≡ take k xs
  take-take zero xs = refl
  take-take (suc k) [] = refl
  take-take (suc k) (x ∷ xs) = ap (λ ys. x ∷ ys) (take-take k xs)

  take-add : (k : ℕ) (x : Row E) (xs : List (Row E)) → take k (x ∷ take k xs) ≡ take k (x ∷ xs)
  take-add zero x xs = refl
  take-add (suc k) x xs = ap (λ ys. x ∷ ys) (take-take k xs)

  keep_none :
      (m n total : ℕ) (rows : List (Row E))
      → Contiguous n rows
      → n + total ≤ m
      → keep (λ r. ltb m (r.seq + total)) rows ≡ []
  keep_none m n total [] c h = refl
  keep_none m zero total (r ∷ rows) c h = absurd (omega arith)
  keep_none m (suc n) total (r ∷ rows) c h = ground (arith, keep_none m n total rows c.1)

  keep_newest :
      (m n k gap total : ℕ) (rows : List (Row E))
      → Contiguous n rows
      → n + gap ≡ m
      → total ≡ gap + k
      → keep (λ r. ltb m (r.seq + total)) rows ≡ take k rows
  keep_newest m n zero gap total rows c h t = keep_none m n total rows c (omega arith)
  keep_newest m n (suc k) gap total [] c h t = refl
  keep_newest m zero (suc k) gap total (r ∷ rows) c h t = absurd (omega arith)
  keep_newest m (suc n) (suc k) gap total (r ∷ rows) c h t =
      ground (arith, keep_newest m n k (gap + 1) total rows c.1 (omega arith) (omega arith))

  -- The abstract log: every event that was ever recorded, newest first, with its number.
  unfoldable pub numbered : ℕ → List E → List (Row E) → List (Row E)
  numbered n [] rows = rows
  numbered n (e ∷ es) rows = numbered (n + 1) es (record { seq = n + 1; content = e } ∷ rows)

  pub evict_is_take :
      (k n : ℕ) (e : E) (rows : List (Row E))
      → Contiguous n rows
      → evict k (record { seq = n + 1; content = e } ∷ rows)
        ≡ take k (record { seq = n + 1; content = e } ∷ rows)
  unfolding evict max_seq
  evict_is_take k n e rows c =
      let top : Row E = record { seq = n + 1; content = e } in
      let highest : max (n + 1) (max_seq rows) ≡ n + 1 = omega (arith, max_seq_le n rows c) in
      ap (λ m. keep (λ r. ltb m (r.seq + k)) (top ∷ rows)) highest
      ∙ keep_newest (n + 1) (suc n) k 0 k (top ∷ rows) (omega arith, c) (omega arith) (omega arith)

  record_all_newest :
      (k n : ℕ) (es : List E) (rows : List (Row E))
      → Contiguous n rows
      → (record_all k es (record { rows = take k rows; last_seq = n })).rows
        ≡ take k (numbered n es rows)
  unfolding record_all record_event numbered evict
  record_all_newest k n [] rows c = refl
  record_all_newest k n (e ∷ es) rows c =
      let top : Row E = record { seq = n + 1; content = e } in
      let next : Contiguous (n + 1) (top ∷ rows) =
        subst (λ j. Contiguous j (top ∷ rows)) (let q : suc n ≡ n + 1 = omega arith in q)
          (omega arith, c) in
      ap (λ rs. (record_all k es (record { rows = rs; last_seq = n + 1 })).rows)
        (evict_is_take k n e (take k rows) (Contiguous-take k n rows c) ∙ take-add k top rows)
      ∙ record_all_newest k (n + 1) es (top ∷ rows) next

  -- After any history of events on an empty database, whose writes it took, the table is the abstract
  -- log cut off at the cap: exactly the newest events, with the numbers they were recorded under,
  -- newest first.
  pub record_all_keeps_newest :
      (k : ℕ) (es : List E) → (record_all k es empty_log).rows ≡ take k (numbered 0 es [])
  record_all_keeps_newest zero es = record_all_newest zero 0 es [] tt
  record_all_keeps_newest (suc k) es = record_all_newest (suc k) 0 es [] tt
