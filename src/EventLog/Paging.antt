-- ===== src/EventLog/Paging.antt =====
-- The cursors of `get_events` of genpi/store.py.
use generatorpi.Base.{
  ltb, take, keep, ℕ, zero, suc, ◌+◌, ◌≤◌, ◌<◌, ◌≡◌, refl, ap, ◌∙◌, subst, Bool, true, false,
  Option, none, some, List, [], ◌∷◌, ◌++◌, arith,
}
use generatorpi.EventLog.{Row, Log, record_event, is_wanted, get_events}
use generatorpi.EventLog.Newest.{Contiguous, Contiguous-take, evict_is_take}

module _ {ℓ} {E : Type ℓ} where
  -- No row is newer than the counter, and none is missing in between.
  unfoldable pub IsLog : Log E → Type 0
  IsLog log = Contiguous log.last_seq log.rows

  Contiguous-suc :
      (n : ℕ) (e : E) (rows : List (Row E))
      → Contiguous n rows
      → Contiguous (n + 1) (record { seq = n + 1; content = e } ∷ rows)
  Contiguous-suc n e rows c =
      subst (λ j. Contiguous j (record { seq = n + 1; content = e } ∷ rows))
        (let q : suc n ≡ n + 1 = omega arith in q) (omega arith, c)

  pub record_event-IsLog :
      (k : ℕ) (ok : Bool) (e : E) (log : Log E) → IsLog log → IsLog (record_event k ok e log)
  unfolding record_event IsLog
  record_event-IsLog k false e log c = c
  record_event-IsLog k true e log c =
      rw (evict_is_take k log.last_seq e log.rows c)
        (Contiguous-take k (log.last_seq + 1) _ (Contiguous-suc log.last_seq e log.rows c))

  middle_le : (n : ℕ) (xs ys : List (Row E)) (r : Row E) → Contiguous n (xs ++ r ∷ ys) → r.seq ≤ n
  middle_le zero [] ys r c = absurd (omega arith)
  middle_le (suc n) [] ys r c = omega arith
  middle_le zero (x ∷ xs) ys r c = absurd (omega arith)
  middle_le (suc n) (x ∷ xs) ys r c = omega (arith, middle_le n xs ys r c.1)

  keep_older :
      (n s : ℕ) (rows : List (Row E))
      → Contiguous n rows
      → n < s
      → keep (λ r. ltb r.seq s) rows ≡ rows
  keep_older n s [] c h = refl
  keep_older zero s (r ∷ rows) c h = absurd (omega arith)
  keep_older (suc n) s (r ∷ rows) c h = ground (arith, keep_older n s rows c.1)

  keep_newer :
      (n s : ℕ) (rows : List (Row E))
      → Contiguous n rows
      → n ≤ s
      → keep (λ r. ltb s r.seq) rows ≡ []
  keep_newer n s [] c h = refl
  keep_newer zero s (r ∷ rows) c h = absurd (omega arith)
  keep_newer (suc n) s (r ∷ rows) c h = ground (arith, keep_newer n s rows c.1)

  split_rows :
      (n : ℕ) (xs ys : List (Row E)) (r : Row E)
      → Contiguous n (xs ++ r ∷ ys)
      → (keep (λ x. ltb x.seq r.seq) (xs ++ r ∷ ys) ≡ ys)
        × (keep (λ x. ltb r.seq x.seq) (xs ++ r ∷ ys) ≡ xs)
  split_rows zero [] ys r c = absurd (omega arith)
  split_rows (suc n) [] ys r c =
      ground (arith, keep_older n r.seq ys c.1, keep_newer n r.seq ys c.1)
  split_rows zero (x ∷ xs) ys r c = absurd (omega arith)
  split_rows (suc n) (x ∷ xs) ys r c =
      ground (arith, middle_le n xs ys r c.1, split_rows n xs ys r c.1)

  -- The cursors page without a gap and without a repetition: with the number of any row of the log as
  -- `before`, the page is the rows right after that row in newest-first order, whatever `after` is
  -- given besides; as `after`, it is the newest of the rows in front of it. The condition is that
  -- the numbers of the log are contiguous, which every write keeps.
  pub get_events_pages :
      (limit : ℕ) (other : Option ℕ) (log : Log E) (xs ys : List (Row E)) (r : Row E)
      → IsLog log
      → log.rows ≡ xs ++ r ∷ ys
      → (get_events limit (some r.seq) other log ≡ take limit ys)
        × (get_events limit none (some r.seq) log ≡ take limit xs)
  unfolding get_events is_wanted IsLog
  get_events_pages limit other log xs ys r c q =
      let c' : Contiguous log.last_seq (xs ++ r ∷ ys) = subst (Contiguous log.last_seq) q c in
      let (older, newer) = split_rows log.last_seq xs ys r c' in
      (
        ap (λ rows. take limit (keep (λ x. ltb x.seq r.seq) rows)) q ∙ ap (take limit) older,
        ap (λ rows. take limit (keep (λ x. ltb r.seq x.seq) rows)) q ∙ ap (take limit) newer,
      )
