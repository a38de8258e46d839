-- ===== src/Sysmon/Mirror.antt =====
-- The history of genpi/sysmon.py as a page shows it that polls for what is new.
use generatorpi.Base.{
  ltb, if◌then◌else◌, Bool-cases, if_true, if_false, length, is_empty, drop, keep, All, length-drop,
  All-drop, drop_nil, append_nil, append_assoc, ℤ, leb_ℤ, last, last-All, ℕ, suc, ◌+◌, ◌-◌, ◌≡◌,
  refl, sym, ap, ◌∙◌, subst, inl, inr, true, false, not, Option, none, some, List, [], ◌∷◌, ◌++◌,
  arith,
}
use generatorpi.Sysmon.Sampling.{Point}
use generatorpi.Sysmon.History.{last_points, append_all, append_all-last}
use generatorpi.Sysmon.Columns.{
  is_after, newest, cols_to_rows, api_system_history, cols_to_rows-columns, points_after,
  merge_points, poll_history, last_time,
}
use generatorpi.Sysmon.Newest.{
  last_points-append, keep-append, keep_every, keep_nothing, last-some, last_points-join, last-drop,
}

not_after : (a b : ℤ) → not (leb_ℤ b a) ≡ true → not (leb_ℤ a b) ≡ false
not_after a b h = ground arith

not_after_itself : (a : ℤ) → not (leb_ℤ a a) ≡ false
not_after_itself a = ground arith

All-left : {A : Type 0} (P : A → Type 0) (xs ys : List A) → All P (xs ++ ys) → All P xs
All-left P [] ys h = tt
All-left P (x ∷ xs) ys h = (h.0, All-left P xs ys h.1)

length_empty : {A : Type 0} (xs : List A) → is_empty xs ≡ true → length xs ≡ 0
length_empty [] h = refl
length_empty (x ∷ xs) h = absurd (cc)

module _ {F : Type 0} where
  -- Every sample is later than the ones before it, in seconds.
  abbrev pub IsIncreasing : List (Point F) → Type 0
  IsIncreasing [] = Unit
  IsIncreasing (p ∷ points) = All (λ q. is_after p.t q ≡ true) points × IsIncreasing points

  newest-last_points : (n : ℕ) (xs : List (Point F)) → newest n xs ≡ last_points n xs
  newest-last_points n xs = elim (Bool-cases (ltb n (length xs))) [
    | inl more ↦ if_true (ltb n (length xs)) _ _ more
    | inr room ↦
        if_false (ltb n (length xs)) _ _ room
        ∙ (let e : ◌≡◌ {A = ℕ} 0 (length xs - n) = ground arith in ap (λ k. drop k xs) e)
  ]

  rows_back :
      (since : Option ℤ) (history : List (Point F))
      → cols_to_rows (api_system_history since history) ≡ points_after since history
  unfolding api_system_history
  rows_back since history = cols_to_rows-columns (points_after since history)

  -- The last of some points is not before any of them, and is before what comes later.
  times_at_last :
      (x : Point F) (xs ys : List (Point F)) (l : Point F)
      → IsIncreasing ((x ∷ xs) ++ ys)
      → last (x ∷ xs) ≡ some l
      → All (λ p. is_after l.t p ≡ false) (x ∷ xs) × All (λ q. is_after l.t q ≡ true) ys
  times_at_last x [] ys l h e =
      let same : x ≡ l = ground arith in
      subst (λ m. All (λ p. is_after m.t p ≡ false) (x ∷ []) × All (λ q. is_after m.t q ≡ true) ys)
        same ((not_after_itself x.t, tt), h.0)
  times_at_last x (y ∷ xs) ys l h e =
      let (m, q) = last-some y xs in
      let rejoined : ◌≡◌ {A = Option (Point F)} (some m) (some l) =
        sym (ap (λ o. elim o as (λ _. Option (Point F)) [ none ↦ some x | some z ↦ some z ]) q)
        ∙ e in
      let found = q ∙ rejoined in
      let rest = times_at_last y xs ys l h.1 found in
      let later =
        last-All (λ z. is_after x.t z ≡ true) (y ∷ xs) l
          (All-left (λ z. is_after x.t z ≡ true) (y ∷ xs) ys h.0) found in
      ((not_after x.t l.t later, rest.0), rest.1)

  -- What the server sends to a page that has the points up to the last one.
  sent-after :
      (n : ℕ) (xs ys : List (Point F)) (since : ℤ)
      → All (λ p. is_after since p ≡ false) xs
      → All (λ q. is_after since q ≡ true) ys
      → keep (is_after since) (last_points n (xs ++ ys)) ≡ last_points n ys
  sent-after n xs ys since h k =
      let a = length xs + length ys - n in
      let b = length ys - n in
      ap (keep (is_after since)) (last_points-append n xs ys)
      ∙ keep-append (is_after since) (drop a xs) (drop b ys)
      ∙ ap (λ t. t ++ keep (is_after since) (drop b ys))
          (keep_nothing (is_after since) (drop a xs)
            (All-drop (λ p. is_after since p ≡ false) a xs h))
      ∙ keep_every (is_after since) (drop b ys) (All-drop (λ q. is_after since q ≡ true) b ys k)

  empty-last_points :
      (n : ℕ) (ys : List (Point F)) → is_empty (last_points (suc n) ys) ≡ true → ys ≡ []
  empty-last_points n [] h = refl
  empty-last_points n (y ∷ ys) h =
      let none_left = length_empty (last_points (suc n) (y ∷ ys)) h in
      absurd (omega (arith, none_left, length-drop (length (y ∷ ys) - suc n) (y ∷ ys)))

  abbrev pub merged :
      (capacity : ℕ) → (points : List (Point F)) → ℤ → List (Point F) → List (Point F)
  merged capacity points since fresh =
      if is_empty fresh then points else newest capacity (points ++ keep (is_after since) fresh)

  poll_history-since :
      (n : ℕ) (history points : List (Point F)) (since : ℤ)
      → last_time points ≡ some since
      → poll_history n history points ≡ merged n points since (keep (is_after since) history)
  unfolding poll_history merge_points
  poll_history-since n history points since e =
      let reply = λ (o : Option ℤ). cols_to_rows (api_system_history o history) in
      ap
        (λ o. elim o as (λ _. List (Point F)) [
          | none ↦ reply o
          | some s ↦ merged n points s (reply o)
        ])
        e
      ∙ ap (merged n points since) (rows_back (some since) history)

  merged-newest :
      (n : ℕ) (xs ys : List (Point F)) (since : ℤ)
      → All (λ q. is_after since q ≡ true) ys
      → merged (suc n) (last_points (suc n) xs) since (last_points (suc n) ys)
        ≡ last_points (suc n) (xs ++ ys)
  merged-newest n xs ys since k =
      let page = last_points (suc n) xs in
      let fresh = last_points (suc n) ys in
      elim (Bool-cases (is_empty fresh)) [
        | inl nothing ↦
            if_true (is_empty fresh) _ _ nothing
            ∙ ap (last_points (suc n)) (sym (append_nil xs))
            ∙ ap (λ t. last_points (suc n) (xs ++ t)) (sym (empty-last_points n ys nothing))
        | inr news ↦
            if_false (is_empty fresh) _ _ news
            ∙ newest-last_points (suc n) (page ++ keep (is_after since) fresh)
            ∙ ap (λ t. last_points (suc n) (page ++ t))
                (keep_every (is_after since) fresh
                  (All-drop (λ q. is_after since q ≡ true) (length ys - suc n) ys k))
            ∙ last_points-join (suc n) xs ys
      ]

  -- A page with the newest of some points has the newest of all after a poll.
  poll_history-merges :
      (n : ℕ) (xs ys : List (Point F))
      → IsIncreasing (xs ++ ys)
      → poll_history (suc n) (last_points (suc n) (xs ++ ys)) (last_points (suc n) xs)
        ≡ last_points (suc n) (xs ++ ys)
  unfolding poll_history merge_points
  poll_history-merges n [] ys h =
      let history = last_points (suc n) ys in
      ap (poll_history (suc n) history) (drop_nil (length {A = Point F} [] - suc n))
      ∙ rows_back none history
  poll_history-merges n (x ∷ xs) ys h =
      let all = (x ∷ xs) ++ ys in
      let page = last_points (suc n) (x ∷ xs) in
      let (l, e) = last-some x xs in
      let (older, newer) = times_at_last x xs ys l h e in
      let at_end = last-drop (length (x ∷ xs) - suc n) (x ∷ xs) (omega arith) ∙ e in
      let since : last_time page ≡ some l.t =
        ap (λ o. elim o as (λ _. Option ℤ) [ none ↦ none | some p ↦ some p.t ]) at_end in
      poll_history-since (suc n) (last_points (suc n) all) page l.t since
      ∙ ap (merged (suc n) page l.t) (sent-after (suc n) (x ∷ xs) ys l.t older newer)
      ∙ merged-newest n (x ∷ xs) ys l.t newer

  -- The samples between the polls of a page, and the poll after each: the history and the points of the page.
  unfoldable pub watch :
      (maxlen : ℕ)
      → List (List (Point F))
      → (history points : List (Point F)) → List (Point F) × List (Point F)
  unfolding append_all poll_history
  watch maxlen [] history points = (history, points)
  watch maxlen (samples ∷ rest) history points =
      let h = append_all maxlen samples history in
      watch maxlen rest h (poll_history maxlen h points)

  abbrev pub all_of : List (List (Point F)) → List (Point F)
  all_of [] = []
  all_of (samples ∷ rest) = samples ++ all_of rest

  IsIncreasing-left : (xs ys : List (Point F)) → IsIncreasing (xs ++ ys) → IsIncreasing xs
  IsIncreasing-left [] ys h = tt
  IsIncreasing-left (x ∷ xs) ys h =
      (All-left (λ q. is_after x.t q ≡ true) xs ys h.0, IsIncreasing-left xs ys h.1)

  watch-newest :
      (n : ℕ) (batches : List (List (Point F))) (xs : List (Point F))
      → IsIncreasing (xs ++ all_of batches)
      → (let page = last_points (suc n) (xs ++ all_of batches) in
          watch (suc n) batches (last_points (suc n) xs) (last_points (suc n) xs) ≡ (page, page))
  unfolding watch
  watch-newest n [] xs h =
      ap (λ t. (last_points (suc n) t, last_points (suc n) t)) (sym (append_nil xs))
  watch-newest n (samples ∷ rest) xs h =
      let m = suc n in
      let now = last_points m xs in
      let rejoined = append_assoc xs samples (all_of rest) in
      let later = subst IsIncreasing (sym rejoined) h in
      ap (λ t. watch m rest t (poll_history m t now)) (append_all-last m samples xs)
      ∙ ap (watch m rest (last_points m (xs ++ samples)))
          (poll_history-merges n xs samples (IsIncreasing-left (xs ++ samples) (all_of rest) later))
      ∙ watch-newest n rest (xs ++ samples) later
      ∙ ap (λ t. (last_points m t, last_points m t)) rejoined

  -- A page that polls with the time of its last point, through the columns of each reply, whenever it polls and
  -- however many samples were taken in between: after every poll it shows exactly the server's history,
  -- which is the newest points, as many as there are places for. None is lost, shown twice or out of
  -- order. The conditions are that there is at least one place, and that every sample is at least a
  -- second later than the one before.
  pub watch_mirrors :
      (n : ℕ) (batches : List (List (Point F)))
      → IsIncreasing (all_of batches)
      → (let held = last_points (suc n) (all_of batches) in
          watch (suc n) batches [] [] ≡ (held, held))
  watch_mirrors n batches h =
      ap (λ t. watch (suc n) batches t t) (sym (drop_nil (length {A = Point F} [] - suc n)))
      ∙ watch-newest n batches [] h
