-- ===== src/Sysmon/History.antt =====
-- The ring buffer of genpi/sysmon.py.
use generatorpi.Base.{
  length, drop, length-append, length-drop, drop-append, drop_nil, drop-drop, append_nil,
  append_assoc, ℕ, ◌+◌, ◌-◌, ◌≡◌, sym, ap, ◌∙◌, List, [], ◌∷◌, ◌++◌, arith, bytes_key,
}

module _ {ℓ} {A : Type ℓ} where
  -- `deque(maxlen=n).append(x)`, the newest point last
  unfoldable pub append_point : (maxlen : ℕ) → A → List A → List A
  append_point maxlen x xs = let all = xs ++ (x ∷ []) in drop (length all - maxlen) all

  unfoldable pub append_all : (maxlen : ℕ) → List A → List A → List A
  unfolding append_point
  append_all maxlen [] h = h
  append_all maxlen (x ∷ xs) h = append_all maxlen xs (append_point maxlen x h)

  -- The last points of a list.
  abbrev pub last_points : ℕ → List A → List A
  last_points n xs = drop (length xs - n) xs

  append_point-last :
      (n : ℕ) (x : A) (xs : List A)
      → append_point n x (last_points n xs) ≡ last_points n (xs ++ (x ∷ []))
  unfolding append_point
  append_point-last n x xs =
      let k = length xs - n in
      let all = xs ++ (x ∷ []) in
      let moved : drop k xs ++ (x ∷ []) ≡ drop k all = drop-append k xs (x ∷ []) (omega arith) in
      let long = length-append xs (x ∷ []) in
      let short = length-drop k all in
      ap (λ l. drop (length l - n) l) moved
      ∙ drop-drop (length (drop k all) - n) k all
      ∙ ap (λ m. drop m all)
          (let e : k + (length (drop k all) - n) ≡ length all - n = omega (arith, long, short) in e)

  pub append_all-last :
      (n : ℕ) (xs ys : List A) → append_all n xs (last_points n ys) ≡ last_points n (ys ++ xs)
  unfolding append_all
  append_all-last n [] ys = ap (last_points n) (sym (append_nil ys))
  append_all-last n (x ∷ xs) ys =
      ap (append_all n xs) (append_point-last n x ys)
      ∙ append_all-last n xs (ys ++ (x ∷ []))
      ∙ ap (last_points n) (append_assoc ys (x ∷ []) xs)

  -- After any number of samples the buffer holds exactly the newest ones, as many as it has places for.
  pub history_holds_newest :
      (n : ℕ) (points : List A) → append_all n points [] ≡ last_points n points
  history_holds_newest n points =
      ap (append_all n points) (sym (drop_nil (0 - n))) ∙ append_all-last n points []
