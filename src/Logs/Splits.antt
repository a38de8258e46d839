-- ===== src/Logs/Splits.antt =====
-- `splitlines` on a text whose last, partial line was dropped.
use generatorpi.Base.{
  Bool-cases, if_either, if_true, if_false, length, take, All, append_nil, ◌==◌, Bytes, starts_with,
  ends_with, onto_first, ℕ, zero, suc, ◌≡◌, refl, sym, ap, ◌∙◌, inl, inr, Bool, true, false, Option,
  none, some, List, [], ◌∷◌, ◌++◌, arith, nat_key, bytes_key,
}
use mathlib.Core.List.{reverse, reverse-cons, reverse-reverse}
use generatorpi.Logs.{splitlines, is_break, feeds, splitlines_from, drop_partial}
use generatorpi.Logs.Decoding.{last_of, rfind_complete, complete-partial}
use generatorpi.Logs.Texts.{partial_line, complete_size, lines_parts, complete_lines, unlines}
use generatorpi.Logs.Delta.{take-append}
use generatorpi.Logs.Parts.{partial_line-append}

reversed-partial_line :
    (r t : Bytes) → t ≡ reverse r → starts_with (10 ∷ []) r ≡ true → partial_line t ≡ []
unfolding feeds lines_parts
reversed-partial_line [] t e h = absurd (cc)
reversed-partial_line (c ∷ r) t e h =
    let feed : c ≡ 10 = ground arith in
    ap partial_line (e ∙ reverse-cons c r ∙ ap (λ x. reverse r ++ (x ∷ [])) feed)
    ∙ partial_line-append (reverse r) (10 ∷ []) (omega arith)

-- A text that ends with a line feed has no rest.
ends-partial_line : (t : Bytes) → ends_with (10 ∷ []) t ≡ true → partial_line t ≡ []
ends-partial_line t h = reversed-partial_line (reverse t) t (sym (reverse-reverse t)) h

abbrev through : Bytes → Option ℕ → Bytes
through t o = elim o as (λ _. Bytes) [ none ↦ [] | some i ↦ take (suc i) t ]

through-last_of : (t : Bytes) (k : ℕ) → through t (last_of k) ≡ take k t
through-last_of t zero = refl
through-last_of t (suc k) = refl

take_complete : (t : Bytes) → take (complete_size t) t ≡ unlines (complete_lines t, [])
unfolding complete_size
take_complete t =
    let u = unlines (complete_lines t, []) in
    ap (take (length u)) (sym (complete-partial t)) ∙ take-append u (partial_line t)

pub drop_partial_complete : (t : Bytes) → drop_partial t ≡ unlines (complete_lines t, [])
unfolding drop_partial
drop_partial_complete t = elim (Bool-cases (ends_with (10 ∷ []) t)) [
  | inl e ↦
      if_true (ends_with (10 ∷ []) t) _ _ e
      ∙ sym (complete-partial t)
      ∙ ap (λ p. unlines (complete_lines t, []) ++ p) (ends-partial_line t e)
      ∙ append_nil (unlines (complete_lines t, []))
  | inr e ↦
      if_false (ends_with (10 ∷ []) t) _ _ e
      ∙ ap (through t) (rfind_complete t)
      ∙ through-last_of t (complete_size t)
      ∙ take_complete t
]

abbrev pub IsPlain : Bytes → Type 0
IsPlain [] = Unit
IsPlain (c ∷ l) = (is_break c ≡ false) × IsPlain l

splitlines-line :
    (l s : Bytes) → IsPlain l → splitlines_from false (l ++ (10 ∷ s)) ≡ l ∷ splitlines_from false s
unfolding splitlines_from
splitlines-line [] s h = refl
splitlines-line (c ∷ l) s h = rw h.0 (ap (onto_first c) (splitlines-line l s h.1))

abbrev Behind : List Bytes → List Bytes → Type 0
Behind t r = (x : Bytes) × (xs : List Bytes) × (r ≡ x ∷ (xs ++ t))

abbrev BehindSome : List Bytes → List Bytes → Type 0
BehindSome t r = (xs : List Bytes) × (r ≡ xs ++ t)

onto_first-Behind : (c : ℕ) (t r : List Bytes) → Behind t r → Behind t (onto_first c r)
onto_first-Behind c t r (x, xs, e) = (c ∷ x, xs, ap (onto_first c) e)

break-Behind : (t r : List Bytes) → BehindSome t r → Behind t ([] ∷ r)
break-Behind t r (xs, e) = ([], xs, ap (λ k. [] ∷ k) e)

-- Whatever stands before a line feed, the lines behind it are the same.
pub splitlines_from-feed :
    (l s : Bytes)
    → Behind (splitlines_from false s) (splitlines_from false (l ++ (10 ∷ s)))
      × BehindSome (splitlines_from false s) (splitlines_from true (l ++ (10 ∷ s)))
unfolding splitlines_from
splitlines_from-feed [] s = (([], [], refl), ([], refl))
splitlines_from-feed (c ∷ l) s =
    let t = splitlines_from false s in
    let (plain, after) = splitlines_from-feed l s in
    let kept = onto_first-Behind c t (splitlines_from false (l ++ (10 ∷ s))) plain in
    let loose =
      λ (r : List Bytes) (h : Behind t r). let p : BehindSome t r = (h.0 ∷ h.1, h.2) in p in
    let next : (b : Bool) → BehindSome t (splitlines_from b (l ++ (10 ∷ s))) = λ b.
      elim b as (λ b. BehindSome t (splitlines_from b (l ++ (10 ∷ s)))) [
        | true ↦ after
        | false ↦ loose _ plain
      ] in
    let line = if_either (Behind t) (is_break c) (break-Behind t _ (next (c == 13))) kept in
    (line, if_either (BehindSome t) (c == 10) (loose _ plain) (loose _ line))

pub splitlines-unlines : (ls : List Bytes) → All IsPlain ls → splitlines (unlines (ls, [])) ≡ ls
unfolding splitlines splitlines_from
splitlines-unlines [] h = refl
splitlines-unlines (l ∷ ls) h =
    splitlines-line l (unlines (ls, [])) h.0 ∙ ap (λ t. l ∷ t) (splitlines-unlines ls h.1)
