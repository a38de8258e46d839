-- ===== src/Logs/Parts.antt =====
-- How the lines of a text change with what stands in front of it or behind it.
use generatorpi.Base.{
  Bool-cases, if_true, if_false, length, drop, length-append, drop-length, append_assoc, ◌==◌,
  Bytes, ℕ, suc, ◌+◌, ◌≤◌, ◌<◌, ◌≡◌, refl, sym, ap, ◌∙◌, inl, inr, List, [], ◌∷◌, ◌++◌, arith,
  nat_key, bytes_key,
}
use generatorpi.Logs.Texts.{
  complete_lines, onto_line, AreLines, unlines, lines_parts, complete_size, parts_at_feed,
  partial_line, unlines-lines_parts, lines_parts-AreLines, parts_at_char, parts-line,
}
use generatorpi.Logs.{feeds}
use generatorpi.Logs.Decoding.{complete-partial}

length-onto_line : (c : ℕ) (r : List Bytes × Bytes) → length (onto_line c r).0 ≡ length r.0
length-onto_line c ([], p) = refl
length-onto_line c (l ∷ ls, p) = omega arith

pub length-complete_lines : (s : Bytes) → length (complete_lines s) ≡ feeds s
unfolding lines_parts feeds
length-complete_lines [] = refl
length-complete_lines (c ∷ s) = elim (Bool-cases (c == 10)) [
  | inl e ↦
      ap (λ r. length r.0) (parts_at_feed c s e)
      ∙ ap suc (length-complete_lines s)
      ∙ sym (if_true (c == 10) _ _ e)
  | inr e ↦
      ap (λ r. length r.0) (parts_at_char c s e)
      ∙ length-onto_line c (lines_parts s)
      ∙ length-complete_lines s
      ∙ sym (if_false (c == 10) _ _ e)
]

feeds-append : (x s : Bytes) → feeds (x ++ s) ≡ feeds x + feeds s
unfolding feeds
feeds-append [] s = omega arith
feeds-append (c ∷ x) s = ground (arith, feeds-append x s)

onto_line-lines :
    (c : ℕ) (r : List Bytes × Bytes) (m : Bytes) (k : List Bytes)
    → r.0 ≡ m ∷ k
    → (onto_line c r).0 ≡ (c ∷ m) ∷ k
onto_line-lines c ([], p) m k e = absurd (cc)
onto_line-lines c (l ∷ ls, p) m k e = ground arith

-- These are lines of the text, and one stands before them.
abbrev EndsIn : List Bytes → Bytes → Type 0
EndsIn ls s = (m : Bytes) × (ms : List Bytes) × (complete_lines s ≡ m ∷ (ms ++ ls))

EndsIn-cons : (ls : List Bytes) (c : ℕ) (s : Bytes) → EndsIn ls s → EndsIn ls (c ∷ s)
EndsIn-cons ls c s (m, ms, e) = elim (Bool-cases (c == 10)) [
  | inl feed ↦ ([], m ∷ ms, ap (λ r. r.0) (parts_at_feed c s feed) ∙ ap (λ t. [] ∷ t) e)
  | inr other ↦ (
    c ∷ m,
    ms,
    ap (λ r. r.0) (parts_at_char c s other) ∙ onto_line-lines c (lines_parts s) m (ms ++ ls) e,
  )
]

-- Text in front changes no line but the first.
pub EndsIn-append : (ls : List Bytes) (x s : Bytes) → EndsIn ls s → EndsIn ls (x ++ s)
EndsIn-append ls [] s h = h
EndsIn-append ls (c ∷ x) s h = EndsIn-cons ls c (x ++ s) (EndsIn-append ls x s h)

partial-onto_line : (c : ℕ) (r : List Bytes × Bytes) → 0 < length r.0 → (onto_line c r).1 ≡ r.1
partial-onto_line c ([], p) h = absurd (omega arith)
partial-onto_line c (l ∷ ls, p) h = refl

partial_line-step :
    (c : ℕ) (s : Bytes) → 0 < length (complete_lines s) → partial_line (c ∷ s) ≡ partial_line s
partial_line-step c s h = elim (Bool-cases (c == 10)) [
  | inl e ↦ ap (λ r. r.1) (parts_at_feed c s e)
  | inr e ↦ ap (λ r. r.1) (parts_at_char c s e) ∙ partial-onto_line c (lines_parts s) h
]

pub partial_line-append : (x s : Bytes) → 0 < feeds s → partial_line (x ++ s) ≡ partial_line s
partial_line-append [] s h = refl
partial_line-append (c ∷ x) s h =
    partial_line-step c (x ++ s) (omega (arith, length-complete_lines (x ++ s), feeds-append x s))
    ∙ partial_line-append x s h

-- A later text begins where the complete lines of the first one end.
lines_parts-append :
    (ls : List Bytes) (p x : Bytes)
    → AreLines (ls, p)
    → lines_parts (unlines (ls, p) ++ x) ≡ (ls ++ complete_lines (p ++ x), partial_line (p ++ x))
lines_parts-append [] p x h = refl
lines_parts-append (l ∷ ls) p x h =
    ap lines_parts (append_assoc l (10 ∷ unlines (ls, p)) x)
    ∙ parts-line l (unlines (ls, p) ++ x) h.0
    ∙ ap (λ r. (l ∷ r.0, r.1)) (lines_parts-append ls p x h.1)

pub complete_lines-append :
    (s x : Bytes)
    → complete_lines (s ++ x) ≡ complete_lines s ++ complete_lines (partial_line s ++ x)
complete_lines-append s x =
    ap (λ t. complete_lines (t ++ x)) (sym (unlines-lines_parts s))
    ∙ ap (λ r. r.0)
        (lines_parts-append (complete_lines s) (partial_line s) x (lines_parts-AreLines s))

length-unlines :
    (ls ms : List Bytes)
    → length (unlines (ls ++ ms, [])) ≡ length (unlines (ls, [])) + length (unlines (ms, []))
length-unlines [] ms = omega arith
length-unlines (l ∷ ls) ms = omega (
  arith,
  length-append l (10 ∷ unlines (ls ++ ms, [])),
  length-append l (10 ∷ unlines (ls, [])),
  length-unlines ls ms,
)

pub complete_size-append :
    (s x : Bytes) → complete_size (s ++ x) ≡ complete_size s + complete_size (partial_line s ++ x)
unfolding complete_size
complete_size-append s x =
    ap (λ ls. length (unlines (ls, []))) (complete_lines-append s x)
    ∙ length-unlines (complete_lines s) (complete_lines (partial_line s ++ x))

pub drop-complete_size : (s x : Bytes) → drop (complete_size s) (s ++ x) ≡ partial_line s ++ x
unfolding complete_size
drop-complete_size s x =
    let u = unlines (complete_lines s, []) in
    ap (λ t. drop (length u) (t ++ x)) (sym (complete-partial s))
    ∙ ap (drop (length u)) (append_assoc u (partial_line s) x)
    ∙ drop-length u (partial_line s ++ x)

pub complete_size-le : (s : Bytes) → complete_size s ≤ length s
unfolding complete_size
complete_size-le s = omega (
  arith,
  ap length (complete-partial s),
  length-append (unlines (complete_lines s, [])) (partial_line s),
)
