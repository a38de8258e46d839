-- ===== src/Logs/Texts.antt =====
-- Texts as lines, each with its line feed, and a rest without one.
use generatorpi.Base.{
  if◌then◌else◌, Bool-cases, if_true, if_false, length, append_assoc, ◌==◌, beq_eq, Bytes, ℕ, ◌≡◌,
  refl, ap, ◌∙◌, inl, inr, true, false, List, [], ◌∷◌, ◌++◌, arith, nat_key, bytes_key,
}
use generatorpi.Logs.{feeds}

abbrev pub onto_line : ℕ → List Bytes × Bytes → List Bytes × Bytes
onto_line c ([], p) = ([], c ∷ p)
onto_line c (l ∷ ls, p) = ((c ∷ l) ∷ ls, p)

-- The lines that a line feed ends, and what stands behind the last one.
unfoldable pub lines_parts : Bytes → List Bytes × Bytes
lines_parts [] = ([], [])
lines_parts (c ∷ s) =
    let rest = lines_parts s in if c == 10 then ([] ∷ rest.0, rest.1) else onto_line c rest

abbrev pub complete_lines : Bytes → List Bytes
complete_lines s = (lines_parts s).0

abbrev pub partial_line : Bytes → Bytes
partial_line s = (lines_parts s).1

abbrev pub unlines : List Bytes × Bytes → Bytes
unlines ([], p) = p
unlines (l ∷ ls, p) = l ++ (10 ∷ unlines (ls, p))

-- How many bytes the complete lines take.
unfoldable pub complete_size : Bytes → ℕ
complete_size s = length (unlines (complete_lines s, []))

abbrev pub IsFeedless : Bytes → Type 0
IsFeedless s = feeds s ≡ 0

-- Lines and a rest that no line feed divides.
abbrev pub AreLines : List Bytes × Bytes → Type 0
AreLines ([], p) = IsFeedless p
AreLines (l ∷ ls, p) = IsFeedless l × AreLines (ls, p)

unlines-onto_line : (c : ℕ) (r : List Bytes × Bytes) → unlines (onto_line c r) ≡ c ∷ unlines r
unlines-onto_line c ([], p) = refl
unlines-onto_line c (l ∷ ls, p) = refl

onto_line-AreLines :
    (c : ℕ) (r : List Bytes × Bytes) → (c == 10) ≡ false → AreLines r → AreLines (onto_line c r)
unfolding feeds
onto_line-AreLines c ([], p) e h = ground arith
onto_line-AreLines c (l ∷ ls, p) e h = ground arith

pub unlines-lines_parts : (s : Bytes) → unlines (lines_parts s) ≡ s
unfolding lines_parts
unlines-lines_parts [] = refl
unlines-lines_parts (c ∷ s) = elim (Bool-cases (c == 10)) [
  | inl e ↦ rw e (ground (arith, beq_eq c 10 e, unlines-lines_parts s))
  | inr e ↦ rw e (unlines-onto_line c (lines_parts s) ∙ ap (λ t. c ∷ t) (unlines-lines_parts s))
]

pub lines_parts-AreLines : (s : Bytes) → AreLines (lines_parts s)
unfolding lines_parts feeds
lines_parts-AreLines [] = refl
lines_parts-AreLines (c ∷ s) = elim (Bool-cases (c == 10)) [
  | inl e ↦ rw e (refl, lines_parts-AreLines s)
  | inr e ↦ rw e (onto_line-AreLines c (lines_parts s) e (lines_parts-AreLines s))
]

pub parts_at_feed :
    (c : ℕ) (s : Bytes)
    → (c == 10) ≡ true
    → lines_parts (c ∷ s) ≡ ([] ∷ complete_lines s, partial_line s)
unfolding lines_parts
parts_at_feed c s e = if_true (c == 10) _ _ e

pub parts_at_char :
    (c : ℕ) (s : Bytes) → (c == 10) ≡ false → lines_parts (c ∷ s) ≡ onto_line c (lines_parts s)
unfolding lines_parts
parts_at_char c s e = if_false (c == 10) _ _ e

-- A line feed ends the line before it.
pub parts-line :
    (l : Bytes) (s : Bytes)
    → IsFeedless l
    → lines_parts (l ++ (10 ∷ s)) ≡ (l ∷ complete_lines s, partial_line s)
unfolding lines_parts feeds
parts-line [] s h = refl
parts-line (c ∷ l) s h = elim (Bool-cases (c == 10)) [
  | inl e ↦ absurd (ground arith)
  | inr e ↦ rw e (rw (parts-line l s (ground arith)) refl)
]

parts-feedless : (p : Bytes) → IsFeedless p → lines_parts p ≡ ([], p)
unfolding lines_parts feeds
parts-feedless [] h = refl
parts-feedless (c ∷ p) h = elim (Bool-cases (c == 10)) [
  | inl e ↦ absurd (ground arith)
  | inr e ↦ rw e (rw (parts-feedless p (ground arith)) refl)
]

pub lines_parts-unlines : (r : List Bytes × Bytes) → AreLines r → lines_parts (unlines r) ≡ r
lines_parts-unlines ([], p) h = parts-feedless p h
lines_parts-unlines (l ∷ ls, p) h =
    parts-line l (unlines (ls, p)) h.0 ∙ ap (λ r. (l ∷ r.0, r.1)) (lines_parts-unlines (ls, p) h.1)

pub unlines-append : (ls : List Bytes) (p : Bytes) → unlines (ls, []) ++ p ≡ unlines (ls, p)
unlines-append [] p = refl
unlines-append (l ∷ ls) p = simp (append_assoc, unlines-append ls p)
