-- ===== src/Logs/Blocks.antt =====
-- The loop of `_read_tail_block` in genpi/routes/core.py, and the place of the last line feed that it read.
use generatorpi.Base.{
  ltb, leb, Bool-cases, length, take, drop, length-append, length-drop, take-append-drop, drop-drop,
  Bytes, ℕ, zero, suc, ◌+◌, ◌-◌, ◌≤◌, ◌<◌, min, ◌≡◌, refl, sym, ap, ◌∙◌, ◌⊎◌, inl, inr, false, ◌&&◌,
  Option, none, some, List, [], ◌∷◌, ◌++◌, arith,
}
use generatorpi.Logs.{read_back, feeds, cursor_after}
use generatorpi.Logs.Decoding.{last_of, rfind_complete, complete-partial}
use generatorpi.Logs.Texts.{unlines, complete_size, complete_lines, partial_line}
use generatorpi.Logs.Parts.{length-complete_lines, partial_line-append}

-- What was read begins at the position, and is the whole file or holds more line feeds than lines are wanted.
abbrev pub IsEnough : Bytes → ℕ → Bytes × ℕ → Type 0
IsEnough file n r = (r.0 ≡ drop r.1 file) × ((r.1 ≡ 0) ⊎ (n < feeds r.0))

block_before :
    (block at : ℕ) (file : Bytes)
    → take (min block at) (drop (at - min block at) file) ++ drop at file
      ≡ drop (at - min block at) file
block_before block at file =
    let from = at - min block at in
    let step = min block at in
    let back : from + step ≡ at = omega arith in
    ap (λ n. take step (drop from file) ++ drop n file) (sym back)
    ∙ ap (λ t. take step (drop from file) ++ t) (sym (drop-drop step from file))
    ∙ take-append-drop step (drop from file)

stopped : (at n seen : ℕ) → (ltb 0 at && leb seen n) ≡ false → (at ≡ 0) ⊎ (n < seen)
stopped zero n seen h = inl refl
stopped (suc at) n seen h = inr (ground arith)

pub read_back-IsEnough :
    (rounds block : ℕ) (file : Bytes) (n at : ℕ) (found : Bytes)
    → at ≤ rounds
    → 0 < block
    → found ≡ drop at file
    → IsEnough file n (read_back rounds block file n at found)
unfolding read_back
read_back-IsEnough zero block file n at found h b e = (e, inl (omega arith))
read_back-IsEnough (suc rounds) block file n at found h b e =
    elim (Bool-cases (ltb 0 at && leb (feeds found) n)) [
      | inl more ↦ rw more (
          read_back-IsEnough rounds block file n (at - min block at) _ (ground arith) b (
            ap (λ t. take (min block at) (drop (at - min block at) file) ++ t) e
            ∙ block_before block at file))
      | inr done ↦ rw done (e, stopped at n (feeds found) done)
    ]

abbrev place : ℕ → Option ℕ → ℕ
place at o = elim o as (λ _. ℕ) [ none ↦ 0 | some i ↦ at + i + 1 ]

place-last_of : (at k : ℕ) → 0 < k → place at (last_of k) ≡ at + k
place-last_of at zero h = absurd (omega arith)
place-last_of at (suc k) h = omega arith

place-start : (k : ℕ) → place 0 (last_of k) ≡ k
place-start zero = refl
place-start (suc k) = omega arith

lines-le-size : (ls : List Bytes) → length ls ≤ length (unlines (ls, []))
lines-le-size [] = omega arith
lines-le-size (l ∷ ls) = omega (arith, lines-le-size ls, length-append l (10 ∷ unlines (ls, [])))

feeds-le-complete_size : (s : Bytes) → feeds s ≤ complete_size s
unfolding complete_size
feeds-le-complete_size s = omega (arith, lines-le-size (complete_lines s), length-complete_lines s)

size-parts : (s : Bytes) → length s ≡ complete_size s + length (partial_line s)
unfolding complete_size
size-parts s = omega (
  arith,
  ap length (complete-partial s),
  length-append (unlines (complete_lines s, [])) (partial_line s),
)

-- Where the tail starts, the file's lines and the tail's are the same from the end.
module _ (file : Bytes) (n : ℕ) (r : Bytes × ℕ) (p : 0 < n) (enough : IsEnough file n r) where
  pub joined_again : take r.1 file ++ r.0 ≡ file
  joined_again = ap (λ t. take r.1 file ++ t) enough.0 ∙ take-append-drop r.1 file

  pub cursor_after-read : cursor_after r.1 r.0 ≡ complete_size file
  unfolding cursor_after
  cursor_after-read =
      let size = complete_size r.0 in
      let found = ap (place r.1) (rfind_complete r.0) in
      elim enough.1 [
        | inl start ↦
            found
            ∙ ap (λ k. place k (last_of size)) start
            ∙ place-start size
            ∙ ap complete_size (enough.0 ∙ ap (λ k. drop k file) start)
        | inr many ↦
            found
            ∙ place-last_of r.1 size (omega (arith, feeds-le-complete_size r.0))
            ∙ omega (
              arith,
              many,
              feeds-le-complete_size r.0,
              size-parts r.0,
              size-parts file,
              ap length enough.0,
              length-drop r.1 file,
              ap length (
                  sym (partial_line-append (take r.1 file) r.0 (omega arith))
                  ∙ ap partial_line joined_again),
            )
      ]
