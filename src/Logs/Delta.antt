-- ===== src/Logs/Delta.antt =====
-- What `_read_log_range` of genpi/routes/core.py returns.
use generatorpi.Base.{
  ltb, if◌then◌else◌, Bool-cases, length, take, drop, length-append, append_assoc, ◌==◌, Bytes,
  split, ℕ, suc, ◌+◌, ◌-◌, ◌≡◌, refl, sym, ap, ◌∙◌, inl, inr, some, List, [], ◌∷◌, ◌++◌, map, arith,
  nat_key, bytes_key,
}
use generatorpi.Logs.{feeds, last_lines, rfind, range_reply, read_log_range}
use generatorpi.Logs.Texts.{
  unlines, IsFeedless, AreLines, unlines-append, complete_lines, partial_line, complete_size,
  unlines-lines_parts, lines_parts-AreLines,
}
use generatorpi.Logs.Decoding.{IsDecoder, decode-AreLines, last_of, rfind_complete}

abbrev joined_lines : List Bytes → Bytes
joined_lines [] = []
joined_lines (l ∷ []) = l
joined_lines (l ∷ m ∷ ls) = l ++ (10 ∷ joined_lines (m ∷ ls))

-- The last lines, at most `n` of them.
abbrev pub capped : ℕ → List Bytes → List Bytes
capped n ls = if ltb n (length ls) then last_lines n ls else ls

unlines-joined_lines :
    (l : Bytes) (ls : List Bytes) → unlines (l ∷ ls, []) ≡ joined_lines (l ∷ ls) ++ (10 ∷ [])
unlines-joined_lines l [] = refl
unlines-joined_lines l (m ∷ ls) =
    ap (λ t. l ++ (10 ∷ t)) (unlines-joined_lines m ls)
    ∙ sym (append_assoc l (10 ∷ joined_lines (m ∷ ls)) (10 ∷ []))

pub take-append : (a b : Bytes) → take (length a) (a ++ b) ≡ a
take-append [] b = refl
take-append (x ∷ a) b = ap (λ t. x ∷ t) (take-append a b)

split-feedless : (l : Bytes) → IsFeedless l → split 10 l ≡ l ∷ []
unfolding feeds
split-feedless [] h = refl
split-feedless (c ∷ l) h = elim (Bool-cases (c == 10)) [
  | inl e ↦ absurd (ground arith)
  | inr e ↦ rw e (rw (split-feedless l (ground arith)) refl)
]

split-line : (l s : Bytes) → IsFeedless l → split 10 (l ++ (10 ∷ s)) ≡ l ∷ split 10 s
unfolding feeds
split-line [] s h = refl
split-line (c ∷ l) s h = elim (Bool-cases (c == 10)) [
  | inl e ↦ absurd (ground arith)
  | inr e ↦ rw e (rw (split-line l s (ground arith)) refl)
]

split-joined_lines :
    (l : Bytes) (ls : List Bytes)
    → AreLines (l ∷ ls, [])
    → split 10 (joined_lines (l ∷ ls)) ≡ l ∷ ls
split-joined_lines l [] h = split-feedless l h.0
split-joined_lines l (m ∷ ls) h =
    split-line l (joined_lines (m ∷ ls)) h.0 ∙ ap (λ t. l ∷ t) (split-joined_lines m ls h.1)

AreLines-whole : (ls : List Bytes) (p : Bytes) → AreLines (ls, p) → AreLines (ls, [])
unfolding feeds
AreLines-whole [] p h = refl
AreLines-whole (l ∷ ls) p h = (h.0, AreLines-whole ls p h.1)

module _ (decode : Bytes → Bytes) (d : IsDecoder decode) where
  decode-joined_lines :
      (l : Bytes) (ls : List Bytes)
      → decode (joined_lines (l ∷ ls)) ≡ joined_lines (map decode (l ∷ ls))
  decode-joined_lines l [] = refl
  decode-joined_lines l (m ∷ ls) =
      d.line l (joined_lines (m ∷ ls)) ∙ ap (λ t. decode l ++ (10 ∷ t)) (decode-joined_lines m ls)

  -- The lines that are cut out before the last line feed of a text.
  cut_lines :
      (l : Bytes) (ls : List Bytes) (p : Bytes) (i : ℕ)
      → AreLines (l ∷ ls, p)
      → length (unlines (l ∷ ls, [])) ≡ suc i
      → split 10 (decode (take i (unlines (l ∷ ls, p)))) ≡ map decode (l ∷ ls)
  cut_lines l ls p i h long =
      let j = joined_lines (l ∷ ls) in
      let whole = unlines-joined_lines l ls in
      let size : i ≡ length j = omega (arith, ap length whole, length-append j (10 ∷ []), long) in
      let text : unlines (l ∷ ls, p) ≡ j ++ (10 ∷ p) =
        sym (unlines-append (l ∷ ls) p) ∙ ap (λ t. t ++ p) whole ∙ append_assoc j (10 ∷ []) p in
      ap (λ t. split 10 (decode (take i t))) text
      ∙ ap (λ n. split 10 (decode (take n (j ++ (10 ∷ p))))) size
      ∙ ap (λ t. split 10 (decode t)) (take-append j (10 ∷ p))
      ∙ ap (split 10) (decode-joined_lines l ls)
      ∙ split-joined_lines (decode l) (map decode ls)
          (AreLines-whole (map decode (l ∷ ls)) _ (decode-AreLines decode d (l ∷ ls) p h))

  range_reply-unlines :
      (start n : ℕ) (ls : List Bytes) (p : Bytes)
      → AreLines (ls, p)
      → range_reply decode start n (unlines (ls, p)) (last_of (length (unlines (ls, []))))
        ≡ (capped n (map decode ls), start + length (unlines (ls, [])))
  unfolding range_reply last_lines
  range_reply-unlines start n [] p h = ground arith
  range_reply-unlines start n (l ∷ ls) p h =
      let u = unlines (l ∷ ls, []) in
      let k = length u - 1 in
      let long : length u ≡ suc k = omega (arith, length-append l (10 ∷ unlines (ls, []))) in
      let lines = cut_lines l ls p k h long in
      let there : start + k + 1 ≡ start + length u = omega arith in
      ap (λ m. range_reply decode start n (unlines (l ∷ ls, p)) (last_of m)) long
      ∙ ap (λ x. (capped n x, start + k + 1)) lines
      ∙ ap (λ m. (capped n (map decode (l ∷ ls)), m)) there

  range_reply_complete :
      (start n : ℕ) (s : Bytes)
      → range_reply decode start n s (rfind s)
        ≡ (capped n (map decode (complete_lines s)), start + complete_size s)
  unfolding complete_size
  range_reply_complete start n s =
      ap (range_reply decode start n s) (rfind_complete s)
      ∙ ap (λ t. range_reply decode start n t (last_of (complete_size s)))
          (sym (unlines-lines_parts s))
      ∙ range_reply-unlines start n (complete_lines s) (partial_line s) (lines_parts-AreLines s)

  -- Of the bytes from `start` to `end`, the complete lines are returned, and the place behind the last.
  pub read_log_range_complete :
      (file : Bytes) (start end n : ℕ)
      → read_log_range decode (some file) start end n ≡ (
        capped n (map decode (complete_lines (take (end - start) (drop start file)))),
        start + complete_size (take (end - start) (drop start file)),
      )
  unfolding read_log_range
  read_log_range_complete file start end n =
      range_reply_complete start n (take (end - start) (drop start file))
