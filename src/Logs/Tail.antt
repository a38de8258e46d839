-- ===== src/Logs/Tail.antt =====
-- What the read of the log's tail in genpi/routes/core.py returns.
use generatorpi.Base.{
  if◌then◌else◌, if_either, if_false, length, take, drop, All, length-append, drop-length, drop_nil,
  drop-drop, map-append, ◌==◌, Bytes, ℕ, ◌+◌, ◌-◌, ◌≤◌, ◌<◌, ◌≡◌, refl, sym, ap, ◌∙◌, subst, inl,
  inr, false, some, List, [], ◌∷◌, ◌++◌, map, arith, nat_key, bytes_key,
}
use generatorpi.Logs.Splits.{
  IsPlain, drop_partial_complete, splitlines_from-feed, splitlines-unlines,
}
use generatorpi.Logs.{
  last_lines, splitlines_from, splitlines, read_back, read_tail_block, drop_partial, cursor_after,
  tail_with_cursor,
}
use generatorpi.Logs.Decoding.{IsDecoder, drop-all, length-decoded, decode-lines_parts}
use generatorpi.Logs.Blocks.{IsEnough, read_back-IsEnough, joined_again, cursor_after-read}
use generatorpi.Logs.Texts.{complete_lines, complete_size, lines_parts, unlines}
use generatorpi.Logs.Parts.{length-complete_lines, EndsIn-append}

last_lines-append :
    (n : ℕ) (xs ls : List Bytes) → 0 < n → n ≤ length ls → last_lines n (xs ++ ls) ≡ last_lines n ls
unfolding last_lines
last_lines-append n xs ls p h =
    let more = length xs + (length ls - n) in
    let long : length (xs ++ ls) - n ≡ more = omega (arith, length-append xs ls) in
    if_false (n == 0) (xs ++ ls) (drop (length (xs ++ ls) - n) (xs ++ ls)) (ground arith)
    ∙ ap (λ k. drop k (xs ++ ls)) long
    ∙ sym (drop-drop (length ls - n) (length xs) (xs ++ ls))
    ∙ ap (drop (length ls - n)) (drop-length xs ls)
    ∙ sym (if_false (n == 0) ls (drop (length ls - n) ls) (ground arith))

-- Whether the decoded lines of a file end nowhere but at their line feeds.
abbrev pub HasPlainLines : (Bytes → Bytes) → Bytes → Type 0
HasPlainLines decode file = All IsPlain (map decode (complete_lines file))

module _ (decode : Bytes → Bytes) (d : IsDecoder decode) where
  shown-last_lines :
      (found : Bytes) (n : ℕ) (l : Bytes) (ls : List Bytes)
      → complete_lines found ≡ l ∷ ls
      → 0 < n
      → n ≤ length ls
      → All IsPlain (map decode ls)
      → last_lines n (splitlines (drop_partial (decode found))) ≡ last_lines n (map decode ls)
  unfolding splitlines
  shown-last_lines found n l ls e p enough plain =
      let ds = map decode ls in
      let text : drop_partial (decode found) ≡ decode l ++ (10 ∷ unlines (ds, [])) =
        drop_partial_complete (decode found)
        ∙ ap (λ r. unlines (r.0, [])) (decode-lines_parts decode d found)
        ∙ ap (λ k. unlines (map decode k, [])) e in
      let (x, xs, lines) = (splitlines_from-feed (decode l) (unlines (ds, []))).0 in
      ap (λ t. last_lines n (splitlines_from false t)) text
      ∙ ap (last_lines n) (lines ∙ ap (λ t. x ∷ (xs ++ t)) (splitlines-unlines ds plain))
      ∙ last_lines-append n (x ∷ xs) ds p (omega (arith, length-decoded decode ls))

  All-decoded :
      (xs ls : List Bytes) → All IsPlain (map decode (xs ++ ls)) → All IsPlain (map decode ls)
  All-decoded [] ls h = h
  All-decoded (x ∷ xs) ls h = All-decoded xs ls h.1

  first_and_rest :
      (xs : List Bytes) → 0 < length xs → (l : Bytes) × (ls : List Bytes) × (xs ≡ l ∷ ls)
  first_and_rest [] h = absurd (omega arith)
  first_and_rest (l ∷ ls) h = (l, ls, refl)

  shown-whole :
      (file : Bytes) (n : ℕ)
      → HasPlainLines decode file
      → last_lines n (splitlines (drop_partial (decode file)))
        ≡ last_lines n (map decode (complete_lines file))
  shown-whole file n plain =
      ap (λ t. last_lines n (splitlines t))
        (drop_partial_complete (decode file)
          ∙ ap (λ r. unlines (r.0, [])) (decode-lines_parts decode d file))
      ∙ ap (last_lines n) (splitlines-unlines (map decode (complete_lines file)) plain)

  shown-read :
      (file : Bytes) (n : ℕ) (r : Bytes × ℕ)
      → 0 < n
      → IsEnough file n r
      → HasPlainLines decode file
      → last_lines n (splitlines (drop_partial (decode r.0)))
        ≡ last_lines n (map decode (complete_lines file))
  shown-read file n r p enough plain = elim enough.1 [
    | inl start ↦
        ap (λ t. last_lines n (splitlines (drop_partial (decode t))))
          (enough.0 ∙ ap (λ k. drop k file) start)
        ∙ shown-whole file n plain
    | inr many ↦
        let long : n < length (complete_lines r.0) = omega (arith, length-complete_lines r.0) in
        let (l, ls, e) = first_and_rest (complete_lines r.0) (omega arith) in
        let (m, ms, q) = EndsIn-append ls (take r.1 file) r.0 (l, [], e) in
        let whole : complete_lines file ≡ (m ∷ ms) ++ ls =
          ap complete_lines (sym (joined_again file n r p enough)) ∙ q in
        let left : n ≤ length ls = omega (arith, ap length e) in
        shown-last_lines r.0 n l ls e p left
          (All-decoded (m ∷ ms) ls (subst (λ k. All IsPlain (map decode k)) whole plain))
        ∙ sym (
            last_lines-append n (map decode (m ∷ ms)) (map decode ls) p
              (omega (arith, length-decoded decode ls)))
        ∙ ap (last_lines n) (sym (map-append decode (m ∷ ms) ls))
        ∙ ap (λ k. last_lines n (map decode k)) (sym whole)
  ]

  abbrev tail_of : ℕ → Bytes × ℕ × ℕ → List Bytes × ℕ
  tail_of n t =
      if t.2 == 0
      then ([], 0)
      else (last_lines n (splitlines (drop_partial (decode t.0))), cursor_after t.1 t.0)

  tail_of_block :
      (c : ℕ) (s : Bytes) (n : ℕ)
      → (let r = read_back (length (c ∷ s)) 4096 (c ∷ s) n (length (c ∷ s)) [] in
          tail_with_cursor decode (some (c ∷ s)) n
          ≡ (last_lines n (splitlines (drop_partial (decode r.0))), cursor_after r.1 r.0))
  unfolding tail_with_cursor read_tail_block
  tail_of_block c s n =
      let some_bytes : (length (c ∷ s) == 0) ≡ false = ground arith in
      ap (tail_of n) (if_false (length (c ∷ s) == 0) _ _ some_bytes)
      ∙ if_false (length (c ∷ s) == 0) _ _ some_bytes

  empty_tail :
      (n : ℕ)
      → tail_with_cursor decode (some []) n
        ≡ (last_lines n (map decode (complete_lines [])), complete_size [])
  unfolding tail_with_cursor read_tail_block complete_size lines_parts last_lines
  empty_tail n = ap (λ ls. (ls, 0)) (sym (if_either (λ l. l ≡ []) (n == 0) refl (drop_nil (0 - n))))

  -- The tail that is read block by block is that of the whole file: its last complete lines, at most `n`,
  -- and the place behind the last of them. The conditions: `n` is not 0, the decoder
  -- decodes what stands on the two sides of a line feed apart and makes no line feed of other bytes, and each complete line of the file decodes to a text
  -- that ends nowhere but at its line feed, with no carriage return or other line break in it.
  pub tail_with_cursor_complete :
      (file : Bytes) (n : ℕ)
      → 0 < n
      → HasPlainLines decode file
      → tail_with_cursor decode (some file) n
        ≡ (last_lines n (map decode (complete_lines file)), complete_size file)
  tail_with_cursor_complete [] n p plain = empty_tail n
  tail_with_cursor_complete (c ∷ s) n p plain =
      let file = c ∷ s in
      let size = length file in
      let r = read_back size 4096 file n size [] in
      let enough =
        read_back-IsEnough size 4096 file n size [] (omega arith) (omega arith)
          (sym (drop-all size file (omega arith))) in
      tail_of_block c s n
      ∙ ap (λ ls. (ls, cursor_after r.1 r.0)) (shown-read file n r p enough plain)
      ∙ ap (λ k. (last_lines n (map decode (complete_lines file)), k))
          (cursor_after-read file n r p enough)
