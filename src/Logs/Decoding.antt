-- ===== src/Logs/Decoding.antt =====
-- The places of line feeds in a text, and a decoding that leaves them where they are.
use generatorpi.Base.{
  Bool-cases, Option-cases, length, drop, length-append, ◌==◌, Bytes, ℕ, zero, suc, ◌+◌, ◌≤◌, ◌≡◌,
  refl, sym, ap, ◌∙◌, inl, inr, Option, none, some, List, [], ◌∷◌, ◌++◌, map, arith, nat_key,
  bytes_key,
}
use generatorpi.Logs.{feeds, rfind}
use generatorpi.Logs.Texts.{
  lines_parts, complete_lines, partial_line, unlines, complete_size, IsFeedless, AreLines,
  unlines-lines_parts, lines_parts-AreLines, lines_parts-unlines, unlines-append,
}

-- A decoding of UTF-8 with replacement: a line feed stands for itself wherever it stands.
pub record IsDecoder (decode : Bytes → Bytes) : Type 0 where
  pub empty : decode [] ≡ []
  pub line : (l s : Bytes) → decode (l ++ (10 ∷ s)) ≡ decode l ++ (10 ∷ decode s)
  pub feedless : (s : Bytes) → IsFeedless s → IsFeedless (decode s)

-- The index before a number of bytes.
abbrev pub last_of : ℕ → Option ℕ
last_of zero = none
last_of (suc n) = some n

rfind-feedless : (p : Bytes) → IsFeedless p → rfind p ≡ none
unfolding rfind feeds
rfind-feedless [] h = refl
rfind-feedless (c ∷ p) h = elim (Bool-cases (c == 10)) [
  | inl e ↦ absurd (ground arith)
  | inr e ↦ rw (rfind-feedless p (ground arith)) (rw e)
]

abbrev behind : Option ℕ → ℕ
behind none = 0
behind (some i) = suc i

rfind-line : (l s : Bytes) → rfind (l ++ (10 ∷ s)) ≡ some (length l + behind (rfind s))
unfolding rfind
rfind-line [] s = elim (Option-cases (rfind s)) [
  | inl e ↦ rw e (ap some (omega arith))
  | inr (i, e) ↦ rw e (ap some (omega arith))
]
rfind-line (c ∷ l) s = rw (rfind-line l s) (ap some (omega arith))

behind-last_of : (n : ℕ) → behind (last_of n) ≡ n
behind-last_of zero = refl
behind-last_of (suc n) = refl

rfind-unlines :
    (ls : List Bytes) (p : Bytes)
    → AreLines (ls, p)
    → rfind (unlines (ls, p)) ≡ last_of (length (unlines (ls, [])))
rfind-unlines [] p h = rfind-feedless p h
rfind-unlines (l ∷ ls) p h =
    let u = unlines (ls, []) in
    let long : length (l ++ (10 ∷ u)) ≡ suc (length l + length u) =
      omega (arith, length-append l (10 ∷ u)) in
    rfind-line l (unlines (ls, p))
    ∙ ap (λ o. some (length l + behind o)) (rfind-unlines ls p h.1)
    ∙ ap (λ n. some (length l + n)) (behind-last_of (length u))
    ∙ ap last_of (sym long)

pub rfind_complete : (s : Bytes) → rfind s ≡ last_of (complete_size s)
unfolding complete_size
rfind_complete s =
    ap rfind (sym (unlines-lines_parts s))
    ∙ rfind-unlines (complete_lines s) (partial_line s) (lines_parts-AreLines s)

pub complete-partial : (s : Bytes) → unlines (complete_lines s, []) ++ partial_line s ≡ s
complete-partial s = unlines-append (complete_lines s) (partial_line s) ∙ unlines-lines_parts s

pub drop-all : (c : ℕ) (s : Bytes) → length s ≤ c → drop c s ≡ []
drop-all zero [] h = refl
drop-all (suc c) [] h = refl
drop-all zero (x ∷ s) h = absurd (omega arith)
drop-all (suc c) (x ∷ s) h = drop-all c s (omega arith)

pub length-decoded : (decode : Bytes → Bytes) (ls : List Bytes) → length (map decode ls) ≡ length ls
length-decoded decode [] = refl
length-decoded decode (l ∷ ls) = omega (arith, length-decoded decode ls)

module _ (decode : Bytes → Bytes) (d : IsDecoder decode) where
  pub decode-unlines :
      (ls : List Bytes) (p : Bytes) → decode (unlines (ls, p)) ≡ unlines (map decode ls, decode p)
  decode-unlines [] p = refl
  decode-unlines (l ∷ ls) p =
      d.line l (unlines (ls, p)) ∙ ap (λ t. decode l ++ (10 ∷ t)) (decode-unlines ls p)

  pub decode-AreLines :
      (ls : List Bytes) (p : Bytes) → AreLines (ls, p) → AreLines (map decode ls, decode p)
  decode-AreLines [] p h = d.feedless p h
  decode-AreLines (l ∷ ls) p h = (d.feedless l h.0, decode-AreLines ls p h.1)

  pub decode-lines_parts :
      (s : Bytes)
      → lines_parts (decode s) ≡ (map decode (complete_lines s), decode (partial_line s))
  decode-lines_parts s =
      let ls = complete_lines s in
      let p = partial_line s in
      ap (λ t. lines_parts (decode t)) (sym (unlines-lines_parts s))
      ∙ ap lines_parts (decode-unlines ls p)
      ∙ lines_parts-unlines (map decode ls, decode p)
          (decode-AreLines ls p (lines_parts-AreLines s))
