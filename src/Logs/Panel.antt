-- ===== src/Logs/Panel.antt =====
-- The log panel of genpi/frontend/app.js, `loadAppLog`: what it makes of a reply of /api/logs. Routine
-- requests are not hidden, and the rows are read from the oldest to the newest.
use generatorpi.Base.{
  ltb, if◌then◌else◌, Bool-cases, if_true, if_false, length, drop, drop_nil, append_nil, ◌==◌, ℤ,
  pos, Bytes, ℕ, ◌-◌, ◌≤◌, ◌<◌, ◌≡◌, refl, sym, ap, ◌∙◌, inl, inr, Option, some, List, [], ◌∷◌,
  ◌++◌, arith, nat_key,
}
use generatorpi.Sysmon.History.{last_points}
use generatorpi.Sysmon.Newest.{last_points-join}
use generatorpi.Logs.{LogReply, last_lines}
use generatorpi.Logs.Delta.{capped}

-- The rows that the panel keeps, which is also the number of lines that it asks for.
abbrev pub row_cap : ℕ
row_cap = 1000

abbrev pub asked : Option ℤ
asked = some (pos row_cap)

pub capped-points : (n : ℕ) (ls : List Bytes) → 0 < n → capped n ls ≡ last_points n ls
unfolding last_lines
capped-points n ls p = elim (Bool-cases (ltb n (length ls))) [
  | inl long ↦ if_true (ltb n (length ls)) _ _ long ∙ if_false (n == 0) _ _ (ground arith)
  | inr short ↦
      if_false (ltb n (length ls)) _ _ short
      ∙ ap (λ k. drop k ls) (let e : 0 ≡ length ls - n = ground arith in e)
]

-- What the panel shows, from the oldest row to the newest, and the offset of the last reply.
pub record View : Type 0 where
  pub rows : List Bytes
  pub offset : ℕ

-- New lines go to the newest end, and rows are removed at the other while there are too many.
unfoldable pub add_lines : List Bytes → List Bytes → List Bytes
add_lines rows [] = rows
add_lines rows (l ∷ ls) = let all = rows ++ (l ∷ ls) in drop (length all - row_cap) all

unfoldable pub receive : LogReply → View → View
unfolding add_lines
receive r v = record {
  rows = if r.reset then r.lines else add_lines v.rows r.lines;
  offset = r.offset;
}

pub add_lines-points :
    (rows ls : List Bytes)
    → length rows ≤ row_cap
    → add_lines rows ls ≡ last_points row_cap (rows ++ ls)
unfolding add_lines
add_lines-points rows [] h =
    ap (λ k. drop k rows) (let e : 0 ≡ length rows - row_cap = omega arith in e)
    ∙ ap (last_points row_cap) (sym (append_nil rows))
add_lines-points rows (l ∷ ls) h = refl

-- Only the newest lines of what is added count.
pub newest-of_newest :
    (m : ℕ) (xs ys : List Bytes) → last_points m (last_points m xs ++ ys) ≡ last_points m (xs ++ ys)
newest-of_newest m xs ys =
    let again : last_points m (last_points m xs) ≡ last_points m xs =
      ap (last_points m) (
        sym (append_nil (last_points m xs))
        ∙ ap (λ t. last_points m xs ++ t) (sym (drop_nil (length {A = Bytes} [] - m))))
      ∙ last_points-join m xs []
      ∙ ap (last_points m) (append_nil xs) in
    sym (last_points-join m (last_points m xs) ys)
    ∙ ap (λ t. last_points m (t ++ last_points m ys)) again
    ∙ last_points-join m xs ys

pub newest_added :
    (m : ℕ) (xs ys : List Bytes) → last_points m (xs ++ last_points m ys) ≡ last_points m (xs ++ ys)
newest_added m xs ys = sym (newest-of_newest m xs (last_points m ys)) ∙ last_points-join m xs ys
