-- ===== src/Config/Rewritten.antt =====
-- The settings file that `parse_env_file` of genpi/config.py writes, read at the next start.
use mathlib.Core.List.{reverse, reverse-cons}
use generatorpi.Config.Restart.{parse_line-ReadsAgain}
use generatorpi.Base.{
  if◌then◌else◌, Bool-cases, if_either, if_true, if_false, All, ◌==◌, Bytes, onto_first, ℕ, ◌≡◌,
  refl, sym, ap, ◌∙◌, subst, inl, inr, Bool, false, ◌&&◌, Option, List, [], ◌∷◌, ◌++◌, bytes_key,
  nat_key,
}
use generatorpi.Config.Provision.{file_text}
use generatorpi.Logs.Splits.{splitlines-unlines}
use generatorpi.Logs.Texts.{unlines}
use generatorpi.Config.{parse_lines, Parse, parse_line}
use generatorpi.Config.Again.{IsHash, quiet}
use generatorpi.Logs.Splits.{IsPlain}
use generatorpi.Logs.{splitlines, is_break, splitlines_from}

module _ {F : Type 0} (hash : Bytes → Bytes) (float_of : Bytes → Option F) where
  parse_lines-append :
      (ls : List Bytes) (l : Bytes) (p : Parse F)
      → parse_lines hash float_of (ls ++ (l ∷ [])) p
        ≡ parse_line hash float_of l (parse_lines hash float_of ls p)
  unfolding parse_lines
  parse_lines-append [] l p = refl
  parse_lines-append (m ∷ ls) l p = parse_lines-append ls l (parse_line hash float_of m p)

module _ {F : Type 0} (hash hash' : Bytes → Bytes) (float_of : Bytes → Option F) (q : Parse F)
    (good : (v : Bytes) → IsHash (hash v)) where
  -- The lines that were kept so far give the settings that were read so far.
  abbrev pub IsReread : Parse F → Type 0
  IsReread p =
      (parse_lines hash' float_of (reverse p.new_lines) q ≡ quiet p) × All IsPlain p.new_lines

  quiet-same :
      (p p' : Parse F)
      → p'.config ≡ p.config
      → p'.users ≡ p.users
      → p'.new_lines ≡ p.new_lines
      → quiet p ≡ quiet p'
  quiet-same p p' config users lines =
      let back : quiet p' ≡ quiet p = λ i. record {
        config = config i;
        users = users i;
        new_lines = lines i;
        needs_rewrite = false;
      } in
      sym back

  parse_line-IsReread :
      (line : Bytes) (p : Parse F)
      → IsPlain line
      → IsReread p
      → IsReread (parse_line hash float_of line p)
  parse_line-IsReread line p plain h =
      let p' = parse_line hash float_of line p in
      elim (parse_line-ReadsAgain hash hash' float_of good line p plain) [
        | inl (config, users, lines) ↦ (
          ap (λ ls. parse_lines hash' float_of (reverse ls) q) lines
              ∙ h.0
              ∙ quiet-same p p' config users lines,
          subst (All IsPlain) (sym lines) h.1,
        )
        | inr (l, lines, read, plain_l) ↦ (
          ap (λ ls. parse_lines hash' float_of ls q) (ap reverse lines ∙ reverse-cons l p.new_lines)
              ∙ parse_lines-append hash' float_of (reverse p.new_lines) l q
              ∙ ap (parse_line hash' float_of l) h.0
              ∙ read,
          subst (All IsPlain) (sym lines) (plain_l, h.1),
        )
      ]

  pub parse_lines-IsReread :
      (ls : List Bytes) (p : Parse F)
      → All IsPlain ls
      → IsReread p
      → IsReread (parse_lines hash float_of ls p)
  unfolding parse_lines
  parse_lines-IsReread [] p plain h = h
  parse_lines-IsReread (l ∷ ls) p plain h =
      parse_lines-IsReread ls (parse_line hash float_of l p) plain.1
        (parse_line-IsReread l p plain.0 h)

onto_first-IsPlain :
    (c : ℕ) (r : List Bytes) → is_break c ≡ false → All IsPlain r → All IsPlain (onto_first c r)
onto_first-IsPlain c [] e h = ((e, tt), tt)
onto_first-IsPlain c (l ∷ r) e h = ((e, h.0), h.1)

pub splitlines_from-IsPlain : (b : Bool) (s : Bytes) → All IsPlain (splitlines_from b s)
unfolding splitlines_from
splitlines_from-IsPlain b [] = tt
splitlines_from-IsPlain b (c ∷ s) =
    let rest = splitlines_from false s in
    let next = splitlines_from (c == 13) s in
    let plain : All IsPlain rest = splitlines_from-IsPlain false s in
    let line : All IsPlain (if is_break c then [] ∷ next else onto_first c rest) =
      elim (Bool-cases (is_break c)) [
        | inl e ↦
            subst (All IsPlain) (sym (if_true (is_break c) _ _ e))
              (tt, splitlines_from-IsPlain (c == 13) s)
        | inr e ↦
            subst (All IsPlain) (sym (if_false (is_break c) _ _ e))
              (onto_first-IsPlain c rest e plain)
      ] in
    if_either (All IsPlain) (b && c == 10) plain line

file_text-unlines : (l : Bytes) (ls : List Bytes) → file_text (l ∷ ls) ≡ unlines (l ∷ ls, [])
unfolding file_text
file_text-unlines l [] = refl
file_text-unlines l (m ∷ ls) = ap (λ t. l ++ (10 ∷ t)) (file_text-unlines m ls)

module _ {F : Type 0} where
  -- What goes on is the same; the lines to write may differ.
  abbrev pub AgreesWith : Parse F → Parse F → Type 0
  AgreesWith p r = (p.config ≡ r.config) × (p.users ≡ r.users) × (p.needs_rewrite ≡ r.needs_rewrite)

  AgreesWith-same : {p r : Parse F} → p ≡ r → AgreesWith p r
  AgreesWith-same e = (ap (λ t. t.config) e, ap (λ t. t.users) e, ap (λ t. t.needs_rewrite) e)

module _ {F : Type 0} (hash : Bytes → Bytes) (float_of : Bytes → Option F) where
  blank_text-read :
      (p : Parse F) → AgreesWith (parse_lines hash float_of (splitlines (file_text [])) p) p
  unfolding parse_lines parse_line file_text splitlines splitlines_from
  blank_text-read p = (refl, refl, refl)

  -- The text of the lines is read as the lines; no line at all gives an empty one, which means nothing.
  pub file_text-read :
      (ls : List Bytes) (p : Parse F)
      → All IsPlain ls
      → AgreesWith
          (parse_lines hash float_of (splitlines (file_text ls)) p)
          (parse_lines hash float_of ls p)
  unfolding parse_lines
  file_text-read [] p h = blank_text-read p
  file_text-read (l ∷ ls) p h = AgreesWith-same (
      ap (λ t. parse_lines hash float_of (splitlines t) p) (file_text-unlines l ls)
      ∙ ap (λ m. parse_lines hash float_of m p) (splitlines-unlines (l ∷ ls) h))
