-- ===== src/Config/Restart.antt =====
-- Two starts of genpi/config.py, the second with the settings file that the first one wrote.
use generatorpi.Base.{
  Bool-cases, All, ◌==◌, Bytes, codes, lstrip, strip, ◌≡◌, refl, sym, ap, ◌∙◌, subst, inl, inr,
  false, Option, none, some, ◌∷◌, ◌++◌, bytes_key, nat_key,
}
use mathlib.Core.List.{reverse}
use generatorpi.Logs.{is_break}
use generatorpi.Config.{Parse, parse_line, key_line, cut_at, assignment}
use generatorpi.Config.Again.{key_line-again, IsHash, quiet, ReadsAgain, Outcome}
use generatorpi.Logs.Splits.{IsPlain}
use generatorpi.Config.Texts.{strip-fixed, All-append, All-strip, All-cut, cut_at-free, strip_ends}
use generatorpi.Config.Rereads.{parse_line-cut, is_bare, parse_line-bare, hashed_line-reads}

module _ {F : Type 0} (hash hash' : Bytes → Bytes) (float_of : Bytes → Option F)
    (good : (v : Bytes) → IsHash (hash v)) where
  Outcome-ReadsAgain :
      (line k v : Bytes) (p p' : Parse F)
      → IsPlain line
      → cut_at b'=' (strip line) ≡ some (k, v)
      → parse_line hash' float_of line (quiet p)
        ≡ key_line hash' float_of line (strip k) (strip v) (quiet p)
      → Outcome hash hash' float_of line
          (strip k)
          (strip v)
          p
          p'
          (key_line hash' float_of line (strip k) (strip v) (quiet p))
      → ReadsAgain hash hash' float_of p p'
  Outcome-ReadsAgain line k v p p' plain cut e (inl dropped) = inl dropped
  Outcome-ReadsAgain line k v p p' plain cut e (inr (inl (kept, same))) =
      inr (line, kept, e ∙ same, plain)
  Outcome-ReadsAgain line k v p p' plain cut e (inr (inr (c, n, key, hashed))) =
      let name = codes "USER_" ++ (c ∷ n) in
      let h = hash (strip v) in
      let l = assignment name h in
      let fixed : strip name ≡ name =
        strip-fixed name refl (subst (λ x. lstrip (reverse x) ≡ reverse x) key (strip_ends k)) in
      let free =
        subst (All (λ d. (d == b'=') ≡ false)) key
          (All-strip (λ d. (d == b'=') ≡ false) k (cut_at-free b'=' (strip line) k v cut)) in
      let plain_name = subst IsPlain key (
        All-strip (λ d. is_break d ≡ false) k
          (All-cut (λ d. is_break d ≡ false) b'=' (strip line) k v cut
            (All-strip (λ d. is_break d ≡ false) line plain)).0) in
      let plain_line =
        All-append (λ d. is_break d ≡ false) name (codes "=" ++ h) plain_name
          (refl, (good (strip v)).1.1) in
      inr (
        l,
        ap (λ q. q.new_lines) hashed,
        hashed_line-reads hash' float_of c n h (quiet p) (fixed, free) (good (strip v))
            ∙ ap quiet (sym hashed),
        plain_line,
      )

  cut_line-ReadsAgain :
      (line : Bytes) (p : Parse F) (o : Option (Bytes × Bytes))
      → IsPlain line
      → is_bare hash float_of line p ≡ false
      → cut_at b'=' (strip line) ≡ o
      → ReadsAgain hash hash' float_of p (parse_line hash float_of line p)
  cut_line-ReadsAgain line p none plain more e =
      subst (λ t. ReadsAgain hash hash' float_of p t)
        (sym (parse_line-cut hash float_of line p none more e))
        (inr (line, refl, parse_line-cut hash' float_of line (quiet p) none more e, plain))
  cut_line-ReadsAgain line p (some (k, v)) plain more e =
      let found = some (k, v) in
      subst (λ t. ReadsAgain hash hash' float_of p t)
        (sym (parse_line-cut hash float_of line p found more e))
        (Outcome-ReadsAgain line k v p _ plain e
          (parse_line-cut hash' float_of line (quiet p) found more e)
          (key_line-again hash hash' float_of line (strip k) (strip v) p))

  pub parse_line-ReadsAgain :
      (line : Bytes) (p : Parse F)
      → IsPlain line
      → ReadsAgain hash hash' float_of p (parse_line hash float_of line p)
  parse_line-ReadsAgain line p plain = elim (Bool-cases (is_bare hash float_of line p)) [
    | inl bare ↦
        subst (λ t. ReadsAgain hash hash' float_of p t)
          (sym (parse_line-bare hash float_of line p bare))
          (inr (line, refl, parse_line-bare hash' float_of line (quiet p) bare, plain))
    | inr more ↦ cut_line-ReadsAgain line p (cut_at b'=' (strip line)) plain more refl
  ]
