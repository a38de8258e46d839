-- ===== src/Config/Again.antt =====
-- A line that `parse_env_file` of genpi/config.py writes, read at the next start.
use generatorpi.Base.{
  Bool-cases, if_true, if_false, drop, ◌==◌, lookup, insert, Bytes, codes, starts_with, ℕ, ◌≡◌,
  refl, sym, ap, ◌∙◌, subst, ◌⊎◌, inl, inr, true, false, not, Option, none, some, [], ◌∷◌, ◌++◌,
  bytes_key, nat_key,
}
use generatorpi.Config.{
  Setting, Parse, parse_line, user_line, api_key_line, setting_line, is_hashed, assignment,
  is_blank, key_line,
}
use generatorpi.Config.Texts.{HasNoWhite}
use generatorpi.Logs.Splits.{IsPlain}
use generatorpi.Web.Origin.{starts_with-rest}

-- A password hash: it has one of the prefixes of a hash, and no white space and no end of a line.
abbrev pub IsHash : Bytes → Type 0
IsHash h = (is_hashed h ≡ true) × (HasNoWhite h × IsPlain h)

abbrev pub quiet : {F : Type 0} → Parse F → Parse F
quiet p = record p { needs_rewrite = false }

-- The three ways of a line with a key.
module _ {F : Type 0} (hash : Bytes → Bytes) (float_of : Bytes → Option F) (line key value : Bytes)
    (p : Parse F) where
  pub key_line-user :
      starts_with (codes "USER_") key ≡ true
      → key_line hash float_of line key value p ≡ user_line hash float_of line (drop 5 key) value p
  unfolding key_line
  key_line-user h = if_true (starts_with (codes "USER_") key) _ _ h

  key_line-api :
      starts_with (codes "USER_") key ≡ false
      → (key == codes "API_KEY") ≡ true
      → key_line hash float_of line key value p ≡ api_key_line hash float_of line value p
  unfolding key_line
  key_line-api h k =
      if_false (starts_with (codes "USER_") key) _ _ h ∙ if_true (key == codes "API_KEY") _ _ k

  key_line-setting :
      starts_with (codes "USER_") key ≡ false
      → (key == codes "API_KEY") ≡ false
      → key_line hash float_of line key value p
        ≡ setting_line hash float_of line key value (lookup key p.config) p
  unfolding key_line
  key_line-setting h k =
      if_false (starts_with (codes "USER_") key) _ _ h ∙ if_false (key == codes "API_KEY") _ _ k

module _ {F : Type 0} (hash hash' : Bytes → Bytes) (float_of : Bytes → Option F) where
  -- The line that was kept for a line, if one was, is read as the line was.
  abbrev pub ReadsAgain : Parse F → Parse F → Type 0
  ReadsAgain p p' =
      ((p'.config ≡ p.config) × (p'.users ≡ p.users) × (p'.new_lines ≡ p.new_lines))
      ⊎ ((l : Bytes) × (p'.new_lines ≡ l ∷ p.new_lines)
          × (parse_line hash' float_of l (quiet p) ≡ quiet p')
          × IsPlain l)

  -- A line that asks for nothing to be written is read as before by any hashing.
  abbrev pub Same : (line : Bytes) → Parse F → Parse F → Parse F → Type 0
  Same line p p' q' = (p'.new_lines ≡ line ∷ p.new_lines) × (q' ≡ quiet p')

  abbrev pub Dropped : Parse F → Parse F → Type 0
  Dropped p p' = (p'.config ≡ p.config) × (p'.users ≡ p.users) × (p'.new_lines ≡ p.new_lines)

  setting_line-again :
      (line key value : Bytes) (o : Option (Setting F)) (p : Parse F)
      → Same line p
          (setting_line hash float_of line key value o p)
          (setting_line hash' float_of line key value o (quiet p))
  unfolding setting_line
  setting_line-again line key value none p = (refl, refl)
  setting_line-again line key value (some d) p = (refl, refl)

  api_key_line-again :
      (line value : Bytes) (p : Parse F)
      → Dropped p (api_key_line hash float_of line value p)
        ⊎ Same line p
            (api_key_line hash float_of line value p)
            (api_key_line hash' float_of line value (quiet p))
  unfolding api_key_line
  api_key_line-again line value p =
      elim (Bool-cases (not (is_blank (lookup (codes "API_KEY") p.config)))) [
        | inl e ↦ inl (rw e (refl, refl, refl))
        | inr e ↦ inr (rw e (refl, refl))
      ]

  -- A plain password is hashed, and a line with the hash is kept.
  abbrev pub hashed_line : (name value : Bytes) → Parse F → Parse F
  hashed_line name value p = record p {
    users = insert name (hash value) p.users;
    new_lines = assignment (codes "USER_" ++ name) (hash value) ∷ p.new_lines;
    needs_rewrite = true;
  }

  user_line-again :
      (line name value : Bytes) (p : Parse F)
      → ((c : ℕ) × (n : Bytes) × (name ≡ c ∷ n)
          × (user_line hash float_of line name value p ≡ hashed_line name value p))
        ⊎ Same line p
            (user_line hash float_of line name value p)
            (user_line hash' float_of line name value (quiet p))
  unfolding user_line
  user_line-again line [] value p = inr (refl, refl)
  user_line-again line (c ∷ name) value p = elim (Bool-cases (is_hashed value)) [
    | inl e ↦ inr (rw e (refl, refl))
    | inr e ↦ inl (c, name, refl, rw e refl)
  ]

  abbrev pub Hashed : (key value : Bytes) → Parse F → Parse F → Type 0
  Hashed key value p p' =
      (c : ℕ) × (n : Bytes) × (key ≡ codes "USER_" ++ (c ∷ n)) × (p' ≡ hashed_line (c ∷ n) value p)

  abbrev pub Outcome : (line key value : Bytes) → Parse F → Parse F → Parse F → Type 0
  Outcome line key value p p' q' = Dropped p p' ⊎ (Same line p p' q' ⊎ Hashed key value p p')

  user_key :
      (key : Bytes) → starts_with (codes "USER_") key ≡ true → key ≡ codes "USER_" ++ drop 5 key
  user_key key h =
      let (t, e) = starts_with-rest (codes "USER_") key h in
      e ∙ ap (λ x. codes "USER_" ++ drop 5 x) (sym e)

  moved :
      (line key value : Bytes) (p : Parse F) {a b x y : Parse F}
      → a ≡ x
      → b ≡ y
      → Outcome line key value p x y
      → Outcome line key value p a b
  moved line key value p {a} {b} {x} {y} e f o =
      subst (λ t. Outcome line key value p t b) (sym e)
        (subst (λ t. Outcome line key value p x t) (sym f) o)

  pub key_line-again :
      (line key value : Bytes) (p : Parse F)
      → Outcome line key value p
          (key_line hash float_of line key value p)
          (key_line hash' float_of line key value (quiet p))
  key_line-again line key value p = elim (Bool-cases (starts_with (codes "USER_") key)) [
    | inl user ↦
        moved line key value p (key_line-user hash float_of line key value p user)
          (key_line-user hash' float_of line key value (quiet p) user)
          (elim (user_line-again line (drop 5 key) value p) [
            | inl (c, n, name, e) ↦ inr (
                inr (
                  c,
                  n,
                  user_key key user ∙ ap (λ x. codes "USER_" ++ x) name,
                  e ∙ ap (λ x. hashed_line x value p) name,
                ))
            | inr same ↦ inr (inl same)
          ])
    | inr other ↦ elim (Bool-cases (key == codes "API_KEY")) [
      | inl api ↦
          moved line key value p (key_line-api hash float_of line key value p other api)
            (key_line-api hash' float_of line key value (quiet p) other api)
            (elim (api_key_line-again line value p) [ inl d ↦ inl d | inr same ↦ inr (inl same) ])
      | inr setting ↦
          moved line key value p (key_line-setting hash float_of line key value p other setting)
            (key_line-setting hash' float_of line key value (quiet p) other setting)
            (inr (inl (setting_line-again line key value (lookup key p.config) p)))
    ]
  ]
