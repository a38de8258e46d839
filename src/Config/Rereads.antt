-- ===== src/Config/Rereads.antt =====
-- Each line of the settings file through two starts of genpi/config.py.
use generatorpi.Base.{
  if_true, if_false, All, append_assoc, ◌==◌, insert, Bytes, codes, is_space, lstrip, strip,
  starts_with, ℕ, ◌≡◌, refl, sym, ap, ◌∙◌, Bool, true, false, ◌||◌, Option, none, some, [], ◌∷◌,
  ◌++◌, bytes_key, nat_key,
}
use mathlib.Core.List.{reverse, reverse-cons, reverse-append}
use generatorpi.Config.{
  Parse, parse_line, key_line, user_line, cut_at, is_hashed, assignment, append_line,
}
use generatorpi.Config.Texts.{HasNoWhite, All-reverse, cut_at-joined, strip-fixed, strip-white}
use generatorpi.Config.Again.{IsHash, key_line-user}

module _ {F : Type 0} (hash : Bytes → Bytes) (float_of : Bytes → Option F) (line : Bytes)
    (p : Parse F) where
  abbrev pub is_bare : Bool
  is_bare = (strip line == []) || starts_with (codes "#") (strip line)

  abbrev pub by_key : Option (Bytes × Bytes) → Parse F
  by_key o = elim o as (λ _. Parse F) [
    | none ↦ append_line line p
    | some (key, value) ↦ key_line hash float_of line (strip key) (strip value) p
  ]

  pub parse_line-bare : is_bare ≡ true → parse_line hash float_of line p ≡ append_line line p
  unfolding parse_line
  parse_line-bare h = if_true is_bare _ _ h

  pub parse_line-cut :
      (o : Option (Bytes × Bytes))
      → is_bare ≡ false
      → cut_at b'=' (strip line) ≡ o
      → parse_line hash float_of line p ≡ by_key o
  unfolding parse_line
  parse_line-cut o h e = if_false is_bare _ _ h ∙ ap by_key e

reverse_end :
    (r : Bytes) (c : ℕ) (x : Bytes)
    → HasNoWhite r
    → is_space c ≡ false
    → lstrip (r ++ (c ∷ x)) ≡ r ++ (c ∷ x)
reverse_end [] c x h k = if_false (is_space c) _ _ k
reverse_end (d ∷ r) c x h k = if_false (is_space d) _ _ h.0

-- Text that ends in a word stays as it is, from behind.
ends_in_word :
    (a : Bytes) (c : ℕ) (t : Bytes)
    → HasNoWhite (c ∷ t)
    → lstrip (reverse (a ++ (c ∷ t))) ≡ reverse (a ++ (c ∷ t))
ends_in_word a c t h =
    let whole : reverse (a ++ (c ∷ t)) ≡ reverse t ++ (c ∷ reverse a) =
      reverse-append a (c ∷ t)
      ∙ ap (λ x. x ++ reverse a) (reverse-cons c t)
      ∙ append_assoc (reverse t) (c ∷ []) (reverse a) in
    ap lstrip whole
    ∙ reverse_end (reverse t) c (reverse a) (All-reverse (λ d. is_space d ≡ false) t h.1) h.0
    ∙ sym whole

-- What a key of a user has to be.
abbrev pub IsUserKey : (c : ℕ) → Bytes → Type 0
IsUserKey c n =
    (strip (codes "USER_" ++ (c ∷ n)) ≡ codes "USER_" ++ (c ∷ n))
    × All (λ d. (d == b'=') ≡ false) (codes "USER_" ++ (c ∷ n))

assignment-strip :
    (n h : Bytes)
    → IsHash h
    → strip (assignment (codes "USER_" ++ n) h) ≡ assignment (codes "USER_" ++ n) h
assignment-strip n [] h = absurd (let e : is_hashed [] ≡ true = h.0 in cc)
assignment-strip n (d ∷ t) h =
    let key = codes "USER_" ++ n in
    let whole = append_assoc key (codes "=") (d ∷ t) in
    strip-fixed (assignment key (d ∷ t)) refl (
      ap (λ x. lstrip (reverse x)) (sym whole)
      ∙ ends_in_word (key ++ codes "=") d t h.1.0
      ∙ ap reverse whole)

module _ {F : Type 0} (hash : Bytes → Bytes) (float_of : Bytes → Option F) where
  user_line-hashed :
      (line : Bytes) (c : ℕ) (n h : Bytes) (p : Parse F)
      → is_hashed h ≡ true
      → user_line hash float_of line (c ∷ n) h p
        ≡ record p { users = insert (c ∷ n) h p.users; new_lines = line ∷ p.new_lines }
  unfolding user_line
  user_line-hashed line c n h p e = if_true (is_hashed h) _ _ e

  -- A line with a hash is read as the user and the hash.
  pub hashed_line-reads :
      (c : ℕ) (n h : Bytes) (p : Parse F)
      → IsUserKey c n
      → IsHash h
      → (let line = assignment (codes "USER_" ++ (c ∷ n)) h in
          parse_line hash float_of line p
          ≡ record p { users = insert (c ∷ n) h p.users; new_lines = line ∷ p.new_lines })
  hashed_line-reads c n h p k i =
      let key = codes "USER_" ++ (c ∷ n) in
      let line = assignment key h in
      let whole = assignment-strip (c ∷ n) h i in
      let cut = ap (cut_at b'=') whole ∙ cut_at-joined b'=' key h k.1 in
      parse_line-cut hash float_of line p (some (key, h))
        (ap (λ s. (s == []) || starts_with (codes "#") s) whole) cut
      ∙ ap (λ x. key_line hash float_of line x (strip h) p) k.0
      ∙ ap (λ x. key_line hash float_of line key x p) (strip-white h i.1.0)
      ∙ key_line-user hash float_of line key h p refl
      ∙ user_line-hashed line c n h p i.0
