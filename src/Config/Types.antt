-- ===== src/Config/Types.antt =====
-- The types of the settings through `parse_env_file` of genpi/config.py.
use generatorpi.Base.{
  if◌then◌else◌, Bool-cases, if_either, if_true, if_false, drop, ◌==◌, beq_eq, lookup, insert,
  lookup-insert, ℤ, pos, Bytes, codes, strip, lower, starts_with, member, ◌≡◌, refl, sym, ap, ◌∙◌,
  inl, inr, Bool, true, false, not, ◌||◌, Option, none, some, List, [], ◌∷◌, arith, bytes_key,
  nat_key,
}
use generatorpi.Config.{
  Setting, int, float, text, Config, cast, cast_int, Parse, is_hashed, on_words, off_words,
  is_blank, int_setting, float_setting, api_key_line, override, setting_line, cut_at, append_line,
  key_line, parse_line, parse_lines, user_line,
}
use generatorpi.Release.{signed}

pub data Kind : Type 0 where
  integer floating textual : Kind

abbrev pub kind : {F : Type 0} → Setting F → Kind
kind (int n) = integer
kind (float x) = floating
kind (text s) = textual

abbrev pub map_kind : {F : Type 0} → Option (Setting F) → Option Kind
map_kind none = none
map_kind (some s) = some (kind s)

-- The type of the setting under a key.
abbrev pub kind_at : {F : Type 0} → Bytes → Config F → Option Kind
kind_at k c = map_kind (lookup k c)

module _ {F : Type 0} where
  -- The same keys, with values of the same types.
  abbrev pub SameKinds : Config F → Config F → Type 0
  SameKinds c d = (k : Bytes) → kind_at k d ≡ kind_at k c

  pub insert-SameKinds :
      (key : Bytes) (s : Setting F) (c : Config F)
      → kind_at key c ≡ some (kind s)
      → SameKinds c (insert key s c)
  insert-SameKinds key s c h k = elim (Bool-cases (key == k)) [
    | inl same ↦
        ap map_kind (lookup-insert k key s c ∙ if_true (key == k) _ _ same)
        ∙ sym h
        ∙ ap (λ x. kind_at x c) (beq_eq key k same)
    | inr other ↦ ap map_kind (lookup-insert k key s c ∙ if_false (key == k) _ _ other)
  ]

  read_as_int :
      (a b : Bool) (o : Option ℤ) (s : Setting F)
      → (if a then some (int (pos 1)) else if b then some (int (pos 0)) else int_setting o) ≡ some s
      → kind s ≡ integer
  read_as_int true b o s h = ground arith
  read_as_int false true o s h = ground arith
  read_as_int false false none s h = absurd (cc)
  read_as_int false false (some n) s h = ground arith

  read_as_float : (o : Option F) (s : Setting F) → float_setting o ≡ some s → kind s ≡ floating
  read_as_float none s h = absurd (cc)
  read_as_float (some x) s h = ground arith

module _ {F : Type 0} (hash : Bytes → Bytes) (float_of : Bytes → Option F) where
  cast_int-kind :
      (value : Bytes) (s : Setting F) → cast_int hash float_of value ≡ some s → kind s ≡ integer
  unfolding cast_int
  cast_int-kind value s h =
      read_as_int (member (lower (strip value)) on_words) (member (lower (strip value)) off_words)
        (signed (strip value)) s h

  cast-kind :
      (default s : Setting F) (value : Bytes)
      → cast hash float_of default value ≡ some s
      → kind s ≡ kind default
  unfolding cast
  cast-kind (int n) s value h = cast_int-kind value s h
  cast-kind (float x) s value h = read_as_float (float_of value) s h
  cast-kind (text t) s value h = ground arith

  override-SameKinds :
      (key value : Bytes) (default : Setting F) (c : Config F) (o : Option (Setting F))
      → lookup key c ≡ some default
      → cast hash float_of default value ≡ o
      → SameKinds c (override hash float_of key o c)
  unfolding override
  override-SameKinds key value default c none found e = λ k. refl
  override-SameKinds key value default c (some s) found e =
      insert-SameKinds key s c (ap map_kind found ∙ ap some (sym (cast-kind default s value e)))

  setting_line-SameKinds :
      (line key value : Bytes) (p : Parse F) (o : Option (Setting F))
      → lookup key p.config ≡ o
      → SameKinds p.config (setting_line hash float_of line key value o p).config
  unfolding setting_line
  setting_line-SameKinds line key value p none e = λ k. refl
  setting_line-SameKinds line key value p (some default) e =
      override-SameKinds key value default p.config (cast hash float_of default value) e refl

  api_key_line-SameKinds :
      (line value : Bytes) (p : Parse F)
      → kind_at (codes "API_KEY") p.config ≡ some textual
      → SameKinds p.config (api_key_line hash float_of line value p).config
  unfolding api_key_line
  api_key_line-SameKinds line value p h =
      if_either (λ (q : Parse F). SameKinds p.config q.config)
        (not (is_blank (lookup (codes "API_KEY") p.config))) (λ k. refl)
        (insert-SameKinds (codes "API_KEY") (text value) p.config h)

  user_line-config :
      (line name value : Bytes) (p : Parse F)
      → (user_line hash float_of line name value p).config ≡ p.config
  unfolding user_line
  user_line-config line [] value p = refl
  user_line-config line (c ∷ name) value p =
      if_either (λ (q : Parse F). q.config ≡ p.config) (is_hashed value) refl refl

  key_line-SameKinds :
      (line key value : Bytes) (p : Parse F)
      → kind_at (codes "API_KEY") p.config ≡ some textual
      → SameKinds p.config (key_line hash float_of line key value p).config
  unfolding key_line
  key_line-SameKinds line key value p h =
      let same = λ (q : Parse F). SameKinds p.config q.config in
      if_either same (starts_with (codes "USER_") key)
        (λ k. ap (kind_at k) (user_line-config line (drop 5 key) value p))
        (if_either same (key == codes "API_KEY") (api_key_line-SameKinds line value p h)
          (setting_line-SameKinds line key value p (lookup key p.config) refl))

  parse_line-SameKinds :
      (line : Bytes) (p : Parse F)
      → kind_at (codes "API_KEY") p.config ≡ some textual
      → SameKinds p.config (parse_line hash float_of line p).config
  unfolding parse_line
  parse_line-SameKinds line p h =
      let same = λ (q : Parse F). SameKinds p.config q.config in
      let read = λ (o : Option (Bytes × Bytes)). elim o as (λ _. Parse F) [
        | none ↦ append_line line p
        | some (key, value) ↦ key_line hash float_of line (strip key) (strip value) p
      ] in
      let all : (o : Option (Bytes × Bytes)) → same (read o) = λ o. elim o as (λ o. same (read o)) [
        | none ↦ λ k. refl
        | some (key, value) ↦ key_line-SameKinds line (strip key) (strip value) p h
      ] in
      if_either same ((strip line == []) || starts_with (codes "#") (strip line)) (λ k. refl)
        (all (cut_at b'=' (strip line)))

  pub parse_lines-SameKinds :
      (lines : List Bytes) (p : Parse F)
      → kind_at (codes "API_KEY") p.config ≡ some textual
      → SameKinds p.config (parse_lines hash float_of lines p).config
  unfolding parse_lines
  parse_lines-SameKinds [] p h = λ k. refl
  parse_lines-SameKinds (line ∷ lines) p h =
      let step = parse_line-SameKinds line p h in
      let rest =
        parse_lines-SameKinds lines (parse_line hash float_of line p)
          (step (codes "API_KEY") ∙ h) in
      λ k. rest k ∙ step k
