-- ===== src/Config.antt =====
-- The settings of genpi/config.py: the defaults, the parsing of the settings file with the keys and hashes
-- that it provisions, and the check of the file's ownership and permissions. `hash` is
-- `generate_password_hash`, `token` a fresh `secrets.token_urlsafe(32)`, and `float` Python's reading of a number,
-- `none` where it raises. What is printed is left out.
pub mod Types
pub mod Again
pub mod Rereads
pub mod Restart
pub mod Rewritten
pub mod Restarts
pub mod Texts
pub mod Security
pub mod Kept
pub mod Defaults
pub mod Provision
mod Tests
use generatorpi.Base.{
  if◌then◌else◌, drop, ◌==◌, Dict, lookup, insert, ℤ, pos, Bytes, codes, strip, lower, starts_with,
  member, ℕ, Bool, true, false, not, ◌||◌, Option, none, some, List, [], ◌∷◌, ◌++◌, bytes_key,
  nat_key,
}
use generatorpi.Release.{signed}

-- A value of CONFIG, of one of the three types of its defaults.
pub data Setting (F : Type 0) : Type 0 where
  int : ℤ → Setting F
  float : F → Setting F
  text : Bytes → Setting F

abbrev pub Config : Type 0 → Type 0
Config F = Dict Bytes (Setting F)

-- What goes through the loop over the lines: the settings, the users, the lines to write, the last one
-- first, and whether they have to be written.
pub record Parse (F : Type 0) : Type 0 where
  pub config : Config F
  pub users : Dict Bytes Bytes
  pub new_lines : List Bytes
  pub needs_rewrite : Bool

abbrev pub onto_cut : ℕ → Option (Bytes × Bytes) → Option (Bytes × Bytes)
onto_cut c none = none
onto_cut c (some (a, b)) = some (c ∷ a, b)

-- `s[:i]` and `s[i + 1:]` at the first of these characters.
unfoldable pub cut_at : ℕ → Bytes → Option (Bytes × Bytes)
cut_at sep [] = none
cut_at sep (c ∷ s) = let rest = cut_at sep s in if c == sep then some ([], s) else onto_cut c rest

-- `line.split("=", 1)[0].strip()`
unfoldable pub key_of : Bytes → Bytes
unfolding cut_at
key_of line = elim (cut_at b'=' line) [ none ↦ strip line | some (a, b) ↦ strip a ]

abbrev pub hash_prefixes : List Bytes
hash_prefixes = codes "scrypt:" ∷ codes "pbkdf2:" ∷ []

abbrev pub is_hashed : Bytes → Bool
is_hashed value = starts_with (codes "scrypt:") value || starts_with (codes "pbkdf2:") value

abbrev pub assignment : (key value : Bytes) → Bytes
assignment key value = key ++ (codes "=" ++ value)

abbrev pub on_words : List Bytes
on_words = codes "true" ∷ codes "yes" ∷ codes "on" ∷ []

abbrev pub off_words : List Bytes
off_words = codes "false" ∷ codes "no" ∷ codes "off" ∷ []

abbrev pub append_line : {F : Type 0} → Bytes → Parse F → Parse F
append_line line p = record p { new_lines = line ∷ p.new_lines }

module _ {F : Type 0} where
  -- `not CONFIG[key]` of a text; the other types do not come here.
  abbrev pub is_blank : Option (Setting F) → Bool
  is_blank none = true
  is_blank (some (int n)) = false
  is_blank (some (float x)) = false
  is_blank (some (text s)) = s == []

  abbrev pub int_setting : Option ℤ → Option (Setting F)
  int_setting none = none
  int_setting (some n) = some (int n)

  abbrev pub float_setting : Option F → Option (Setting F)
  float_setting none = none
  float_setting (some x) = some (float x)

module _ {F : Type 0} (hash : Bytes → Bytes) (float_of : Bytes → Option F) where
  unfoldable pub user_line : (line username value : Bytes) → Parse F → Parse F
  user_line line [] value p = append_line line p
  user_line line (c ∷ name) value p =
      let username = c ∷ name in
      let hashed = hash value in
      if is_hashed value
      then record p { users = insert username value p.users; new_lines = line ∷ p.new_lines }
      else record p {
        users = insert username hashed p.users;
        new_lines = assignment (codes "USER_" ++ username) hashed ∷ p.new_lines;
        needs_rewrite = true;
      }

  unfoldable pub api_key_line : (line value : Bytes) → Parse F → Parse F
  api_key_line line value p =
      if not (is_blank (lookup (codes "API_KEY") p.config))
      then record p { needs_rewrite = true }
      else record p {
        config = insert (codes "API_KEY") (text value) p.config;
        new_lines = line ∷ p.new_lines;
      }

  unfoldable pub cast_int : Bytes → Option (Setting F)
  unfolding signed
  cast_int value =
      let low = lower (strip value) in
      if member low on_words
      then some (int (pos 1))
      else if member low off_words
      then some (int (pos 0))
      else int_setting (signed (strip value))

  -- The value, cast to the type of the present one; `none` if the cast raises.
  unfoldable pub cast : Setting F → Bytes → Option (Setting F)
  unfolding cast_int
  cast (int n) value = cast_int value
  cast (float x) value = float_setting (float_of value)
  cast (text s) value = some (text value)

  unfoldable pub override : (key : Bytes) → Option (Setting F) → Config F → Config F
  override key none config = config
  override key (some s) config = insert key s config

  unfoldable pub setting_line : (line key value : Bytes) → Option (Setting F) → Parse F → Parse F
  unfolding cast override
  setting_line line key value none p = append_line line p
  setting_line line key value (some default) p = record p {
    config = override key (cast default value) p.config;
    new_lines = line ∷ p.new_lines;
  }

  unfoldable pub key_line : (line key value : Bytes) → Parse F → Parse F
  unfolding user_line api_key_line setting_line
  key_line line key value p =
      if starts_with (codes "USER_") key
      then user_line line (drop 5 key) value p
      else if key == codes "API_KEY"
      then api_key_line line value p
      else setting_line line key value (lookup key p.config) p

  unfoldable pub parse_line : Bytes → Parse F → Parse F
  unfolding cut_at key_line
  parse_line line p =
      let stripped = strip line in
      if (stripped == []) || starts_with (codes "#") stripped
      then append_line line p
      else elim (cut_at b'=' stripped) [
        | none ↦ append_line line p
        | some (key, value) ↦ key_line line (strip key) (strip value) p
      ]

  unfoldable pub parse_lines : List Bytes → Parse F → Parse F
  unfolding parse_line
  parse_lines [] p = p
  parse_lines (line ∷ lines) p = parse_lines lines (parse_line line p)
