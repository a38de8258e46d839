-- ===== src/Config/Tests.antt =====
-- A settings file with a plain password, a number that cannot be read, and no API key.
use generatorpi.Base.{
  lookup, insert, ℤ, pos, Bytes, codes, ◌≡◌, refl, true, false, none, some, [], ◌∷◌, ◌++◌,
  bytes_key,
}
use generatorpi.Float.Fixed.{fixed}
use generatorpi.Config.Restarts.{later, rewritten_reads_same}
use generatorpi.Config.Again.{IsHash}
use generatorpi.Config.Texts.{HasNoWhite}
use generatorpi.Logs.Splits.{IsPlain}
use generatorpi.Config.Provision.{
  loaded, read_settings, Source, file_text, provision, finish, parse_env_file,
}
use generatorpi.Config.Defaults.{default_config}
use generatorpi.Config.{int}
use generatorpi.Config.Security.{SettingsFile, check_settings_file_security}
use generatorpi.Config.Types.{SameKinds}
use generatorpi.Config.Kept.{parse_env_file-SameKinds}

abbrev start : Source ℤ
start = record {
  defaults = default_config;
  hash = λ s. codes "scrypt:" ++ s;
  float_of = λ s. none;
  token = codes "t0k3n";
  push_available = true;
  vapid_keys = some (codes "pub", codes "priv");
  writable = true;
}

abbrev env_file : Bytes
env_file = codes "USER_ann=pw\nPORT=80a\nAPI_KEY_ENABLED = Yes\n"

-- The password is hashed, the keys are appended, and what cannot be read changes nothing.
env_file-users : (provision start env_file).users ≡ (codes "ann", codes "scrypt:pw") ∷ []
unfolding provision default_config lookup insert
env_file-users = refl

env_file-port : lookup (codes "PORT") (provision start env_file).config ≡ some (int (pos 9400))
unfolding provision default_config lookup insert
env_file-port = refl

-- A second line for the private key that is empty wins over the first, so that every start draws a new pair.
abbrev doubled : Bytes
doubled = codes "API_KEY=k\nVAPID_PUBLIC_KEY=a\nVAPID_PRIVATE_KEY=b\nVAPID_PRIVATE_KEY=\n"

doubled-rewritten :
    (provision start doubled).file_lines
    ≡ codes "API_KEY=k"
      ∷ codes "VAPID_PUBLIC_KEY=pub"
      ∷ codes "VAPID_PRIVATE_KEY=priv"
      ∷ codes "VAPID_PRIVATE_KEY="
      ∷ []
unfolding provision default_config lookup insert
doubled-rewritten = refl

doubled-again :
    (provision start (file_text (provision start doubled).file_lines)).needs_rewrite ≡ true
unfolding provision default_config lookup insert file_text
doubled-again = refl

parse_env_file-SameKinds_example : SameKinds default_config (provision start env_file).config
unfolding parse_env_file finish provision default_config lookup insert
parse_env_file-SameKinds_example =
    parse_env_file-SameKinds start (some env_file) (provision start env_file).config
      (provision start env_file).users (some (file_text (provision start env_file).file_lines)) refl
      refl

-- A file that others may read, and that the process owns.
abbrev loose : SettingsFile
loose = record { exists = true; is_symlink = false; owner = 1000; readable = true; mode = 420 }

loose-tightened :
    check_settings_file_security (some 1000) true loose ≡ some (record loose { mode = 384 })
unfolding check_settings_file_security
loose-tightened = refl

-- A hashing that keeps the length of the password.
veil : Bytes → Bytes
veil [] = []
veil (c ∷ s) = b'x' ∷ veil s

veil-white : (s : Bytes) → HasNoWhite (veil s)
unfolding veil
veil-white [] = tt
veil-white (c ∷ s) = (refl, veil-white s)

veil-IsPlain : (s : Bytes) → IsPlain (veil s)
unfolding veil
veil-IsPlain [] = tt
veil-IsPlain (c ∷ s) = (refl, veil-IsPlain s)

abbrev veiled : Source ℤ
veiled = record start { hash = λ s. codes "scrypt:" ++ veil s }

veiled-IsHash : (v : Bytes) → IsHash (veiled.hash v)
veiled-IsHash v = (
  refl,
  (
    (refl, (refl, (refl, (refl, (refl, (refl, (refl, veil-white v))))))),
    (refl, (refl, (refl, (refl, (refl, (refl, (refl, veil-IsPlain v))))))),
  ),
)

abbrev plain_file : Bytes
plain_file = codes "# users\n USER_ann = p w\nAPI_KEY=k\nAPI_KEY=l\nVAPID_PRIVATE_KEY=v\nPORT=8080"

rewritten_reads_same_example :
    parse_env_file
      (later (λ s. codes "pbkdf2:") (codes "new") none false veiled)
      (some (codes "# users\nUSER_ann=scrypt:xxx\nAPI_KEY=k\nVAPID_PRIVATE_KEY=v\nPORT=8080\n"))
    ≡ loaded (provision veiled plain_file).config ((codes "ann", codes "scrypt:xxx") ∷ []) none
unfolding parse_env_file finish provision read_settings default_config lookup insert file_text veil
rewritten_reads_same_example =
    rewritten_reads_same veiled plain_file (provision veiled plain_file).config
      ((codes "ann", codes "scrypt:xxx") ∷ [])
      (codes "# users\nUSER_ann=scrypt:xxx\nAPI_KEY=k\nVAPID_PRIVATE_KEY=v\nPORT=8080\n")
      (λ s. codes "pbkdf2:") (codes "new") none false veiled-IsHash (refl, refl) refl
