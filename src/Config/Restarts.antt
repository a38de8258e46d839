-- ===== src/Config/Restarts.antt =====
-- A start of genpi/config.py that rewrites the settings file, and a later start with that file.
use mathlib.Core.List.{reverse}
use generatorpi.Config.Texts.{All-reverse}
use mathlib.Core.List.{reverse}
use generatorpi.Base.{
  Bool-cases, if_true, if_false, Dict, lookup, Bytes, codes, ◌≡◌, refl, sym, ap, ◌∙◌, subst, inl,
  inr, Bool, false, not, ◌&&◌, Option, none, some, arith, bytes_key, nat_key,
}
use generatorpi.Config.Rewritten.{
  AgreesWith, parse_lines-IsReread, splitlines_from-IsPlain, file_text-read,
}
use generatorpi.Config.Provision.{
  Source, read_settings, provision, start_parse, parse_env_file, Provisioned, provision_vapid,
  in_order, provision_api_key, finish, loaded, file_text, is_on,
}
use generatorpi.Config.{Config, is_blank, parse_lines}
use generatorpi.Config.Again.{IsHash, quiet}
use generatorpi.Logs.{splitlines}
use generatorpi.Logs.Splits.{IsPlain}

module _ {F : Type 0} where
  -- Nothing has to be generated: the API key is given or not asked for, and the push keys likewise.
  abbrev pub HasKeys : Bool → Config F → Type 0
  HasKeys push_available c =
      ((is_on (lookup (codes "API_KEY_ENABLED") c) && is_blank (lookup (codes "API_KEY") c))
        ≡ false)
      × ((push_available && is_blank (lookup (codes "VAPID_PRIVATE_KEY") c)) ≡ false)

  provision_vapid-HasKeys :
      (available : Bool) (keys : Option (Bytes × Bytes)) (p : Provisioned F)
      → (available && is_blank (lookup (codes "VAPID_PRIVATE_KEY") p.config)) ≡ false
      → provision_vapid available keys p ≡ p
  unfolding provision_vapid
  provision_vapid-HasKeys available none p h = refl
  provision_vapid-HasKeys available (some (public, private)) p h =
      if_false (available && is_blank (lookup (codes "VAPID_PRIVATE_KEY") p.config)) _ _ h

  provision-HasKeys :
      (s : Source F) (file : Bytes)
      → HasKeys s.push_available (read_settings s file).config
      → provision s file ≡ in_order (read_settings s file)
  unfolding provision provision_api_key in_order
  provision-HasKeys s file h =
      let p = in_order (read_settings s file) in
      let c = p.config in
      let keyed : provision_api_key s.token p ≡ p =
        if_false
          (is_on (lookup (codes "API_KEY_ENABLED") c) && is_blank (lookup (codes "API_KEY") c)) _ _
          h.0 in
      ap (provision_vapid s.push_available s.vapid_keys) keyed
      ∙ provision_vapid-HasKeys s.push_available s.vapid_keys p h.1

  finish-unchanged :
      (writable : Bool) (p : Provisioned F)
      → p.needs_rewrite ≡ false
      → finish writable p ≡ loaded p.config p.users none
  unfolding finish
  finish-unchanged writable p h = if_true (not p.needs_rewrite) _ _ (ap not h)

  read-unchanged :
      (s : Source F) (file : Bytes)
      → HasKeys s.push_available (read_settings s file).config
      → (read_settings s file).needs_rewrite ≡ false
      → parse_env_file s (some file)
        ≡ loaded (read_settings s file).config (read_settings s file).users none
  unfolding parse_env_file in_order
  read-unchanged s file h k =
      ap (finish s.writable) (provision-HasKeys s file h)
      ∙ finish-unchanged s.writable (in_order (read_settings s file)) k

  finish-written :
      (writable : Bool) (p : Provisioned F) (c : Config F) (users : Dict Bytes Bytes) (file : Bytes)
      → finish writable p ≡ loaded c users (some file)
      → (c ≡ p.config) × (users ≡ p.users) × (file ≡ file_text p.file_lines)
  unfolding finish
  finish-written writable p c users file h = elim (Bool-cases p.needs_rewrite) [
    | inl rewritten ↦ elim (Bool-cases writable) [
      | inl can ↦ (ground arith, ground arith, ground arith)
      | inr not_writable ↦ absurd (ground arith)
    ]
    | inr kept ↦ absurd (ground arith)
  ]

  -- The same settings file and defaults at a later start: another hashing, other fresh keys, and a file that
  -- may be read only.
  abbrev pub later :
      (hash : Bytes → Bytes)
      → (token : Bytes) → (keys : Option (Bytes × Bytes)) → (writable : Bool) → Source F
      → Source F
  later hash token keys writable s = record s {
    hash = hash;
    token = token;
    vapid_keys = keys;
    writable = writable;
  }

  -- The lines that a start reads give, as a file, the same settings and users, and nothing to write.
  lines-read :
      (s : Source F) (file : Bytes) (hash : Bytes → Bytes)
      → ((v : Bytes) → IsHash (s.hash v))
      → (let p = read_settings s file in
          AgreesWith
            (parse_lines hash s.float_of
              (splitlines (file_text (reverse p.new_lines)))
              (start_parse s.defaults))
            (quiet p))
  unfolding read_settings start_parse
  lines-read s file hash good =
      let q = start_parse s.defaults in
      let read =
        parse_lines-IsReread s.hash hash s.float_of q good (splitlines file) q
          (splitlines_from-IsPlain false file) (refl, tt) in
      let p = read_settings s file in
      subst
        (AgreesWith (parse_lines hash s.float_of (splitlines (file_text (reverse p.new_lines))) q))
        read.0
        (file_text-read hash s.float_of (reverse p.new_lines) q
          (All-reverse IsPlain p.new_lines read.1))

  -- If a start rewrites the settings file and has no key to generate, which is when all it did was to hash
  -- the passwords that stood there in plain or to drop a second API_KEY line, then a later start with the
  -- file that it wrote goes on with the same settings and the same users, whatever its hashing and its
  -- fresh keys are and whether it may write, and it writes nothing. The condition on the hashing is that a hash
  -- has a prefix of a hash, and neither white space nor an end of a line.
  pub rewritten_reads_same :
      (s : Source F) (file : Bytes) (c : Config F) (users : Dict Bytes Bytes) (written : Bytes)
      (hash : Bytes → Bytes) (token : Bytes) (keys : Option (Bytes × Bytes)) (writable : Bool)
      → ((v : Bytes) → IsHash (s.hash v))
      → HasKeys s.push_available (read_settings s file).config
      → parse_env_file s (some file) ≡ loaded c users (some written)
      → parse_env_file (later hash token keys writable s) (some written) ≡ loaded c users none
  unfolding parse_env_file read_settings in_order
  rewritten_reads_same s file c users written hash token keys writable good h e =
      let p = read_settings s file in
      let s' = later hash token keys writable s in
      let old = file_text (reverse p.new_lines) in
      let done = ap (finish s.writable) (sym (provision-HasKeys s file h)) ∙ e in
      let (config, kept, lines) = finish-written s.writable (in_order p) c users written done in
      let (same_config, same_users, silent) = lines-read s file hash good in
      ap (λ t. parse_env_file s' (some t)) lines
      ∙ read-unchanged s' old (subst (HasKeys s.push_available) (sym same_config) h) silent
      ∙ ap (λ d. loaded d (read_settings s' old).users none) (same_config ∙ sym config)
      ∙ ap (λ d. loaded c d none) (same_users ∙ sym kept)
