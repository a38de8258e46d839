-- ===== src/Config/Kept.antt =====
-- The settings that `parse_env_file` of genpi/config.py ends with keep the types of the defaults.
use generatorpi.Base.{
  Bool-cases, if_either, Dict, lookup, insert, Bytes, codes, ◌≡◌, refl, sym, ap, ◌∙◌, subst, inl,
  inr, Bool, ◌&&◌, Option, none, some, arith, bytes_key, nat_key,
}
use generatorpi.Config.Provision.{
  finish, provision_vapid, provision, provision_api_key, Provisioned, is_on, loaded, Source,
  start_parse, read_settings, in_order, parse_env_file,
}
use generatorpi.Config.{Config, text, is_blank}
use generatorpi.Float.{Float}
use generatorpi.Config.Defaults.{default_config}
use generatorpi.Config.Types.{SameKinds, kind_at, textual, insert-SameKinds, parse_lines-SameKinds}
use generatorpi.Logs.{splitlines}

module _ {F : Type 0} where
  -- The keys that a start-up provisions hold texts.
  abbrev pub HasTextKeys : Config F → Type 0
  HasTextKeys c =
      (kind_at (codes "API_KEY") c ≡ some textual)
      × (kind_at (codes "VAPID_PRIVATE_KEY") c ≡ some textual)
      × (kind_at (codes "VAPID_PUBLIC_KEY") c ≡ some textual)

  provision_api_key-SameKinds :
      (token : Bytes) (p : Provisioned F)
      → HasTextKeys p.config
      → SameKinds p.config (provision_api_key token p).config
  unfolding provision_api_key
  provision_api_key-SameKinds token p h =
      if_either (λ (q : Provisioned F). SameKinds p.config q.config)
        (is_on (lookup (codes "API_KEY_ENABLED") p.config)
          && is_blank (lookup (codes "API_KEY") p.config))
        (insert-SameKinds (codes "API_KEY") (text token) p.config h.0) (λ k. refl)

  provision_vapid-SameKinds :
      (available : Bool) (keys : Option (Bytes × Bytes)) (p : Provisioned F)
      → HasTextKeys p.config
      → SameKinds p.config (provision_vapid available keys p).config
  unfolding provision_vapid
  provision_vapid-SameKinds available none p h = λ k. refl
  provision_vapid-SameKinds available (some (public, private)) p h =
      let one = insert-SameKinds (codes "VAPID_PRIVATE_KEY") (text private) p.config h.1 in
      let two =
        insert-SameKinds (codes "VAPID_PUBLIC_KEY") (text public)
          (insert (codes "VAPID_PRIVATE_KEY") (text private) p.config)
          (one (codes "VAPID_PUBLIC_KEY") ∙ h.2) in
      if_either (λ (q : Provisioned F). SameKinds p.config q.config)
        (available && is_blank (lookup (codes "VAPID_PRIVATE_KEY") p.config)) (λ k. two k ∙ one k)
        (λ k. refl)

  provision-SameKinds :
      (s : Source F) (file : Bytes)
      → HasTextKeys s.defaults
      → SameKinds s.defaults (provision s file).config
  unfolding provision read_settings in_order start_parse
  provision-SameKinds s file h =
      let p = in_order (read_settings s file) in
      let read =
        parse_lines-SameKinds s.hash s.float_of (splitlines file) (start_parse s.defaults) h.0 in
      let text_keys : HasTextKeys p.config = (read _ ∙ h.0, read _ ∙ h.1, read _ ∙ h.2) in
      let keyed = provision_api_key-SameKinds s.token p text_keys in
      let q = provision_api_key s.token p in
      let given =
        provision_vapid-SameKinds s.push_available s.vapid_keys q
          (keyed _ ∙ text_keys.0, keyed _ ∙ text_keys.1, keyed _ ∙ text_keys.2) in
      λ k. given k ∙ keyed k ∙ read k

  finish-config :
      (writable : Bool) (p : Provisioned F) (c : Config F) (users : Dict Bytes Bytes)
      (written : Option Bytes)
      → finish writable p ≡ loaded c users written
      → c ≡ p.config
  unfolding finish
  finish-config writable p c users written h = elim (Bool-cases p.needs_rewrite) [
    | inl rewritten ↦ elim (Bool-cases writable) [
      | inl can ↦ ground arith
      | inr not_writable ↦ absurd (ground arith)
    ]
    | inr kept ↦ ground arith
  ]

  loaded-SameKinds :
      (s : Source F) (file : Option Bytes) (c : Config F) (users : Dict Bytes Bytes)
      (written : Option Bytes)
      → HasTextKeys s.defaults
      → parse_env_file s file ≡ loaded c users written
      → SameKinds s.defaults c
  unfolding parse_env_file
  loaded-SameKinds s none c users written t h =
      let same : c ≡ s.defaults = ground arith in λ k. ap (kind_at k) same
  loaded-SameKinds s (some file) c users written t h =
      let same = finish-config s.writable (provision s file) c users written h in
      λ k. ap (kind_at k) same ∙ provision-SameKinds s file t k

default_config-HasTextKeys : (F : Type 0) ⦃f : Float F⦄ → HasTextKeys (default_config {F = F})
unfolding default_config lookup
default_config-HasTextKeys F = (refl, refl, refl)

module _ {F : Type 0} ⦃f : Float F⦄ where
  -- Whatever the settings file holds, whichever keys are generated and whether it can be written: if the
  -- program goes on, it has the settings that the code declares and no other, and each is still of the type
  -- of its default. The condition is that the defaults are those of the code.
  pub parse_env_file-SameKinds :
      (s : Source F) (file : Option Bytes) (c : Config F) (users : Dict Bytes Bytes)
      (written : Option Bytes)
      → s.defaults ≡ default_config
      → parse_env_file s file ≡ loaded c users written
      → SameKinds default_config c
  parse_env_file-SameKinds s file c users written d h =
      subst (λ e. SameKinds e c) d
        (loaded-SameKinds s file c users written
          (subst HasTextKeys (sym d) (default_config-HasTextKeys F)) h)
