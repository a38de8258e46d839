-- ===== src/Config/Provision.antt =====
-- The provisioning of the API key and of the VAPID keys, the rewriting of the settings file, and the whole
-- of `parse_env_file` in genpi/config.py.
use generatorpi.Base.{
  if◌then◌else◌, ◌==◌, Dict, lookup, insert, pos, negsuc, Bytes, codes, Bool, true, false, not,
  ◌&&◌, ◌||◌, Option, none, some, List, [], ◌∷◌, ◌++◌, bytes_key, nat_key,
}
use mathlib.Core.List.{reverse}
use generatorpi.Logs.{splitlines}
use generatorpi.Config.{
  Setting, int, float, text, Config, Parse, key_of, assignment, is_blank, parse_lines,
}

-- The first line with this key replaced, `none` if there is none.
unfoldable pub replace_line : (key new : Bytes) → List Bytes → Option (List Bytes)
unfolding key_of
replace_line key new [] = none
replace_line key new (l ∷ ls) =
    let rest = replace_line key new ls in
    if key_of l == key then some (new ∷ ls) else elim rest [ none ↦ none | some ms ↦ some (l ∷ ms) ]

unfoldable pub has_key : Bytes → List Bytes → Bool
unfolding key_of
has_key key [] = false
has_key key (l ∷ ls) = key_of l == key || has_key key ls

-- `_upsert`
unfoldable pub upsert : (key value : Bytes) → List Bytes → List Bytes
unfolding replace_line
upsert key value ls = elim (replace_line key (assignment key value) ls) [
  | none ↦ ls ++ (assignment key value ∷ [])
  | some ms ↦ ms
]

abbrev pub api_key_comment : List Bytes
api_key_comment =
    []
    ∷ codes "# API key for machine callers (e.g. HomeAssistant)."
    ∷ codes "# Auto-generated on startup. To rotate: clear the value"
    ∷ codes "# (leave 'API_KEY=') or delete the line, then restart:"
    ∷ codes "#   sudo systemctl restart generator_control"
    ∷ codes "# A fresh key is generated + written here on startup;"
    ∷ codes "# update HomeAssistant's key to match or its calls 401."
    ∷ codes "# Set API_KEY_ENABLED=0 to disable key auth entirely."
    ∷ []

abbrev pub vapid_comment : List Bytes
vapid_comment =
    []
    ∷ codes "# Web Push (VAPID) keys -- auto-generated on startup."
    ∷ codes "# VAPID_PRIVATE_KEY is SECRET. To rotate: clear both"
    ∷ codes "# values (or delete both lines) and restart -- a fresh"
    ∷ codes "# keypair is generated + written here. Rotation forces"
    ∷ codes "# browsers to re-subscribe (handled automatically)."
    ∷ []

unfoldable pub vapid_lines : (public private : Bytes) → List Bytes → List Bytes
unfolding has_key upsert
vapid_lines public private ls =
    let new =
      vapid_comment
      ++ (assignment (codes "VAPID_PUBLIC_KEY") public
          ∷ assignment (codes "VAPID_PRIVATE_KEY") private
          ∷ []) in
    if has_key (codes "VAPID_PRIVATE_KEY") ls || has_key (codes "VAPID_PUBLIC_KEY") ls
    then upsert (codes "VAPID_PRIVATE_KEY") private (upsert (codes "VAPID_PUBLIC_KEY") public ls)
    else ls ++ new

-- The settings and the users, and the lines in the order of the file.
pub record Provisioned (F : Type 0) : Type 0 where
  pub config : Config F
  pub users : Dict Bytes Bytes
  pub file_lines : List Bytes
  pub needs_rewrite : Bool

module _ {F : Type 0} where
  -- The truth value of an integer; the switch that is asked is one.
  abbrev pub is_on : Option (Setting F) → Bool
  is_on none = false
  is_on (some (int n)) = not (elim n as (λ _. Bool) [ pos k ↦ k == 0 | negsuc k ↦ false ])
  is_on (some (float x)) = true
  is_on (some (text s)) = not (s == [])

  unfoldable pub provision_api_key : (token : Bytes) → Provisioned F → Provisioned F
  unfolding replace_line
  provision_api_key token p =
      if is_on (lookup (codes "API_KEY_ENABLED") p.config)
        && is_blank (lookup (codes "API_KEY") p.config)
      then record p {
        config = insert (codes "API_KEY") (text token) p.config;
        file_lines =
            elim (replace_line (codes "API_KEY") (assignment (codes "API_KEY") token)
              p.file_lines) [
                | none ↦
                    p.file_lines ++ (api_key_comment ++ (assignment (codes "API_KEY") token ∷ []))
                | some ls ↦ ls
              ];
        needs_rewrite = true;
      }
      else p

  -- `keys` is the public and the private key that were generated, `none` if that raised.
  unfoldable pub provision_vapid :
      (push_available : Bool) → (keys : Option (Bytes × Bytes)) → Provisioned F → Provisioned F
  unfolding vapid_lines
  provision_vapid push_available none p = p
  provision_vapid push_available (some (public, private)) p =
      if push_available && is_blank (lookup (codes "VAPID_PRIVATE_KEY") p.config)
      then record p {
        config =
            insert (codes "VAPID_PUBLIC_KEY") (text public)
              (insert (codes "VAPID_PRIVATE_KEY") (text private) p.config);
        file_lines = vapid_lines public private p.file_lines;
        needs_rewrite = true;
      }
      else p

-- `"\n".join(new_lines) + "\n"`
unfoldable pub file_text : List Bytes → Bytes
file_text [] = 10 ∷ []
file_text (l ∷ []) = l ++ (10 ∷ [])
file_text (l ∷ m ∷ ls) = l ++ (10 ∷ file_text (m ∷ ls))

-- What the start-up goes on with; `written` is the new text of the file, if it was rewritten.
pub data Loaded (F : Type 0) : Type 0 where
  loaded : Config F → Dict Bytes Bytes → (written : Option Bytes) → Loaded F
  refused : Loaded F

-- What `parse_env_file` draws on: the defaults, the hashes, the fresh keys, and whether the push libraries
-- are there and the file can be written.
pub record Source (F : Type 0) : Type 0 where
  pub defaults : Config F
  pub hash : Bytes → Bytes
  pub float_of : Bytes → Option F
  pub token : Bytes
  pub push_available : Bool
  pub vapid_keys : Option (Bytes × Bytes)
  pub writable : Bool

module _ {F : Type 0} where
  unfoldable pub start_parse : Config F → Parse F
  start_parse config = record { config = config; users = []; new_lines = []; needs_rewrite = false }

  unfoldable pub read_settings : Source F → Bytes → Parse F
  unfolding parse_lines start_parse splitlines
  read_settings s file = parse_lines s.hash s.float_of (splitlines file) (start_parse s.defaults)

  unfoldable pub in_order : Parse F → Provisioned F
  in_order p = record {
    config = p.config;
    users = p.users;
    file_lines = reverse p.new_lines;
    needs_rewrite = p.needs_rewrite;
  }

  unfoldable pub provision : Source F → Bytes → Provisioned F
  unfolding read_settings in_order provision_api_key provision_vapid
  provision s file =
      provision_vapid s.push_available s.vapid_keys
        (provision_api_key s.token (in_order (read_settings s file)))

  unfoldable pub finish : (writable : Bool) → Provisioned F → Loaded F
  unfolding file_text
  finish writable p =
      if not p.needs_rewrite
      then loaded p.config p.users none
      else if writable
      then loaded p.config p.users (some (file_text p.file_lines))
      else refused

  -- A file that is not there leaves the defaults and no user.
  unfoldable pub parse_env_file : Source F → Option Bytes → Loaded F
  unfolding provision finish
  parse_env_file s none = loaded s.defaults [] none
  parse_env_file s (some file) = finish s.writable (provision s file)
