-- ===== src/Release/Manifest.antt =====
-- The manifest of a release as genpi/updater.py reads it: `_validate_manifest_paths`, `_validate_version`,
-- `check_manifest_dependencies` and `dependency_install_command`.
use generatorpi.Base.{
  leb, if◌then◌else◌, length, keep, ◌==◌, Bytes, codes, lower, starts_with, ends_with, split,
  all_chars, chomp, text_before, joined, sorted, member, distinct, ℕ, String, Bool, false, not,
  ◌&&◌, ◌||◌, Option, none, some, List, [], ◌∷◌, ◌++◌, bytes_key, nat_key,
}
use generatorpi.Release.{Incompatible, is_digit}

pub record ReleaseFile (D : Type 0) : Type 0 where
  pub path : String
  pub sha256 : D
  pub bytes : ℕ

pub record Dependency : Type 0 where
  pub module_name : Option Bytes
  pub apt : Option Bytes
  pub feature : Bytes
  pub is_required : Bool

-- A missing key of the manifest is `none`, or an empty list.
pub record Manifest (D : Type 0) : Type 0 where
  pub version : Option Bytes
  pub files : List (ReleaseFile D)
  pub incompatible_versions : Incompatible
  pub dependencies : List Dependency

-- What the updater raises.
pub data Fault : Type 0 where
  unreachable no_files unsafe_path secret_path unsafe_version not_writable disk_full too_large :
      Fault
  hash_mismatch not_compiling backup_broken swap_died swap_mismatch no_bootstrap : Fault

-- `Path(p).parts`, which leaves out empty parts and dots
unfoldable pub parts : Bytes → List Bytes
parts p = keep (λ part. not (part == []) && not (part == codes ".")) (split b'/' p)

unfoldable pub is_unsafe : Bytes → Bool
unfolding parts
is_unsafe p =
    (p == [])
    || starts_with (codes "/") p
    || starts_with (codes "\\") p
    || member (codes "..") (parts p)

unfoldable pub is_secret : Bytes → Bool
is_secret p =
    let low = lower p in
    ends_with (codes ".env") low
    || ends_with (codes ".pem") low
    || ends_with (codes ".key") low
    || ends_with (codes "generator_control.env") low

-- `none` where it returns
unfoldable pub validate_manifest_paths : {D : Type 0} → List (ReleaseFile D) → Option Fault
unfolding is_unsafe is_secret
validate_manifest_paths [] = none
validate_manifest_paths (f ∷ files) =
    let rest = validate_manifest_paths files in
    if is_unsafe (codes f.path)
    then some unsafe_path
    else if is_secret (codes f.path)
    then some secret_path
    else rest

abbrev pub is_letter : ℕ → Bool
is_letter c = (leb b'A' c && leb c b'Z') || (leb b'a' c && leb c b'z')

-- A character that `_VERSION_RE` takes.
unfoldable pub version_char : ℕ → Bool
version_char c = is_letter c || is_digit c || c == b'.' || c == b'+' || c == b'_' || c == b'-'

unfoldable pub validate_version : Bytes → Option Fault
unfolding version_char
validate_version v =
    let body = chomp v in
    if leb 1 (length body) && leb (length body) 64 && all_chars version_char body
    then none
    else some unsafe_version

unfoldable pub is_identifier : Bytes → Bool
is_identifier [] = false
is_identifier (c ∷ s) =
    (is_letter c || c == b'_') && all_chars (λ d. is_letter d || is_digit d || d == b'_') s

-- `present` tells whether `find_spec` finds a module, without raising.
unfoldable pub is_missing : (Bytes → Bool) → Dependency → Bool
unfolding is_identifier
is_missing present dep = elim (dep.module_name) [
  | none ↦ false
  | some m ↦ is_identifier m && not (present m)
]

unfoldable pub check_manifest_dependencies : (Bytes → Bool) → List Dependency → List Dependency
unfolding is_missing
check_manifest_dependencies present deps = keep (is_missing present) deps

unfoldable pub apt_char : ℕ → Bool
apt_char c = (leb b'a' c && leb c b'z') || is_digit c || c == b'+' || c == b'.' || c == b'-'

-- `_APT_PKG_RE.match`
unfoldable pub is_package : Bytes → Bool
unfolding apt_char
is_package [] = false
is_package (c ∷ s) = ((leb b'a' c && leb c b'z') || is_digit c) && all_chars apt_char (chomp s)

unfoldable pub packages : List Dependency → List Bytes
unfolding is_package
packages [] = []
packages (d ∷ deps) =
    let rest = packages deps in
    elim (d.apt) [ none ↦ rest | some p ↦ if is_package p then p ∷ rest else rest ]

unfoldable pub install_line : List Bytes → Bytes
install_line [] = []
install_line (p ∷ ps) = codes "sudo apt install -y " ++ joined (p ∷ ps)

unfoldable pub dependency_install_command : List Dependency → Bytes
unfolding packages install_line
dependency_install_command missing = install_line (sorted text_before (distinct (packages missing)))
