-- ===== src/Config/Security.antt =====
-- `check_settings_file_security` of genpi/config.py. What it learns of the file and of the process is a record;
-- what it prints is left out.
use generatorpi.Base.{
  if◌then◌else◌, is_some, Bool-cases, is_empty, ◌==◌, ℕ, ◌%◌, ◌≡◌, refl, sym, ap, ◌∙◌, ◌⊎◌, inl,
  inr, Bool, true, false, not, ◌&&◌, Option, none, some, List, [], ◌∷◌, ◌++◌, arith, nat_key,
}

pub record SettingsFile : Type 0 where
  pub exists : Bool
  pub is_symlink : Bool
  pub owner : ℕ
  pub readable : Bool
  pub mode : ℕ

pub data Problem : Type 0 where
  symlink not_owned unreadable exposed : Problem

abbrev pub is_foreign : (euid : Option ℕ) → (owner : ℕ) → Bool
is_foreign none owner = false
is_foreign (some euid) owner = not (euid == 0) && not (owner == euid)

-- `mode & 0o077`: what the group and the others may do.
abbrev pub shared_bits : ℕ → ℕ
shared_bits mode = mode % 64

abbrev pub problem : Bool → Problem → List Problem
problem b p = if b then p ∷ [] else []

unfoldable pub problems : (euid : Option ℕ) → (can_chmod : Bool) → SettingsFile → List Problem
problems euid can_chmod f =
    problem f.is_symlink symlink
    ++ (problem (is_foreign euid f.owner) not_owned
        ++ (problem (not f.readable) unreadable
            ++ problem (not (shared_bits f.mode == 0) && not can_chmod) exposed))

-- The mode that the check leaves: 0o600 where it tightened it.
unfoldable pub tightened : (can_chmod : Bool) → SettingsFile → SettingsFile
tightened can_chmod f =
    if not (shared_bits f.mode == 0) && can_chmod then record f { mode = 384 } else f

-- The file that the start-up goes on with, `none` if it refuses to start.
unfoldable pub check_settings_file_security :
    (euid : Option ℕ) → (can_chmod : Bool) → SettingsFile → Option SettingsFile
unfolding problems tightened
check_settings_file_security euid can_chmod f =
    if not f.exists
    then some f
    else if is_empty (problems euid can_chmod f)
    then some (tightened can_chmod f)
    else none

-- The file is nobody's business but that of the process.
pub record IsPrivate (euid : Option ℕ) (f : SettingsFile) : Type 0 where
  pub own : is_foreign euid f.owner ≡ false
  pub direct : f.is_symlink ≡ false
  pub readable : f.readable ≡ true
  pub closed : shared_bits f.mode ≡ 0

-- What the process can make private: a file that is no link, that belongs to the process unless that is
-- root, that it can read, and that is closed to others or can be closed.
abbrev pub CanBePrivate : (euid : Option ℕ) → (can_chmod : Bool) → SettingsFile → Type 0
CanBePrivate euid can_chmod f =
    (is_foreign euid f.owner ≡ false)
    × (f.is_symlink ≡ false)
    × (f.readable ≡ true)
    × ((shared_bits f.mode ≡ 0) ⊎ (can_chmod ≡ true))

starts_if_private :
    (euid : Option ℕ) (can_chmod : Bool) (f : SettingsFile)
    → f.exists ≡ true
    → CanBePrivate euid can_chmod f
    → is_some (check_settings_file_security euid can_chmod f) ≡ true
unfolding check_settings_file_security
starts_if_private euid can_chmod f e (own, direct, readable, closed) = ground arith

private_if_starts :
    (euid : Option ℕ) (can_chmod : Bool) (f : SettingsFile)
    → f.exists ≡ true
    → is_some (check_settings_file_security euid can_chmod f) ≡ true
    → CanBePrivate euid can_chmod f
unfolding check_settings_file_security
private_if_starts euid can_chmod f e h = (
  ground arith,
  ground arith,
  ground arith,
  elim (Bool-cases can_chmod) [ inl can ↦ inr can | inr cannot ↦ inl (ground arith) ],
)

left-IsPrivate :
    (euid : Option ℕ) (can_chmod : Bool) (f g : SettingsFile)
    → f.exists ≡ true
    → check_settings_file_security euid can_chmod f ≡ some g
    → IsPrivate euid g
unfolding check_settings_file_security
left-IsPrivate euid can_chmod f g e h = ground arith

-- What a check has to decide.
abbrev pub Decides :
    (euid : Option ℕ) → (can_chmod : Bool) → SettingsFile → Option SettingsFile → Type 0
Decides euid can_chmod f none = ¬ CanBePrivate euid can_chmod f
Decides euid can_chmod f (some g) = CanBePrivate euid can_chmod f × IsPrivate euid g

decided :
    (euid : Option ℕ) (can_chmod : Bool) (f : SettingsFile) (o : Option SettingsFile)
    → f.exists ≡ true
    → check_settings_file_security euid can_chmod f ≡ o
    → Decides euid can_chmod f o
decided euid can_chmod f none e h = λ p.
    let q : is_some {A = SettingsFile} none ≡ true =
      ap is_some (sym h) ∙ starts_if_private euid can_chmod f e p in
    cc
decided euid can_chmod f (some g) e h =
    (private_if_starts euid can_chmod f e (ap is_some h), left-IsPrivate euid can_chmod f g e h)

-- A start-up that finds the settings file goes on exactly if the process can make the file private, and
-- what it goes on with is private: it refuses only where that cannot be done. The condition is that the
-- file exists.
check_settings_file_security-Decides :
    (euid : Option ℕ) (can_chmod : Bool) (f : SettingsFile)
    → f.exists ≡ true
    → Decides euid can_chmod f (check_settings_file_security euid can_chmod f)
check_settings_file_security-Decides euid can_chmod f e = decided euid can_chmod f _ e refl
