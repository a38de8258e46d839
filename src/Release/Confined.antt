-- ===== src/Release/Confined.antt =====
-- What the validation of a manifest in genpi/updater.py rules out: files outside the root of the project,
-- and commands with characters of the shell.
use generatorpi.Base.{
  leb, if◌then◌else◌, Bool-cases, Option-cases, keep, All, ◌==◌, beq_eq, Bytes, codes, lower,
  starts_with, ends_with, split, all_chars, chomp, text_before, joined, sorted, member, distinct,
  member-distinct, member-sorted, All-of-members, All-member, ℕ, ◌≡◌, refl, sym, ◌∙◌, inl, inr,
  Bool, true, false, not, ◌&&◌, ◌||◌, none, List, [], ◌∷◌, ◌++◌, arith, bytes_key, nat_key,
}
use generatorpi.Release.Manifest.{
  is_package, is_unsafe, validate_manifest_paths, apt_char, dependency_install_command, packages,
  install_line, ReleaseFile, Dependency, parts, is_secret,
}

-- Where the system ends up, part by part, from a directory that is the list of its names, the last one
-- first: `..` goes up, an empty part and `.` stay.
unfoldable pub walk : List Bytes → List Bytes → List Bytes
walk here [] = here
walk here (part ∷ ps) = elim ((part == []) || (part == codes ".")) [
  | true ↦ walk here ps
  | false ↦ elim (part == codes "..") [
    | true ↦ elim here [ [] ↦ walk [] ps | name ∷ above ↦ walk above ps ]
    | false ↦ walk (part ∷ here) ps
  ]
]

-- `root / p`: an absolute path starts over.
unfoldable pub target : List Bytes → Bytes → List Bytes
unfolding walk
target root p = walk (if starts_with (codes "/") p then [] else root) (split b'/' p)

pub Below : List Bytes → List Bytes → Type 0
Below root place = (names : List Bytes) × (place ≡ names ++ root)

walk-Below :
    (root names ps : List Bytes)
    → member (codes "..") (keep (λ part. not (part == []) && not (part == codes ".")) ps) ≡ false
    → Below root (walk (names ++ root) ps)
unfolding walk Below
walk-Below root names [] h = (names, refl)
walk-Below root names (part ∷ ps) h = elim (Bool-cases ((part == []) || (part == codes "."))) [
  | inl stays ↦ rw (stays, walk) (walk-Below root names ps (ground arith))
  | inr goes ↦ elim (Bool-cases (part == codes "..")) [
    | inl up ↦ absurd (ground arith)
    | inr down ↦ rw (goes, down, walk) (walk-Below root (part ∷ names) ps (ground arith))
  ]
]

target-Below : (root : List Bytes) (p : Bytes) → is_unsafe p ≡ false → Below root (target root p)
unfolding is_unsafe parts target
target-Below root p h =
    let relative : starts_with (codes "/") p ≡ false = ground arith in
    rw relative (walk-Below root [] (split b'/' p) (ground arith))

-- The ends of the names of secrets, keys and certificates.
abbrev pub denied_ends : List Bytes
denied_ends = codes ".env" ∷ codes ".pem" ∷ codes ".key" ∷ []

allowed_end :
    (p : Bytes) → is_secret p ≡ false → All (λ e. ends_with e (lower p) ≡ false) denied_ends
unfolding is_secret
allowed_end p h = (ground arith, (ground arith, (ground arith, tt)))

-- If a manifest passes the validation, then every path of it, followed part by part from the root of
-- the project, ends at the root or below it, and its text, in lower case, ends in none of .env, .pem and
-- .key. Of the text only: a path such as `generator_control.env/.` passes and leads to the settings file.
pub validated_stays_inside :
    {D : Type 0} (root : List Bytes) (files : List (ReleaseFile D))
    → validate_manifest_paths files ≡ none
    → All
        (λ f.
          Below root (target root (codes f.path))
          × All (λ e. ends_with e (lower (codes f.path)) ≡ false) denied_ends)
        files
unfolding validate_manifest_paths
validated_stays_inside root [] h = tt
validated_stays_inside root (f ∷ files) h = elim (Bool-cases (is_unsafe (codes f.path))) [
  | inl bad ↦ absurd (ground arith)
  | inr fine ↦ elim (Bool-cases (is_secret (codes f.path))) [
    | inl bad ↦ absurd (ground arith)
    | inr kept ↦ (
      (target-Below root (codes f.path) fine, allowed_end (codes f.path) kept),
      validated_stays_inside root files (ground arith),
    )
  ]
]

-- A lower-case letter, a digit, one of `+`, `.` and `-`, a space or a line feed.
unfoldable pub command_char : ℕ → Bool
command_char c =
    (leb 97 c && leb c 122)
    || (leb 48 c && leb c 57)
    || c == 43
    || c == 45
    || c == 46
    || c == 32
    || c == 10

apt_char-command : (c : ℕ) → apt_char c ≡ true → command_char c ≡ true
unfolding apt_char command_char
apt_char-command c h = ground arith

all_chars-append :
    (p : ℕ → Bool) (s t : Bytes)
    → all_chars p s ≡ true
    → all_chars p t ≡ true
    → all_chars p (s ++ t) ≡ true
all_chars-append p [] t h k = k
all_chars-append p (c ∷ s) t h k = ground (arith, all_chars-append p s t)

feed-command : (c : ℕ) → (c == 10) ≡ true → all_chars command_char (c ∷ []) ≡ true
unfolding command_char
feed-command c h = ground arith

chomp-command : (s : Bytes) → all_chars apt_char (chomp s) ≡ true → all_chars command_char s ≡ true
chomp-command [] h = refl
chomp-command (c ∷ s) h = elim (Bool-cases (c == 10 && s == [])) [
  | inl end ↦ let e : s ≡ [] = beq_eq s [] (ground arith) in rw e (feed-command c (ground arith))
  | inr inside ↦ let more = chomp-command s in ground (arith, more, apt_char-command c)
]

package-command : (p : Bytes) → is_package p ≡ true → all_chars command_char p ≡ true
unfolding is_package command_char apt_char
package-command [] h = refl
package-command (c ∷ s) h = ground (arith, chomp-command s)

packages-All : (deps : List Dependency) → All (λ p. is_package p ≡ true) (packages deps)
unfolding packages
packages-All [] = tt
packages-All (d ∷ deps) = elim (Option-cases d.apt) [
  | inl q ↦ rw (q, packages) (packages-All deps)
  | inr (p, q) ↦
      rw (q, packages)
        (elim (Bool-cases (is_package p)) [
          | inl good ↦ rw good (good, packages-All deps)
          | inr bad ↦ rw bad (packages-All deps)
        ])
]

space-command :
    (s : Bytes) → all_chars command_char s ≡ true → all_chars command_char (b' ' ∷ s) ≡ true
unfolding command_char
space-command s h = h

joined-command :
    (ps : List Bytes)
    → All (λ p. is_package p ≡ true) ps
    → all_chars command_char (joined ps) ≡ true
joined-command [] h = refl
joined-command (p ∷ []) h = package-command p h.0
joined-command (p ∷ q ∷ ps) h =
    all_chars-append command_char p (b' ' ∷ joined (q ∷ ps)) (package-command p h.0)
      (space-command (joined (q ∷ ps)) (joined-command (q ∷ ps) h.1))

install_line-command :
    (ps : List Bytes)
    → All (λ p. is_package p ≡ true) ps
    → all_chars command_char (install_line ps) ≡ true
unfolding install_line
install_line-command [] h = refl
install_line-command (p ∷ ps) h =
    all_chars-append command_char (codes "sudo apt install -y ") (joined (p ∷ ps))
      (unfold command_char in refl) (joined-command (p ∷ ps) h)

-- Whatever the manifest declares, the command that the updater offers for copying has only lower-case
-- letters, digits, `+`, `.`, `-`, spaces and line feeds.
pub command_is_plain :
    (missing : List Dependency) → all_chars command_char (dependency_install_command missing) ≡ true
unfolding dependency_install_command
command_is_plain missing =
    let found = packages missing in
    let pkgs = sorted text_before (distinct found) in
    let all : All (λ p. is_package p ≡ true) pkgs =
      All-of-members (λ p. is_package p ≡ true) pkgs
        (λ p m.
          All-member (λ p. is_package p ≡ true) p found (packages-All missing)
            (sym (member-distinct p found)
              ∙ sym (member-sorted text_before p (distinct found))
              ∙ m)) in
    install_line-command pkgs all
