-- ===== src/Update.antt =====
-- The files of the self-updater of genpi/updater.py: `_make_backup`, `_swap` and `_rollback` over a tree
-- of regular files. A content is any type; `temp` is the sibling name with `.gpnew`, and `usual` the
-- mode of a file that is newly written.
pub mod Interrupted
pub mod Restore
pub mod Status
pub mod Decision
pub mod Worker
pub mod Stages
pub mod Admit
pub mod Apply
pub mod Run
pub mod Intact
pub mod Prepared
pub mod Settled
pub mod Reached
pub mod Ends
pub mod Aftermath
mod Tests
mod RunTests
use generatorpi.Base.{
  if◌then◌else◌, take, drop, keep, Dict, lookup, insert, erase, contains, ℕ, String, Bool, true,
  false, not, Option, none, some, List, [], ◌∷◌, string_key,
}

pub record File {ℓ} (C : Type ℓ) : Type ℓ where
  pub content : C
  pub mode : ℕ

abbrev pub Tree {ℓ} : Type ℓ → Type ℓ
Tree C = Dict String (File C)

-- A backup zip: the files, and `__added__.json`.
pub record Archive {ℓ} (C : Type ℓ) : Type ℓ where
  pub entries : List (String × C)
  pub added : List String

module _ {ℓ} {C : Type ℓ} where
  -- `present`, with the contents
  unfoldable pub backed_up : Tree C → List String → List (String × C)
  backed_up root [] = []
  backed_up root (p ∷ paths) =
      let rest = backed_up root paths in
      elim (lookup p root) [ none ↦ rest | some f ↦ (p, f.content) ∷ rest ]

  unfoldable pub make_backup : List String → Tree C → Archive C
  unfolding backed_up
  make_backup paths root = record {
    entries = backed_up root paths;
    added = keep (λ p. not (contains p root)) paths;
  }

  -- The mode that a file has when it is written over: an old file keeps its own.
  unfoldable pub mode_of : ℕ → Option (File C) → ℕ
  mode_of usual none = usual
  mode_of usual (some f) = f.mode

  unfoldable pub write_file : ℕ → String → C → Tree C → Tree C
  unfolding mode_of
  write_file usual p c root =
      insert p (record { content = c; mode = mode_of usual (lookup p root) }) root

  -- One file of `_swap`: the temporary takes the old mode and is renamed over the live file. `none` is
  -- the exception of a missing staged file.
  unfoldable pub swap_file :
      (String → String) → ℕ → Dict String C → String → Tree C → Option (Tree C)
  unfolding write_file
  swap_file temp usual staged p root = elim (lookup p staged) [
    | none ↦ none
    | some c ↦ some (erase (temp p) (write_file usual p c root))
  ]

  -- The loop, with whether it came to its end.
  unfoldable pub swap : (String → String) → ℕ → Dict String C → List String → Tree C → Bool × Tree C
  unfolding swap_file
  swap temp usual staged [] root = (true, root)
  swap temp usual staged (p ∷ paths) root = elim (swap_file temp usual staged p root) [
    | none ↦ (false, root)
    | some root' ↦ swap temp usual staged paths root'
  ]

  -- A file that was cut short after its copy and before its rename.
  unfoldable pub half_swap : (String → String) → ℕ → Dict String C → List String → Tree C → Tree C
  half_swap temp usual staged [] root = root
  half_swap temp usual staged (p ∷ paths) root = elim (lookup p staged) [
    | none ↦ root
    | some c ↦ insert (temp p) (record { content = c; mode = usual }) root
  ]

  -- A swap that dies after `done` files, in the middle of the next one if `half`.
  unfoldable pub interrupted_swap :
      (String → String)
      → ℕ
      → Dict String C
      → (done : ℕ) (half : Bool) → List String
      → Tree C
      → Tree C
  unfolding swap half_swap
  interrupted_swap temp usual staged done half paths root =
      let reached = (swap temp usual staged (take done paths) root).1 in
      if half then half_swap temp usual staged (drop done paths) reached else reached

  unfoldable pub unlink_all : List String → Tree C → Tree C
  unlink_all [] root = root
  unlink_all (p ∷ paths) root = unlink_all paths (erase p root)

  unfoldable pub extract_all : ℕ → List (String × C) → Tree C → Tree C
  unfolding write_file
  extract_all usual [] root = root
  extract_all usual ((p, c) ∷ entries) root = extract_all usual entries (write_file usual p c root)

  -- The added files go, then the old ones are extracted.
  unfoldable pub rollback : ℕ → Archive C → Tree C → Tree C
  unfolding unlink_all extract_all
  rollback usual archive root = extract_all usual archive.entries (unlink_all archive.added root)
