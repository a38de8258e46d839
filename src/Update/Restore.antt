-- ===== src/Update/Restore.antt =====
-- A rollback of genpi/updater.py undoes an interrupted swap.
use generatorpi.Base.{
  if◌then◌else◌, Bool-cases, Option-cases, keep, All, ◌==◌, beq_eq, Dict, lookup, erase, contains,
  lookup-erase, ℕ, String, ◌≡◌, refl, sym, ap, ◌∙◌, ◌≢◌, ◌⊎◌, inl, inr, Bool, true, false, not,
  ◌&&◌, none, some, List, [], ◌∷◌, arith, string_key,
}
use generatorpi.Update.{
  Tree, File, backed_up, make_backup, mode_of, write_file, interrupted_swap, unlink_all,
  extract_all, rollback,
}
use generatorpi.Update.Interrupted.{Kept, lookup-write_file, mem, interrupted_swap-Kept}

module _ {ℓ} {C : Type ℓ} where
  unlink_all-lookup :
      (x : String) (paths : List String) (root : Tree C)
      → lookup x (unlink_all paths root) ≡ (if mem x paths then none else lookup x root)
  unfolding unlink_all
  unlink_all-lookup x [] root = refl
  unlink_all-lookup x (p ∷ paths) root =
      ground (arith, unlink_all-lookup x paths (erase p root), lookup-erase x p root)

  -- The files that are added are those that were absent.
  added-mem :
      (x : String) (root : Tree C) (paths : List String)
      → mem x (keep (λ p. not (contains p root)) paths) ≡ (mem x paths && not (contains x root))
  added-mem x root [] = refl
  added-mem x root (p ∷ paths) = elim (Bool-cases (p == x)) [
    | inl same ↦ ground (arith, added-mem x root paths, ap (λ y. contains y root) (beq_eq p x same))
    | inr other ↦ ground (arith, added-mem x root paths)
  ]

  absent_differs :
      (x p : String) (old : Tree C) (paths : List String) (f : File C)
      → lookup p old ≡ some f
      → (mem x (p ∷ paths) ≡ false) ⊎ (lookup x old ≡ none)
      → (p == x) ≡ false
  absent_differs x p old paths f q h = elim (Bool-cases (p == x)) [
    | inl same ↦ absurd (ground (arith, ap (λ y. lookup y old) (beq_eq p x same)))
    | inr other ↦ other
  ]

  absent_differs_some :
      (x p : String) (old : Tree C) (f : File C)
      → lookup p old ≡ none
      → lookup x old ≡ some f
      → (p == x) ≡ false
  absent_differs_some x p old f q h = elim (Bool-cases (p == x)) [
    | inl same ↦ absurd (ground (arith, ap (λ y. lookup y old) (beq_eq p x same)))
    | inr other ↦ other
  ]

  -- Writing the old content of a file over one of the same mode gives the old file.
  written_back :
      (usual : ℕ) (x p : String) (f g : File C) (old root : Tree C)
      → lookup x old ≡ some f
      → lookup p old ≡ some g
      → (p == x) ≡ true
      → mode_of usual (lookup x root) ≡ f.mode
      → lookup x (write_file usual p g.content root) ≡ some f
  written_back usual x p f g old root q there same mode =
      let e = beq_eq p x same in
      let one : some g ≡ some f = sym there ∙ ap (λ y. lookup y old) e ∙ q in
      let moded : mode_of usual (lookup p root) ≡ f.mode =
        ap (λ y. mode_of usual (lookup y root)) e ∙ mode in
      lookup-write_file usual x p g.content root ∙ rw (same, moded) (ground arith)

  extract-other :
      (usual : ℕ) (x : String) (old : Tree C) (paths : List String) (root : Tree C)
      → (mem x paths ≡ false) ⊎ (lookup x old ≡ none)
      → lookup x (extract_all usual (backed_up old paths) root) ≡ lookup x root
  unfolding extract_all backed_up
  extract-other usual x old [] root h = refl
  extract-other usual x old (p ∷ paths) root h = elim (Option-cases (lookup p old)) [
    | inl q ↦ rw (q, backed_up) (extract-other usual x old paths root (ground arith))
    | inr (f, q) ↦
        let root' = write_file usual p f.content root in
        let apart = absent_differs x p old paths f q h in
        rw (q, backed_up, extract_all)
          (extract-other usual x old paths root' (ground arith)
            ∙ rw (lookup-write_file usual x p f.content root, apart) refl)
  ]

  extract-own :
      (usual : ℕ) (x : String) (f : File C) (old : Tree C) (paths : List String) (root : Tree C)
      → lookup x old ≡ some f
      → (lookup x root ≡ some f) ⊎ ((mem x paths ≡ true) × (mode_of usual (lookup x root) ≡ f.mode))
      → lookup x (extract_all usual (backed_up old paths) root) ≡ some f
  unfolding extract_all backed_up
  extract-own usual x f old [] root q h = elim h [ inl e ↦ e | inr (m, _) ↦ absurd (ground arith) ]
  extract-own usual x f old (p ∷ paths) root q h = elim (Option-cases (lookup p old)) [
    | inl none_there ↦
        rw (none_there, backed_up)
          (extract-own usual x f old paths root q
            (let apart = absent_differs_some x p old f none_there q in ground (arith, apart)))
    | inr (g, there) ↦
        let root' = write_file usual p g.content root in
        let written = lookup-write_file usual x p g.content root in
        rw (there, backed_up, extract_all)
          (extract-own usual x f old paths root' q (elim (Bool-cases (p == x)) [
            | inl same ↦ inl (
                written_back usual x p f g old root q there same
                  (elim h [ inl e ↦ unfold mode_of in ap (mode_of usual) e | inr (_, m) ↦ m ]))
            | inr other ↦ ground (arith, written)
          ]))
  ]

  -- Wherever a swap stops, between two files or between the copy and the rename of one, the rollback
  -- from the backup that was taken before it brings back what stood at every path: an old file with
  -- its content and its mode, and nothing where there was nothing. The condition is that the path is
  -- not the temporary name of a file of the release.
  pub rollback_restores :
      (temp : String → String) (usual : ℕ) (staged : Dict String C) (paths : List String)
      (root : Tree C) (done : ℕ) (half : Bool) (x : String)
      → All (λ p. temp p ≢ x) paths
      → lookup x (
          rollback usual
            (make_backup paths root)
            (interrupted_swap temp usual staged done half paths root))
        ≡ lookup x root
  unfolding rollback make_backup Kept
  rollback_restores temp usual staged paths root done half x ne =
      let reached = interrupted_swap temp usual staged done half paths root in
      let (mode, same) = interrupted_swap-Kept temp usual staged x done half paths root ne in
      let added = keep (λ p. not (contains p root)) paths in
      let cleared = unlink_all added reached in
      let unlinked = unlink_all-lookup x added reached in
      let members = added-mem x root paths in
      elim (Option-cases (lookup x root)) [
        | inl absent ↦
            let left : lookup x cleared ≡ none = ground (arith, unlinked, members, same) in
            extract-other usual x root paths cleared (inr absent) ∙ left ∙ sym absent
        | inr (f, present) ↦
            let left : lookup x cleared ≡ lookup x reached = ground (arith, unlinked, members) in
            let old_mode : mode_of usual (lookup x root) ≡ f.mode =
              unfold mode_of in ap (mode_of usual) present in
            extract-own usual x f root paths cleared present (elim same [
              | inl m ↦ inr (m, ap (mode_of usual) left ∙ mode ∙ old_mode)
              | inr k ↦ inl (left ∙ k ∙ present)
            ])
            ∙ sym present
      ]
