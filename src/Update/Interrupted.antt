-- ===== src/Update/Interrupted.antt =====
-- What stands at a path after a part of a swap of genpi/updater.py.
use generatorpi.Base.{
  if◌then◌else◌, Bool-cases, Option-cases, take, drop, All, All-take, All-drop, string_key, ◌==◌,
  beq_eq, beq_ne, Dict, lookup, erase, lookup-insert, lookup-erase, ℕ, zero, suc, String, ◌≡◌, refl,
  sym, ap, ◌∙◌, ◌≢◌, ◌⊎◌, inl, inr, Bool, true, false, ◌||◌, none, some, List, [], ◌∷◌, arith,
}
use generatorpi.Update.{Tree, mode_of, write_file, swap_file, swap, half_swap, interrupted_swap}

abbrev pub mem : String → List String → Bool
mem x [] = false
mem x (p ∷ ps) = p == x || mem x ps

mem-take : (x : String) (n : ℕ) (ps : List String) → mem x (take n ps) ≡ true → mem x ps ≡ true
mem-take x zero ps h = absurd (ground arith)
mem-take x (suc n) [] h = absurd (ground arith)
mem-take x (suc n) (p ∷ ps) h = ground (arith, mem-take x n ps)

module _ {ℓ} {C : Type ℓ} (usual : ℕ) where
  pub lookup-write_file :
      (x p : String) (c : C) (root : Tree C)
      → lookup x (write_file usual p c root) ≡ (
          if p == x
          then some (record { content = c; mode = mode_of usual (lookup p root) })
          else lookup x root)
  unfolding write_file
  lookup-write_file x p c root = lookup-insert x p _ root

module _ {ℓ} {C : Type ℓ} (temp : String → String) (usual : ℕ) (staged : Dict String C) where
  -- What a part of a swap keeps at a path that is no temporary: its mode, and all of a file that is
  -- not of the release.
  unfoldable pub Kept : String → List String → Tree C → Tree C → Type ℓ
  Kept x paths old new =
      (mode_of usual (lookup x new) ≡ mode_of usual (lookup x old))
      × ((mem x paths ≡ true) ⊎ (lookup x new ≡ lookup x old))

  swap_file-Kept :
      (x p : String) (c : C) (root : Tree C)
      → temp p ≢ x
      → let root' = erase (temp p) (write_file usual p c root) in
        (mode_of usual (lookup x root') ≡ mode_of usual (lookup x root))
        × ((p ≡ x) ⊎ (lookup x root' ≡ lookup x root))
  swap_file-Kept x p c root ne =
      let erased = lookup-erase x (temp p) (write_file usual p c root) in
      let written = lookup-write_file usual x p c root in
      let apart = beq_ne (temp p) x ne in
      elim (Bool-cases (p == x)) [
        | inl same ↦ (
          unfold mode_of in (rw (erased, apart, written, same, beq_eq p x same) refl),
          inl (beq_eq p x same),
        )
        | inr other ↦
            (rw (erased, apart, written, other) refl, inr (rw (erased, apart, written, other) refl))
      ]

  swap-Kept :
      (x : String) (paths : List String) (root : Tree C)
      → All (λ p. temp p ≢ x) paths
      → Kept x paths root (swap temp usual staged paths root).1
  unfolding Kept swap swap_file
  swap-Kept x [] root ne = (refl, inr refl)
  swap-Kept x (p ∷ paths) root ne = elim (Option-cases (lookup p staged)) [
    | inl q ↦ rw (q, swap, swap_file) (refl, inr refl)
    | inr (c, q) ↦
        let root' = erase (temp p) (write_file usual p c root) in
        let (mode, same) = swap_file-Kept x p c root ne.0 in
        let (mode', same') = swap-Kept x paths root' ne.1 in
        rw (q, swap, swap_file)
          (
            mode' ∙ mode,
            elim same [
              | inl e ↦ inl (ground (arith, string_key.same_iff p x))
              | inr kept ↦ elim same' [
                | inl m ↦ inl (ground arith)
                | inr kept' ↦ inr (kept' ∙ kept)
              ]
            ],
          )
  ]

  half_swap-lookup :
      (x : String) (paths : List String) (root : Tree C)
      → All (λ p. temp p ≢ x) paths
      → lookup x (half_swap temp usual staged paths root) ≡ lookup x root
  unfolding half_swap
  half_swap-lookup x [] root ne = refl
  half_swap-lookup x (p ∷ paths) root ne = elim (Option-cases (lookup p staged)) [
    | inl q ↦ rw (q, half_swap) refl
    | inr (c, q) ↦
        let inserted = lookup-insert x (temp p) (record { content = c; mode = usual }) root in
        rw (q, half_swap) (rw (inserted, beq_ne (temp p) x ne.0) refl)
  ]

  pub interrupted_swap-Kept :
      (x : String) (done : ℕ) (half : Bool) (paths : List String) (root : Tree C)
      → All (λ p. temp p ≢ x) paths
      → Kept x paths root (interrupted_swap temp usual staged done half paths root)
  unfolding Kept interrupted_swap
  interrupted_swap-Kept x done half paths root ne =
      let reached = (swap temp usual staged (take done paths) root).1 in
      let (mode, same) =
        swap-Kept x (take done paths) root (All-take (λ p. temp p ≢ x) done paths ne) in
      let halved =
        half_swap-lookup x (drop done paths) reached (All-drop (λ p. temp p ≢ x) done paths ne) in
      let whole : (mode_of usual (lookup x reached) ≡ mode_of usual (lookup x root))
          × ((mem x paths ≡ true) ⊎ (lookup x reached ≡ lookup x root)) =
        (mode, elim same [ inl m ↦ inl (mem-take x done paths m) | inr k ↦ inr k ]) in
      elim (Bool-cases half) [ inl e ↦ rw e (rw halved whole) | inr e ↦ rw e whole ]

  swap_step :
      (p : String) (c : C) (paths : List String) (root : Tree C)
      → lookup p staged ≡ some c
      → swap temp usual staged (p ∷ paths) root
        ≡ swap temp usual staged paths (erase (temp p) (write_file usual p c root))
  unfolding swap swap_file
  swap_step p c paths root q = rw (q, swap, swap_file) refl

  swap_missing :
      (p : String) (paths : List String) (root : Tree C)
      → lookup p staged ≡ none
      → swap temp usual staged (p ∷ paths) root ≡ (false, root)
  unfolding swap swap_file
  swap_missing p paths root q = rw (q, swap, swap_file) refl

  written_file :
      (x p : String) (c : C) (root : Tree C)
      → temp p ≢ x
      → (p == x) ≡ true
      → lookup x (erase (temp p) (write_file usual p c root))
        ≡ some (record { content = c; mode = mode_of usual (lookup x root) })
  written_file x p c root ne same =
      lookup-erase x (temp p) (write_file usual p c root)
      ∙ rw (beq_ne (temp p) x ne)
          (lookup-write_file usual x p c root ∙ rw (same, beq_eq p x same) refl)

  swap-other :
      (x : String) (paths : List String) (root : Tree C)
      → All (λ p. temp p ≢ x) paths
      → mem x paths ≡ false
      → lookup x (swap temp usual staged paths root).1 ≡ lookup x root
  unfolding Kept
  swap-other x paths root ne m = elim (swap-Kept x paths root ne).1 [
    | inl own ↦ absurd (ground arith)
    | inr kept ↦ kept
  ]

  -- A swap that comes to its end has put every file of the release in place: the staged content, with
  -- the mode of the file that it replaced, or the usual one. The condition is that the path is not
  -- the temporary name of a file of the release.
  pub swap_installs :
      (x : String) (paths : List String) (root : Tree C)
      → All (λ p. temp p ≢ x) paths
      → mem x paths ≡ true
      → (swap temp usual staged paths root).0 ≡ true
      → (c : C) × (lookup x staged ≡ some c)
        × (lookup x (swap temp usual staged paths root).1
            ≡ some (record { content = c; mode = mode_of usual (lookup x root) }))
  swap_installs x [] root ne m ok = absurd (ground arith)
  swap_installs x (p ∷ paths) root ne m ok = elim (Option-cases (lookup p staged)) [
    | inl q ↦
        let dead : false ≡ true = sym (ap (λ r. r.0) (swap_missing p paths root q)) ∙ ok in
        absurd (ground arith)
    | inr (c, q) ↦
        let root' = erase (temp p) (write_file usual p c root) in
        let ok' = sym (ap (λ r. r.0) (swap_step p c paths root q)) ∙ ok in
        rw (swap_step p c paths root q) (elim (Bool-cases (mem x paths)) [
          | inl later ↦
              let (d, there, put) = swap_installs x paths root' ne.1 later ok' in
              let (mode, _) = swap_file-Kept x p c root ne.0 in
              (d, there, put ∙ ap (λ k. some (record { content = d; mode = k })) mode)
          | inr last ↦
              let same : (p == x) ≡ true = ground arith in
              let there : lookup x staged ≡ some c =
                sym (ap (λ y. lookup y staged) (beq_eq p x same)) ∙ q in
              (c, there, swap-other x paths root' ne.1 last ∙ written_file x p c root ne.0 same)
        ])
  ]
