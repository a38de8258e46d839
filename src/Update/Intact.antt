-- ===== src/Update/Intact.antt =====
-- What the stages of genpi/updater.py before the go-ahead leave alone, and what they have established
-- when they pass.
use generatorpi.Base.{
  is_some, Bool-cases, Option-cases, if_either, All, Key, Dict, lookup, Bytes, ℕ, ◌+◌, max, String,
  ◌≡◌, refl, sym, subst, inl, inr, true, Option, none, some, List, [], ◌∷◌, string_key,
}
use generatorpi.Update.{Tree}
use generatorpi.Update.Worker.{
  Worker, Outside, Flow, next, raised, ended, ◌>>>◌, raise_if, say, http_get_bytes, ask,
}
use generatorpi.Update.Admit.{contact, validate, park_refused, version_of, gate_on}
use generatorpi.Update.Status.{failed, at_path, line}
use generatorpi.Release.Manifest.{
  Manifest, Fault, validate_manifest_paths, validate_version, ReleaseFile,
}
use generatorpi.Update.Stages.{
  has_digest, verify_staged, download, preflight_check, has_space, unless, all_writable,
  compiles_if_python, compile_staged,
}

-- What holds of a flow, by the way it leaves.
unfoldable pub Leaves :
    {C A : Type 0}
    → (A → Worker C → Type 0)
    → (Fault → Worker C → Type 0)
    → (Worker C → Type 0)
    → Flow C A
    → Type 0
Leaves Q R S (next a w) = Q a w
Leaves Q R S (raised e w) = R e w
Leaves Q R S (ended w) = S w

pub Leaves-bind :
    {C A B : Type 0} (Q : A → Worker C → Type 0) (P : B → Worker C → Type 0)
    (R : Fault → Worker C → Type 0) (S : Worker C → Type 0) (x : Flow C A)
    (f : A → Worker C → Flow C B)
    → Leaves Q R S x
    → ((a : A) (w : Worker C) → Q a w → Leaves P R S (f a w))
    → Leaves P R S (x >>> f)
unfolding Leaves ◌>>>◌
Leaves-bind Q P R S (next a w) f h k = k a w h
Leaves-bind Q P R S (raised e w) f h k = h
Leaves-bind Q P R S (ended w) f h k = h

pub Leaves-map :
    {C A : Type 0} (Q P : A → Worker C → Type 0) (R : Fault → Worker C → Type 0)
    (S : Worker C → Type 0)
    → ((a : A) (w : Worker C) → Q a w → P a w)
    → (x : Flow C A) → Leaves Q R S x
    → Leaves P R S x
unfolding Leaves
Leaves-map Q P R S f (next a w) h = f a w h
Leaves-map Q P R S f (raised e w) h = h
Leaves-map Q P R S f (ended w) h = h

module _ {C : Type 0} (root : Tree C) (n : ℕ) where
  -- Nothing was replaced, nobody was asked, and no rollback is armed.
  unfoldable pub Intact : Worker C → Type 0
  Intact w = (w.root ≡ root) × (w.rollback_point ≡ none) × (w.restart ≡ none) × (w.waits ≡ n)

  -- The run is over, and nothing was replaced.
  unfoldable pub Over : Worker C → Type 0
  Over w = (w.status.phase ≡ failed) × (w.restart ≡ none) × (w.root ≡ root)

  unfoldable pub Careful : {A : Type 0} → (A → Worker C → Type 0) → Flow C A → Type 0
  Careful Q = Leaves (λ a w. Intact w × Q a w) (λ _. Intact) Over

  pub Careful-bind :
      {A B : Type 0} (Q : A → Worker C → Type 0) (P : B → Worker C → Type 0) (x : Flow C A)
      (f : A → Worker C → Flow C B)
      → Careful Q x
      → ((a : A) (w : Worker C) → Intact w → Q a w → Careful P (f a w))
      → Careful P (x >>> f)
  unfolding Careful
  Careful-bind Q P x f h k =
      Leaves-bind (λ a w. Intact w × Q a w) (λ b w. Intact w × P b w) (λ _. Intact) Over x f h
        (λ a w (i, q). k a w i q)

  pub Careful-map :
      {A : Type 0} {Q P : A → Worker C → Type 0}
      → ((a : A) (w : Worker C) → Q a w → P a w)
      → (x : Flow C A) → Careful Q x
      → Careful P x
  unfolding Careful
  Careful-map {A} {Q} {P} f x =
      Leaves-map (λ a w. Intact w × Q a w) (λ a w. Intact w × P a w) (λ _. Intact) Over
        (λ a w (i, q). (i, f a w q)) x

  pub raise_if-none :
      (e : Option Fault) (w : Worker C) → Intact w → Careful (λ _ _. e ≡ none) (raise_if e w)
  unfolding Careful Leaves raise_if
  raise_if-none none w i = (i, refl)
  raise_if-none (some e) w i = i

  pub raise_if-Careful :
      (Q : Worker C → Type 0) (e : Option Fault) (w : Worker C)
      → Intact w
      → Q w
      → Careful (λ _. Q) (raise_if e w)
  unfolding Careful Leaves raise_if
  raise_if-Careful Q none w i q = (i, q)
  raise_if-Careful Q (some e) w i q = i

-- What verification has established of a staging directory.
abbrev pub IsVerified :
    {C D : Type 0} ⦃k : Key D⦄ → Outside C D → List (ReleaseFile D) → Dict String C → Type 0
IsVerified env files staging =
    All (λ f. has_digest env f (lookup f.path staging) ≡ true) files
    × All (λ f. compiles_if_python env f staging ≡ true) files

-- The manifest is the one that GitHub sends.
abbrev pub IsOffered : {C D : Type 0} → Outside C D → Manifest D → Type 0
IsOffered {C} env m =
    (body : C) × (http_get_bytes env.size 1000000 env.manifest_reply ≡ some body)
    × (env.parse body ≡ some m)

abbrev pub Anything : {A W : Type 0} → A → W → Type 0
Anything a w = Unit

module _ {C D : Type 0} (env : Outside C D) (root : Tree C) (n : ℕ) where
  pub contact-Careful :
      (w : Worker C) → Intact root n w → Careful root n (λ m _. IsOffered env m) (contact env w)
  unfolding Careful Leaves contact Intact say
  contact-Careful w i = elim (Option-cases (http_get_bytes env.size 1000000 env.manifest_reply)) [
    | inl q ↦ rw (q, contact) i
    | inr (body, q) ↦ elim (Option-cases (env.parse body)) [
      | inl q' ↦ rw (q, contact) (rw q' i)
      | inr (m, q') ↦
          Careful-map root n (λ m' _ same. subst (IsOffered env) (sym same) (body, q, q'))
            (contact env w) (rw (q, contact) (rw q' (i, refl)))
    ]
  ]

  pub validate-Careful :
      (m : Manifest D) (w : Worker C)
      → Intact root n w
      → Careful root n (λ _ _. validate_manifest_paths m.files ≡ none) (validate env m w)
  unfolding Careful Leaves validate Intact say
  validate-Careful m w i =
      let P : Unit → Worker C → Type 0 = (λ _ _. validate_manifest_paths m.files ≡ none) in
      Careful-bind root n P P _ _
        (Careful-bind root n P P _ _ (raise_if-none root n (validate_manifest_paths m.files) _ i)
          (λ _ w i p. raise_if-Careful root n (P tt) (validate_version (version_of m)) _ i p))
        (λ _ w i p. (i, p))

  pub gate_on-Careful :
      (m : Manifest D) (blocked : List Bytes) (w : Worker C)
      → Intact root n w
      → Careful root n Anything (gate_on env m blocked w)
  unfolding Careful Leaves gate_on Intact Over park_refused say ask
  gate_on-Careful m [] w i = (i, tt)
  gate_on-Careful m (g ∷ gs) w (r, _, s, _) = (refl, s, r)

  pub preflight-Careful :
      (files : List (ReleaseFile D)) (w : Worker C)
      → Intact root n w
      → Careful root n Anything (preflight_check env files w)
  unfolding Careful Leaves preflight_check Intact say
  preflight-Careful files w i =
      let go = raise_if-Careful root n (Anything tt) in
      let bind = Careful-bind root n Anything Anything in
      bind _ _
        (bind _ _
          (bind _ _
            (bind _ _
              (bind _ _ (go (unless env.backups_writable Fault.not_writable) w i tt)
                (λ _ w i _. go (unless env.root_writable Fault.not_writable) _ i tt))
              (λ _ w i _. go (unless env.staging_writable Fault.not_writable) _ i tt))
            (λ _ w i _. go (unless (all_writable env w.root files) Fault.not_writable) _ i tt))
          (λ _ w i _. go (unless (has_space env.free files) Fault.disk_full) _ i tt))
        (λ _ w i _. (
          if_either (Intact root n) (is_some env.free) {x = say (line "free disk space" []) w}
              {y = w} i i,
          tt,
        ))

  pub download-Careful :
      (files : List (ReleaseFile D)) (w : Worker C)
      → Intact root n w
      → Careful root n Anything (download env files w)
  unfolding Careful Leaves download Intact say
  download-Careful [] w i = (i, tt)
  download-Careful (f ∷ files) w i =
      elim (Option-cases (http_get_bytes env.size (max (f.bytes + 4096) 8192) (env.serve f.path))) [
        | inl q ↦ rw (q, download) i
        | inr (body, q) ↦ rw (q, download) (download-Careful files _ i)
      ]

module _ {C D : Type 0} ⦃k : Key D⦄ (env : Outside C D) (root : Tree C) (n : ℕ) where
  pub verify_staged-Careful :
      (files : List (ReleaseFile D)) (w : Worker C)
      → Intact root n w
      → Careful root n
          (λ _ w'.
            (w'.staging ≡ w.staging)
            × All (λ f. has_digest env f (lookup f.path w.staging) ≡ true) files)
          (verify_staged env files w)
  unfolding Intact verify_staged say Careful Leaves
  verify_staged-Careful [] w i = (i, (refl, tt))
  verify_staged-Careful (f ∷ files) w i =
      elim (Bool-cases (has_digest env f (lookup f.path w.staging))) [
        | inl good ↦
            let w1 = say (line "verified" (at_path f.path ∷ [])) w in
            let later = verify_staged-Careful files w1 i in
            rw (good, verify_staged)
              (Careful-map root n (λ _ w' (s, all). (s, (refl, all))) _ later)
        | inr bad ↦ rw (bad, verify_staged) i
      ]

  pub compile_staged-Careful :
      (files : List (ReleaseFile D)) (w : Worker C)
      → Intact root n w
      → Careful root n
          (λ _ w'. (w' ≡ w) × All (λ f. compiles_if_python env f w.staging ≡ true) files)
          (compile_staged env files w)
  unfolding Intact compile_staged Careful Leaves
  compile_staged-Careful [] w i = (i, (refl, tt))
  compile_staged-Careful (f ∷ files) w i = elim (Bool-cases (compiles_if_python env f w.staging)) [
    | inl good ↦
        rw (good, compile_staged)
          (Careful-map root n (λ _ w' (s, all). (s, (refl, all))) _
            (compile_staged-Careful files w i))
    | inr bad ↦ rw (bad, compile_staged) i
  ]
