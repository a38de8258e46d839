-- ===== src/Release/Gate.antt =====
-- What the gate of genpi/updater.py refuses, and which note it shows.
use generatorpi.Base.{
  Bool-cases, Option-cases, if_true, if_false, All, Any, Any-map, ◌==◌, beq_eq, Dict, lookup,
  insert, lookup-insert, Bytes, strip, last, member, distinct, member-distinct, member-sorted,
  All-of-members, All-member, last-none, last-All, sorted-Sorted, last-Sorted, ◌≡◌, refl, sym, ap,
  ◌∙◌, subst, ◌≢◌, ◌⊎◌, inl, inr, true, false, some, List, [], ◌∷◌, arith, bytes_key, nat_key,
}
use generatorpi.Release.{
  gate_ver, is_crossed, crossed, messages, is_older, Incompatible, gates_of, blocking, note_of,
  notes,
}
use generatorpi.Release.Order.{is_older_asym, is_older_neg_trans}

module _ (installed latest : Bytes) where
  All-crossed {κ} :
      (Q : Bytes → Type κ) (gates : Dict Bytes Bytes)
      → All Q (crossed installed latest gates)
      → All (λ kv. (is_crossed installed latest (gate_ver kv.0) ≡ false) ⊎ Q (gate_ver kv.0)) gates
  unfolding crossed
  All-crossed Q [] h = tt
  All-crossed Q ((k, v) ∷ gates) h = elim (Bool-cases (is_crossed installed latest (gate_ver k))) [
    | inl e ↦
        let h' : All Q (gate_ver k ∷ crossed installed latest gates) =
          subst (All Q) (if_true _ _ _ e) h in
        (inr h'.0, All-crossed Q gates h'.1)
    | inr e ↦ (inl e, All-crossed Q gates (subst (All Q) (if_false _ _ _ e) h))
  ]

  crossed-All :
      (gates : Dict Bytes Bytes)
      → All (λ g. is_crossed installed latest g ≡ true) (crossed installed latest gates)
  unfolding crossed
  crossed-All [] = tt
  crossed-All ((k, v) ∷ gates) = ground (arith, crossed-All gates)

  crossed-empty :
      (gates : Dict Bytes Bytes)
      → All (λ kv. is_crossed installed latest (gate_ver kv.0) ≡ false) gates
      → crossed installed latest gates ≡ []
  unfolding crossed
  crossed-empty [] h = refl
  crossed-empty ((k, v) ∷ gates) h = ground (arith, crossed-empty gates h.1)

  crossed-other :
      (g : Bytes) (gates : Dict Bytes Bytes)
      → All (λ kv. (gate_ver kv.0 == g) ≡ false) gates
      → member g (crossed installed latest gates) ≡ false
  unfolding crossed
  crossed-other g [] h = refl
  crossed-other g ((k, v) ∷ gates) h = ground (arith, crossed-other g gates h.1)

abbrev Says : Bytes → Dict Bytes Bytes → Bytes × Bytes → Type 0
Says g d kv = (gate_ver kv.0 ≡ g) × (lookup g d ≡ some (strip kv.1))

messages-Says :
    (g : Bytes) (gates d : Dict Bytes Bytes)
    → Any (Says g (messages gates d)) gates
      ⊎ (All (λ kv. (gate_ver kv.0 == g) ≡ false) gates
          × (lookup g (messages gates d) ≡ lookup g d))
unfolding messages
messages-Says g [] d = inr (tt, refl)
messages-Says g ((k, v) ∷ gates) d =
    elim (messages-Says g gates (insert (gate_ver k) (strip v) d)) [
      | inl found ↦ inl (inr found)
      | inr (apart, kept) ↦
          let written = lookup-insert g (gate_ver k) (strip v) d in
          elim (Bool-cases (gate_ver k == g)) [
            | inl same ↦ inl (inl (beq_eq (gate_ver k) g same, kept ∙ written ∙ if_true _ _ _ same))
            | inr other ↦ inr ((other, apart), kept ∙ written ∙ if_false _ _ _ other)
          ]
    ]

pub Highest :
    (List Bytes → List Bytes) → (installed latest : Bytes) → Incompatible → Bytes × Bytes → Type 0
Highest iterate installed latest i kv =
    (is_crossed installed latest (gate_ver kv.0) ≡ true)
    × (notes (blocking iterate installed latest i) i ≡ note_of (some (strip kv.1)))
    × All
        (λ other.
          (is_crossed installed latest (gate_ver other.0) ≡ false)
          ⊎ (is_older (gate_ver kv.0) (gate_ver other.0) ≡ false))
        (gates_of i)

module _ (iterate : List Bytes → List Bytes)
    (same_members : (g : Bytes) (gs : List Bytes) → member g (iterate gs) ≡ member g gs)
    (installed latest : Bytes) (i : Incompatible) where
  pub member-blocking :
      (g : Bytes)
      → member g (blocking iterate installed latest i)
        ≡ member g (crossed installed latest (gates_of i))
  unfolding blocking
  member-blocking g =
      let gs = crossed installed latest (gates_of i) in
      member-sorted is_older g (iterate (distinct gs))
      ∙ same_members g (distinct gs)
      ∙ member-distinct g gs

  All-blocking {κ} :
      (Q : Bytes → Type κ)
      → All Q (blocking iterate installed latest i)
      → All
          (λ kv. (is_crossed installed latest (gate_ver kv.0) ≡ false) ⊎ Q (gate_ver kv.0))
          (gates_of i)
  All-blocking Q h = All-crossed installed latest Q (gates_of i) (
      All-of-members Q (crossed installed latest (gates_of i))
        (λ g m. All-member Q g (blocking iterate installed latest i) h (member-blocking g ∙ m)))

  blocked_top :
      (g : Bytes)
      → last (blocking iterate installed latest i) ≡ some g
      → All (λ y. is_older g y ≡ false) (blocking iterate installed latest i)
  unfolding blocking
  blocked_top g q =
      last-Sorted is_older is_older_asym is_older_neg_trans _ g
        (sorted-Sorted is_older is_older_asym is_older_neg_trans
          (iterate (distinct (crossed installed latest (gates_of i)))))
        q

  notes_of_last :
      (g : Bytes)
      → last (blocking iterate installed latest i) ≡ some g
      → notes (blocking iterate installed latest i) i
        ≡ note_of (lookup g (messages (gates_of i) []))
  unfolding notes
  notes_of_last g q = rw (q, notes) refl

  top_entry :
      (g : Bytes)
      → last (blocking iterate installed latest i) ≡ some g
      → Any (Highest iterate installed latest i) (gates_of i)
  unfolding Highest
  top_entry g q =
      let blocked = blocking iterate installed latest i in
      let gates = gates_of i in
      let among : member g blocked ≡ true =
        last-All (λ x. member x blocked ≡ true) blocked g
          (All-of-members (λ x. member x blocked ≡ true) blocked (λ x m. m)) q in
      let crosses : member g (crossed installed latest gates) ≡ true =
        sym (member-blocking g) ∙ among in
      let first : is_crossed installed latest g ≡ true =
        All-member (λ x. is_crossed installed latest x ≡ true) g _
          (crossed-All installed latest gates) crosses in
      let top = All-blocking (λ y. is_older g y ≡ false) (blocked_top g q) in
      elim (messages-Says g gates []) [
        | inl found ↦
            Any-map (λ kv (e, says). rw e (first, notes_of_last g q ∙ ap note_of says, top)) gates
              found
        | inr (apart, _) ↦
            let gone = crossed-other installed latest g gates apart in absurd (ground arith)
      ]

  -- If the gate blocks, then it shows the reason of an entry that blocks, and no entry that blocks has a
  -- higher version. The condition is that a set iterates over its own elements.
  notes-blocking :
      blocking iterate installed latest i ≢ []
      → Any (Highest iterate installed latest i) (gates_of i)
  notes-blocking h = elim (Option-cases (last (blocking iterate installed latest i))) [
    | inl q ↦ absurd (h (last-none (blocking iterate installed latest i) q))
    | inr (g, q) ↦ top_entry g q
  ]
