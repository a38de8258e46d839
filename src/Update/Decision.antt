-- ===== src/Update/Decision.antt =====
-- The decision gate: `_await_decision` of genpi/updater.py and `api_update_decide` of
-- genpi/routes/update.py, whose two halves may fall anywhere in the worker's steps.
use generatorpi.Base.{
  if◌then◌else◌, ◌≡◌, refl, sym, ap, ◌∙◌, Bool, true, false, ◌||◌, Option, none, some, List, [],
  ◌∷◌, ◌++◌,
}
use generatorpi.Update.Status.{
  Status, Choice, revert, Phase, awaiting, line, update_log, Line, proceed, Prompt,
}

-- A request: it posts its choice under the lock, and then sets the event.
pub data Act : Type 0 where
  post : Choice → Act
  notify : Act

pub data Answer : Type 0 where
  nothing_pending : Answer
  accepted : Choice → Answer

abbrev pub is_awaiting : Phase → Bool
is_awaiting awaiting = true
is_awaiting _ = false

-- `proceed` where it is not allowed becomes `revert`.
unfoldable pub allowed : Bool → Choice → Choice
allowed true c = c
allowed false c = revert

-- The part of `api_update_decide` under the lock; a choice that is neither word was refused before.
unfoldable pub api_update_decide : Choice → Status → Answer × Status
unfolding allowed
api_update_decide c s = elim (is_awaiting s.phase) [
  | false ↦ (nothing_pending, s)
  | true ↦ elim (s.decide) [
    | none ↦ (nothing_pending, s)
    | some prompt ↦ (
      accepted (allowed prompt.allow_proceed c),
      record s { choice = some (allowed prompt.allow_proceed c) },
    )
  ]
]

unfoldable pub act : Act → Status → Status
unfolding api_update_decide
act (post c) s = (api_update_decide c s).1
act notify s = record s { is_set = true }

unfoldable pub act_all : List Act → Status → Status
unfolding act
act_all [] s = s
act_all (a ∷ acts) s = act_all acts (act a s)

unfoldable pub open_gate : (allow_proceed proceed_disabled : Bool) → Status → Status
open_gate allow_proceed proceed_disabled s = record s {
  phase = awaiting;
  decide = some (record { allow_proceed = allow_proceed; proceed_disabled = proceed_disabled });
  choice = none;
}

unfoldable pub or_revert : Option Choice → Choice
or_revert none = revert
or_revert (some c) = c

-- `got` is what the wait returned: whether the event was set before the ten minutes were over.
unfoldable pub read_choice : (got : Bool) → Status → Choice
unfolding or_revert
read_choice got s = if got then or_revert s.choice else revert

abbrev pub choice_line : Choice → Line
choice_line proceed = line "-> PROCEED" []
choice_line revert = line "-> REVERT" []

-- What requests do meanwhile: `early` before the event is cleared, `late` from then until the wait returns,
-- `after` from then until the lock is taken.
unfoldable pub await_decision :
    (allow_proceed proceed_disabled : Bool) (early late after : List Act) → Status → Choice × Status
unfolding open_gate act_all read_choice update_log
await_decision allow_proceed proceed_disabled early late after s =
    let opened = act_all early (open_gate allow_proceed proceed_disabled s) in
    let waited = act_all late (record opened { is_set = false }) in
    let got = waited.is_set in
    let locked = act_all after waited in
    (
      read_choice got locked,
      update_log (choice_line (read_choice got locked)) (record locked { decide = none }),
    )

-- The last choice that was posted.
unfoldable pub last_choice : List Act → Option Choice
last_choice [] = none
last_choice (post c ∷ acts) = elim (last_choice acts) [ none ↦ some c | some d ↦ some d ]
last_choice (notify ∷ acts) = last_choice acts

unfoldable pub has_notify : List Act → Bool
has_notify [] = false
has_notify (post c ∷ acts) = has_notify acts
has_notify (notify ∷ acts) = true

abbrev pub allow_last : Bool → Option Choice → Option Choice → Option Choice
allow_last allow old none = old
allow_last allow old (some c) = some (allowed allow c)

abbrev IsOpen : Bool → Status → Type 0
IsOpen allow s =
    (is_awaiting s.phase ≡ true) × ((d : Prompt) × (s.decide ≡ some d) × (d.allow_proceed ≡ allow))

decided :
    (c : Choice) (s : Status) (o : Option Prompt) (d : Prompt)
    → o ≡ some d
    → (elim o as (λ _. Answer × Status) [
      | none ↦ (nothing_pending, s)
      | some prompt ↦ (
        accepted (allowed prompt.allow_proceed c),
        record s { choice = some (allowed prompt.allow_proceed c) },
      )
    ]).1
      ≡ record s { choice = some (allowed d.allow_proceed c) }
decided c s o d e = rw e refl

post-IsOpen :
    (allow : Bool) (c : Choice) (s : Status)
    → IsOpen allow s
    → act (post c) s ≡ record s { choice = some (allowed allow c) }
unfolding act api_update_decide
post-IsOpen allow c s (w, (d, e, a)) =
    rw (w, act, api_update_decide)
      (decided c s s.decide d e ∙ ap (λ b. record s { choice = some (allowed b c) }) a)

or_true : (b : Bool) → (b || true) ≡ true
or_true true = refl
or_true false = refl

or_false : (b : Bool) → (b || false) ≡ b
or_false true = refl
or_false false = refl

allow_later :
    (allow : Bool) (c : Choice) (old o : Option Choice)
    → allow_last allow (some (allowed allow c)) o
      ≡ allow_last allow old (elim o [ none ↦ some c | some d ↦ some d ])
allow_later allow c old none = refl
allow_later allow c old (some d) = refl

last_choice-append :
    (allow : Bool) (old : Option Choice) (acts acts' : List Act)
    → allow_last allow (allow_last allow old (last_choice acts)) (last_choice acts')
      ≡ allow_last allow old (last_choice (acts ++ acts'))
unfolding last_choice
last_choice-append allow old [] acts' = refl
last_choice-append allow old (post c ∷ acts) acts' =
    ap (λ o. allow_last allow o (last_choice acts'))
      (sym (allow_later allow c old (last_choice acts)))
    ∙ last_choice-append allow (some (allowed allow c)) acts acts'
    ∙ allow_later allow c old (last_choice (acts ++ acts'))
last_choice-append allow old (notify ∷ acts) acts' = last_choice-append allow old acts acts'

act_all-IsOpen :
    (allow : Bool) (acts : List Act) (s : Status)
    → IsOpen allow s
    → ((act_all acts s).choice ≡ allow_last allow s.choice (last_choice acts))
      × ((act_all acts s).is_set ≡ (has_notify acts || s.is_set))
      × IsOpen allow (act_all acts s)
unfolding act_all last_choice has_notify act
act_all-IsOpen allow [] s o = (refl, refl, o)
act_all-IsOpen allow (post c ∷ acts) s o =
    let s' = record s { choice = some (allowed allow c) } in
    let (chosen, set, still) = act_all-IsOpen allow acts s' o in
    rw (post-IsOpen allow c s o, act_all)
      (chosen ∙ allow_later allow c s.choice (last_choice acts), set, still)
act_all-IsOpen allow (notify ∷ acts) s o =
    let (chosen, set, still) = act_all-IsOpen allow acts (record s { is_set = true }) o in
    (chosen, set ∙ or_true (has_notify acts), still)

-- The worker proceeds exactly if a request set the event after the worker cleared it and before its
-- wait returned, and the last choice that was posted from the opening of the gate until the worker took the lock
-- again is to proceed, and the gate allows that. In every other interleaving of the
-- requests it reverts.
pub await_decision_exact :
    (allow disabled : Bool) (early late after : List Act) (s : Status)
    → (await_decision allow disabled early late after s).0 ≡ (
        if has_notify late
        then or_revert (allow_last allow none (last_choice (early ++ (late ++ after))))
        else revert)
unfolding await_decision read_choice open_gate
await_decision_exact allow disabled early late after s =
    let start = open_gate allow disabled s in
    let (c1, set1, o1) = act_all-IsOpen allow early start (refl, (_, refl, refl)) in
    let cleared = record (act_all early start) { is_set = false } in
    let (c2, set2, o2) = act_all-IsOpen allow late cleared o1 in
    let waited = act_all late cleared in
    let (c3, set3, o3) = act_all-IsOpen allow after waited o2 in
    let locked = act_all after waited in
    let chosen : locked.choice ≡ allow_last allow none (last_choice (early ++ (late ++ after))) =
      c3
      ∙ ap (λ o. allow_last allow o (last_choice after)) c2
      ∙ last_choice-append allow (act_all early start).choice late after
      ∙ ap (λ o. allow_last allow o (last_choice (late ++ after))) c1
      ∙ last_choice-append allow none early (late ++ after) in
    let flag : waited.is_set ≡ has_notify late = set2 ∙ or_false (has_notify late) in
    ap (λ b. if b then or_revert locked.choice else revert) flag
    ∙ ap (λ o. if has_notify late then or_revert o else revert) chosen
