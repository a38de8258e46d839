-- ===== src/Web/Audit.antt =====
-- The audit line of genpi/app.py, as the log feed of genpi/routes/core.py reads it.
use generatorpi.Base.{
  ltb, if_true, if_false, All, Any, append_assoc, ◌==◌, Bytes, codes, is_space, ℕ, suc, ◌+◌, ◌-◌,
  ◌/◌, ◌%◌, ◌≤◌, ◌<◌, ◌≡◌, refl, ap, ◌∙◌, inl, inr, Bool, true, false, ◌&&◌, Option, none, some, [],
  ◌∷◌, ◌++◌, arith, bytes_key, nat_key,
}
use generatorpi.Web.{show_number, digits_before, audit_line}
use generatorpi.Logs.Routine.{
  after_text, after_method, methods, skip_word, status_at, access_at, access_line, after_path,
  status_behind, is_routine_http,
}
use generatorpi.Release.{is_digit}

abbrev pub HasNoArrow : Bytes → Type 0
HasNoArrow s = All (λ c. (c == b'>') ≡ false) s

abbrev pub HasNoSpace : Bytes → Type 0
HasNoSpace s = All (λ c. is_space c ≡ false) s

abbrev arrow : Bytes
arrow = codes " -> "

-- The arrow is not found where it only begins to be read too early.
no_early_arrow :
    (c : ℕ) (p r : Bytes) → HasNoArrow (c ∷ p) → after_text arrow ((c ∷ p) ++ (arrow ++ r)) ≡ none
unfolding after_text
no_early_arrow c [] r h = ground arith
no_early_arrow c (d ∷ []) r h = ground arith
no_early_arrow c (d ∷ e ∷ p) r h = ground arith

abbrev behind_arrow : Option Bytes → Option ℕ
behind_arrow o = elim o as (λ _. Option ℕ) [ none ↦ none | some r ↦ status_behind r ]

abbrev or_later : Option ℕ → Option ℕ → Option ℕ
or_later o rest = elim o as (λ _. Option ℕ) [ some n ↦ some n | none ↦ rest ]

after_own : (r : Bytes) → access_at (arrow ++ r) ≡ status_behind r
unfolding access_at
after_own r = refl

access_line-skip :
    (p r : Bytes) (n : ℕ)
    → HasNoArrow p
    → status_behind r ≡ some n
    → access_line (p ++ (arrow ++ r)) ≡ some n
unfolding access_line access_at
access_line-skip [] r n h e =
    ap (λ o. or_later o (access_line (codes "-> " ++ r))) (after_own r ∙ e)
access_line-skip (c ∷ p) r n h e =
    let rest = access_line (p ++ (arrow ++ r)) in
    ap (λ o. or_later (behind_arrow o) rest) (no_early_arrow c p r h) ∙ access_line-skip p r n h.1 e

skip_word-path : (p r : Bytes) → HasNoSpace p → skip_word (p ++ (b' ' ∷ r)) ≡ b' ' ∷ r
unfolding skip_word
skip_word-path [] r h = refl
skip_word-path (c ∷ p) r h = rw h.0 (skip_word-path p r h.1)

after_path-found :
    (c : ℕ) (p r : Bytes)
    → HasNoSpace (c ∷ p)
    → after_path ((c ∷ p) ++ (b' ' ∷ r)) ≡ some (b' ' ∷ r)
unfolding after_path
after_path-found c p r h = rw h.0 (ap some (skip_word-path p r h.1))

after_method-found :
    (m r : Bytes) → Any (λ x. m ≡ x) methods → after_method methods (m ++ (b' ' ∷ r)) ≡ some r
unfolding after_method
after_method-found m r h =
    let found = λ (x : Bytes) (e : m ≡ x) (q : after_method methods (x ++ (b' ' ∷ r)) ≡ some r).
      ap (λ t. after_method methods (t ++ (b' ' ∷ r))) e ∙ q in
    elim h [
      | inl e ↦ found _ e refl
      | inr h ↦ elim h [
        | inl e ↦ found _ e refl
        | inr h ↦ elim h [
          | inl e ↦ found _ e refl
          | inr h ↦ elim h [
            | inl e ↦ found _ e refl
            | inr h ↦ elim h [
              | inl e ↦ found _ e refl
              | inr h ↦ elim h [
                | inl e ↦ found _ e refl
                | inr h ↦ elim h [ inl e ↦ found _ e refl | inr h ↦ absurd h ]
              ]
            ]
          ]
        ]
      ]
    ]

digits-step :
    (rounds n : ℕ) (s : Bytes)
    → 10 ≤ n
    → digits_before (suc rounds) n s ≡ digits_before rounds (n / 10) ((b'0' + n % 10) ∷ s)
unfolding digits_before
digits-step rounds n s h = if_false (n / 10 == 0) _ _ (ground arith)

digits-last :
    (rounds n : ℕ) (s : Bytes) → n < 10 → digits_before (suc rounds) n s ≡ (b'0' + n % 10) ∷ s
unfolding digits_before
digits-last rounds n s h = if_true (n / 10 == 0) _ _ (ground arith)

digits-of_status :
    (n : ℕ)
    → 100 ≤ n
    → n < 1000
    → show_number n ≡ (b'0' + n / 10 / 10 % 10) ∷ (b'0' + n / 10 % 10) ∷ (b'0' + n % 10) ∷ []
unfolding show_number
digits-of_status n h k =
    let rounds : suc n ≡ suc (suc (suc (n - 2))) = omega arith in
    ap (λ f. digits_before f n []) rounds
    ∙ digits-step (suc (suc (n - 2))) n [] (omega arith)
    ∙ digits-step (suc (n - 2)) (n / 10) _ (omega arith)
    ∙ digits-last (n - 2) (n / 10 / 10) _ (omega arith)

digit_is_digit : (d : ℕ) → d < 10 → is_digit (b'0' + d) ≡ true
digit_is_digit d h = ground arith

all_true : (a b c : Bool) → a ≡ true → b ≡ true → c ≡ true → (a && b && c && true) ≡ true
all_true true true true p q r = refl
all_true true true false p q r = absurd (cc)
all_true true false c p q r = absurd (cc)
all_true false b c p q r = absurd (cc)

status_at-shown : (n : ℕ) → 100 ≤ n → n < 1000 → status_at (b' ' ∷ show_number n) ≡ some n
unfolding status_at
status_at-shown n h k =
    ap (λ t. status_at (b' ' ∷ t)) (digits-of_status n h k)
    ∙ if_true _ _ _ (
        all_true _ _ _ (digit_is_digit (n / 10 / 10 % 10) (omega arith))
          (digit_is_digit (n / 10 % 10) (omega arith)) (digit_is_digit (n % 10) (omega arith)))
    ∙ ap some (omega arith)

abbrev routine : Option ℕ → Bool
routine o = elim o as (λ _. Bool) [ none ↦ false | some n ↦ ltb n 400 ]

status_behind-line :
    (method : Bytes) (c : ℕ) (path : Bytes) (status : ℕ)
    → Any (λ x. method ≡ x) methods
    → HasNoSpace (c ∷ path)
    → 100 ≤ status
    → status < 1000
    → status_behind (method ++ (codes " " ++ ((c ∷ path) ++ (codes " " ++ show_number status))))
      ≡ some status
unfolding status_behind
status_behind-line method c path status m p low high =
    let line = (c ∷ path) ++ (b' ' ∷ show_number status) in
    let next = λ (o : Option Bytes). elim o as (λ _. Option ℕ) [
      | none ↦ none
      | some r ↦ elim (after_path r) as (λ _. Option ℕ) [ none ↦ none | some q ↦ status_at q ]
    ] in
    let final =
      λ (o : Option Bytes). elim o as (λ _. Option ℕ) [ none ↦ none | some q ↦ status_at q ] in
    ap next (after_method-found method line m)
    ∙ ap final (after_path-found c path (show_number status) p)
    ∙ status_at-shown status low high

-- The filter of the log feed takes an audit line for routine exactly if the request succeeded: a line
-- with a status below 400 is one, and a line with a status of 400 or more is none. The conditions are that
-- the stamp, the caller and the address hold no arrow head, that the method is one that the filter
-- knows, that the path has no white space and is not empty, and that the status has three digits.
pub is_routine_http-audit_line :
    (stamp caller address method : Bytes) (c : ℕ) (path : Bytes) (status : ℕ)
    → HasNoArrow (stamp ++ (caller ++ (codes "@" ++ address)))
    → Any (λ x. method ≡ x) methods
    → HasNoSpace (c ∷ path)
    → 100 ≤ status
    → status < 1000
    → is_routine_http (stamp ++ audit_line caller address method (c ∷ path) status) ≡ ltb status 400
unfolding is_routine_http audit_line
is_routine_http-audit_line stamp caller address method c path status a m p low high =
    let behind = method ++ (codes " " ++ ((c ∷ path) ++ (codes " " ++ show_number status))) in
    let line : stamp ++ (caller ++ (codes "@" ++ (address ++ (arrow ++ behind))))
        ≡ (stamp ++ (caller ++ (codes "@" ++ address))) ++ (arrow ++ behind) =
      simp append_assoc in
    ap routine (
      ap access_line line
      ∙ access_line-skip (stamp ++ (caller ++ (codes "@" ++ address))) behind status a
          (status_behind-line method c path status m p low high))
