-- ===== src/Push/Table.antt =====
-- What adding, removing and sending leave in the table of subscriptions of genpi/store.py.
use generatorpi.Base.{
  if◌then◌else◌, Bool-cases, if_true, if_false, take, keep, All, ◌==◌, beq_refl, beq_eq, Bytes, ℕ,
  zero, suc, ◌≡◌, refl, sym, ap, ◌∙◌, ◌≢◌, ◌⊎◌, inl, inr, Bool, true, false, not, ◌||◌, Option,
  List, [], ◌∷◌, map, arith, bytes_key, nat_key,
}
use generatorpi.Push.Subscriptions.{
  Subscription, is_subscribed, add_subscription, remove_subscription, refresh, insert_row,
  deliver_all, is_dead, deliver_all-keep, send_push,
}

is_subscribed-take :
    (e : Bytes) (n : ℕ) (ss : List Subscription)
    → is_subscribed e (take n ss) ≡ true
    → is_subscribed e ss ≡ true
unfolding is_subscribed
is_subscribed-take e zero ss h = absurd (cc)
is_subscribed-take e (suc n) [] h = absurd (cc)
is_subscribed-take e (suc n) (s ∷ ss) h = ground (arith, is_subscribed-take e n ss)

is_subscribed-refresh :
    (e : Bytes) (new : Subscription) (ss : List Subscription)
    → is_subscribed e (refresh new ss) ≡ is_subscribed e ss
unfolding is_subscribed refresh
is_subscribed-refresh e new [] = refl
is_subscribed-refresh e new (s ∷ ss) = ground (arith, is_subscribed-refresh e new ss)

is_subscribed-insert_row :
    (e : Bytes) (new : Subscription) (ss : List Subscription)
    → is_subscribed e (insert_row new ss) ≡ (new.endpoint == e || is_subscribed e ss)
unfolding is_subscribed insert_row
is_subscribed-insert_row e new [] = refl
is_subscribed-insert_row e new (s ∷ ss) = ground (arith, is_subscribed-insert_row e new ss)

is_subscribed-keep :
    (e : Bytes) (p : Subscription → Bool) (ss : List Subscription)
    → is_subscribed e (keep p ss) ≡ true
    → is_subscribed e ss ≡ true
unfolding is_subscribed
is_subscribed-keep e p [] h = h
is_subscribed-keep e p (s ∷ ss) h = elim (Bool-cases (p s)) [
  | inl kept ↦ ground (arith, is_subscribed-keep e p ss)
  | inr gone ↦ ground (arith, is_subscribed-keep e p ss)
]

removed_is_gone :
    (e : Bytes) (ss : List Subscription) → is_subscribed e (remove_subscription e ss) ≡ false
unfolding is_subscribed remove_subscription
removed_is_gone e [] = refl
removed_is_gone e (s ∷ ss) = elim (Bool-cases (s.endpoint == e)) [
  | inl same ↦ ground (arith, removed_is_gone e ss)
  | inr apart ↦ ground (arith, removed_is_gone e ss)
]

pub is_subscribed-remove_subscription :
    (e d : Bytes) (ss : List Subscription)
    → is_subscribed e (remove_subscription d ss) ≡ true
    → (is_subscribed e ss ≡ true) × (d ≢ e)
unfolding remove_subscription
is_subscribed-remove_subscription e d ss h =
    let gone = λ (same : d ≡ e).
      let f = removed_is_gone e ss in
      let t = ap (λ x. is_subscribed e (remove_subscription x ss)) same in absurd (cc) in
    (is_subscribed-keep e (λ s. not (s.endpoint == d)) ss h, gone)

pub is_subscribed-add_subscription :
    (e : Bytes) (n : ℕ) (new : Subscription) (ss : List Subscription)
    → is_subscribed e (add_subscription n new ss) ≡ true
    → (new.endpoint ≡ e) ⊎ (is_subscribed e ss ≡ true)
unfolding add_subscription
is_subscribed-add_subscription e n new ss h =
    let table = if is_subscribed new.endpoint ss then refresh new ss else insert_row new ss in
    let t = is_subscribed-take e n table h in
    elim (Bool-cases (is_subscribed new.endpoint ss)) [
      | inl there ↦ inr (
          sym (
            ap (is_subscribed e) (if_true (is_subscribed new.endpoint ss) _ _ there)
            ∙ is_subscribed-refresh e new ss)
          ∙ t)
      | inr fresh ↦
          let u =
            sym (
              ap (is_subscribed e) (if_false (is_subscribed new.endpoint ss) _ _ fresh)
              ∙ is_subscribed-insert_row e new ss)
            ∙ t in
          elim (Bool-cases (new.endpoint == e)) [
            | inl same ↦ inl (beq_eq new.endpoint e same)
            | inr apart ↦ inr (ground arith)
          ]
    ]

is_subscribed-deliver_all :
    (e : Bytes) (deliver : Subscription → Option ℕ) (ss table : List Subscription)
    → is_subscribed e (deliver_all deliver ss table) ≡ true
    → is_subscribed e table ≡ true
is_subscribed-deliver_all e deliver ss table h =
    is_subscribed-keep e (λ r. not (is_dead deliver ss r)) table
      (sym (ap (is_subscribed e) (deliver_all-keep deliver ss table)) ∙ h)

pub All-endpoints :
    (P : Bytes → Type 0) (ss : List Subscription)
    → ((e : Bytes) → is_subscribed e ss ≡ true → P e)
    → All P (map (λ s. s.endpoint) ss)
unfolding is_subscribed
All-endpoints P [] h = tt
All-endpoints P (s ∷ ss) h = (
  h s.endpoint (ap (λ b. b || is_subscribed s.endpoint ss) (beq_refl s.endpoint)),
  All-endpoints P ss (λ e k. h e (ground arith)),
)

pub send_step :
    (e : Bytes) (available valid : Bool) (deliver : Subscription → Option ℕ)
    (ss : List Subscription)
    → is_subscribed e (send_push available valid deliver ss) ≡ true
    → is_subscribed e ss ≡ true
unfolding send_push
send_step e false valid deliver ss h = h
send_step e true false deliver ss h = h
send_step e true true deliver ss h = is_subscribed-deliver_all e deliver ss ss h
