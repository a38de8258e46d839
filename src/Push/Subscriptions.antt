-- ===== src/Push/Subscriptions.antt =====
-- The table of push subscriptions of genpi/store.py and `send_push`. A table that is closed and an error of
-- the database are left out.
use generatorpi.Base.{
  leb, if◌then◌else◌, Bool-cases, if_true, if_false, length, take, keep, length-take, ◌==◌, Bytes,
  ℕ, ◌≤◌, ◌≡◌, refl, sym, ap, ◌∙◌, inl, inr, Bool, true, false, not, ◌&&◌, ◌||◌, Option, none, some,
  List, [], ◌∷◌, map, arith, bytes_key, nat_key,
}

pub record Subscription : Type 0 where
  pub endpoint : Bytes
  pub p256dh : Bytes
  pub auth : Bytes
  pub created_ts : ℕ

-- Whether the table holds the endpoint, which is its primary key.
unfoldable pub is_subscribed : Bytes → List Subscription → Bool
is_subscribed e [] = false
is_subscribed e (s ∷ ss) = s.endpoint == e || is_subscribed e ss

-- The conflict keeps the time at which the row was created.
unfoldable pub refresh : Subscription → List Subscription → List Subscription
refresh new [] = []
refresh new (s ∷ ss) =
    let rest = refresh new ss in
    if s.endpoint == new.endpoint
    then record s { p256dh = new.p256dh; auth = new.auth } ∷ rest
    else s ∷ rest

-- The rows stand in the order of `created_ts DESC`.
unfoldable pub insert_row : Subscription → List Subscription → List Subscription
insert_row new [] = new ∷ []
insert_row new (s ∷ ss) =
    let rest = insert_row new ss in
    if leb s.created_ts new.created_ts then new ∷ s ∷ ss else s ∷ rest

unfoldable pub add_subscription :
    (max_subs : ℕ) → Subscription → List Subscription → List Subscription
unfolding is_subscribed refresh insert_row
add_subscription max_subs new ss =
    take max_subs (if is_subscribed new.endpoint ss then refresh new ss else insert_row new ss)

unfoldable pub remove_subscription : Bytes → List Subscription → List Subscription
remove_subscription e ss = keep (λ s. not (s.endpoint == e)) ss

-- The status of a delivery, `none` if it raises.
unfoldable pub is_gone : Option ℕ → Bool
is_gone none = false
is_gone (some status) = status == 404 || status == 410

-- The loop over the subscriptions that were read, and the table that it leaves.
unfoldable pub deliver_all :
    (Subscription → Option ℕ) → List Subscription → List Subscription → List Subscription
unfolding is_gone remove_subscription
deliver_all deliver [] table = table
deliver_all deliver (s ∷ ss) table =
    if is_gone (deliver s)
    then deliver_all deliver ss (remove_subscription s.endpoint table)
    else deliver_all deliver ss table

unfoldable pub send_push :
    (available key_is_valid : Bool)
    → (Subscription → Option ℕ)
    → List Subscription
    → List Subscription
unfolding deliver_all
send_push available key_is_valid deliver table =
    if not available
    then table
    else if not key_is_valid
    then table
    else deliver_all deliver table table

-- The endpoints that the loop posts to.
unfoldable pub sent_to : (available key_is_valid : Bool) → List Subscription → List Bytes
sent_to available key_is_valid table =
    if not available then [] else if not key_is_valid then [] else map (λ s. s.endpoint) table

-- Whether a push service said of this endpoint that it is gone.
unfoldable pub is_dead : (Subscription → Option ℕ) → List Subscription → Subscription → Bool
unfolding is_gone
is_dead deliver [] r = false
is_dead deliver (s ∷ ss) r =
    (is_gone (deliver s) && (r.endpoint == s.endpoint)) || is_dead deliver ss r

keep-keep :
    (p q : Subscription → Bool) (xs : List Subscription)
    → keep p (keep q xs) ≡ keep (λ r. q r && p r) xs
keep-keep p q [] = refl
keep-keep p q (x ∷ xs) = elim (Bool-cases (q x)) [
  | inl e ↦ elim (Bool-cases (p x)) [
    | inl e' ↦ simp (e, e', keep-keep p q xs)
    | inr e' ↦ simp (e, e', keep-keep p q xs)
  ]
  | inr e ↦ simp (e, keep-keep p q xs)
]

keep-same :
    (p q : Subscription → Bool) (xs : List Subscription)
    → ((r : Subscription) → p r ≡ q r)
    → keep p xs ≡ keep q xs
keep-same p q [] h = refl
keep-same p q (x ∷ xs) h = simp (h x, keep-same p q xs h)

not_or : (a b : Bool) → not a && not b ≡ not (a || b)
not_or true b = refl
not_or false b = refl

keep_all : (xs : List Subscription) → keep (λ r. true) xs ≡ xs
keep_all [] = refl
keep_all (x ∷ xs) = ap (λ l. x ∷ l) (keep_all xs)

pub deliver_all-keep :
    (deliver : Subscription → Option ℕ) (ss table : List Subscription)
    → deliver_all deliver ss table ≡ keep (λ r. not (is_dead deliver ss r)) table
unfolding deliver_all is_dead remove_subscription
deliver_all-keep deliver [] table = sym (keep_all table)
deliver_all-keep deliver (s ∷ ss) table = elim (Bool-cases (is_gone (deliver s))) [
  | inl e ↦
      if_true (is_gone (deliver s)) _ _ e
      ∙ deliver_all-keep deliver ss (remove_subscription s.endpoint table)
      ∙ keep-keep (λ r. not (is_dead deliver ss r)) (λ r. not (r.endpoint == s.endpoint)) table
      ∙ keep-same _ _ table (λ r.
        not_or (r.endpoint == s.endpoint) (is_dead deliver ss r)
        ∙ ap (λ b. not ((b && (r.endpoint == s.endpoint)) || is_dead deliver ss r)) (sym e))
  | inr e ↦
      if_false (is_gone (deliver s)) _ _ e
      ∙ deliver_all-keep deliver ss table
      ∙ keep-same _ _ table
          (λ r. ap (λ b. not ((b && (r.endpoint == s.endpoint)) || is_dead deliver ss r)) (sym e))
]

-- Sending removes exactly the subscriptions whose endpoint was reported gone, whatever the other
-- deliveries did, and keeps the rest in their order.
send_push_prunes :
    (deliver : Subscription → Option ℕ) (table : List Subscription)
    → send_push true true deliver table ≡ keep (λ r. not (is_dead deliver table r)) table
unfolding send_push
send_push_prunes deliver table = deliver_all-keep deliver table table

-- The table never grows past its cap.
add_subscription_bounded :
    (max_subs : ℕ) (new : Subscription) (ss : List Subscription)
    → length (add_subscription max_subs new ss) ≤ max_subs
unfolding add_subscription
add_subscription_bounded max_subs new ss = omega (
  arith,
  length-take max_subs
      (if is_subscribed new.endpoint ss then refresh new ss else insert_row new ss),
)
