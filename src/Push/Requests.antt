-- ===== src/Push/Requests.antt =====
-- The bodies of /api/push/subscribe, /api/push/unsubscribe and /api/push/test of genpi/routes/push.py, over the
-- table of subscriptions. `bound` is what the column of a text holds for a value that sqlite is given, `none`
-- where it refuses to bind it. The count in a reply and the audit lines are left out.
use generatorpi.Base.{
  if◌then◌else◌, length, ◌==◌, Bytes, ℕ, Bool, true, false, not, ◌&&◌, Option, none, some, List, [],
  ◌∷◌, bytes_key, nat_key,
}
use generatorpi.Push.Subscriptions.{Subscription, add_subscription, remove_subscription, send_push}
use generatorpi.Push.Endpoint.{Network, push_endpoint_error, Verdict, accepted, refused, raised}

-- A value of the body: a text, or anything else with its truth value; what is missing is false.
pub data Field : Type 0 where
  text : Bytes → Field
  other : (truth : Bool) → Field

-- `keys`: an object, or anything else with its truth value.
pub data Keys : Type 0 where
  object : (p256dh auth : Field) → Keys
  no_object : (truth : Bool) → Keys

pub record Body : Type 0 where
  pub endpoint : Field
  pub keys : Keys

pub data PushReply : Type 0 where
  done : PushReply
  bad_request : PushReply
  server_error : PushReply
  no_push : PushReply
  no_subscriptions : PushReply

abbrev pub has_value : Field → Bool
has_value (text s) = not (s == [])
has_value (other truth) = truth

abbrev pub as_text : Field → Option Bytes
as_text (text s) = some s
as_text (other truth) = none

-- `keys.get("p256dh")` and `keys.get("auth")`, where the exception of a value with no `get` is `none`.
unfoldable pub given_keys : Keys → Option (Field × Field)
given_keys (object p256dh auth) = some (p256dh, auth)
given_keys (no_object true) = none
given_keys (no_object false) = some (other false, other false)

module _ (bound : Field → Option Bytes) (max_subs : ℕ) where
  -- A failed write is swallowed.
  unfoldable pub store_row :
      (endpoint : Bytes) (p256dh auth : Option Bytes) (now : ℕ)
      → List Subscription
      → List Subscription
  unfolding add_subscription
  store_row endpoint none auth now ss = ss
  store_row endpoint (some p) none now ss = ss
  store_row endpoint (some p) (some a) now ss =
      add_subscription max_subs
        (record { endpoint = endpoint; p256dh = p; auth = a; created_ts = now }) ss

  unfoldable pub store_checked :
      (verdict : Verdict) (endpoint : Option Bytes) (p256dh auth : Field) (now : ℕ)
      → List Subscription
      → PushReply × List Subscription
  unfolding store_row
  store_checked (refused e) endpoint p256dh auth now ss = (bad_request, ss)
  store_checked raised endpoint p256dh auth now ss = (server_error, ss)
  store_checked accepted none p256dh auth now ss = (bad_request, ss)
  store_checked accepted (some e) p256dh auth now ss =
      (done, store_row e (bound p256dh) (bound auth) now ss)

  unfoldable pub subscribe_fields :
      (net : Network) (endpoint : Field) (keys : Option (Field × Field)) (now : ℕ)
      → List Subscription
      → PushReply × List Subscription
  unfolding store_checked push_endpoint_error
  subscribe_fields net endpoint none now ss = (server_error, ss)
  subscribe_fields net endpoint (some (p256dh, auth)) now ss =
      if not (has_value endpoint && has_value p256dh && has_value auth)
      then (bad_request, ss)
      else store_checked (push_endpoint_error net (as_text endpoint)) (as_text endpoint) p256dh auth
          now ss

  -- A body that is no object is `none`.
  unfoldable pub api_push_subscribe :
      Network → Option Body → (now : ℕ) → List Subscription → PushReply × List Subscription
  unfolding subscribe_fields given_keys
  api_push_subscribe net none now ss = (bad_request, ss)
  api_push_subscribe net (some b) now ss =
      subscribe_fields net b.endpoint (given_keys b.keys) now ss

  abbrev pub remove_bound : Option Bytes → List Subscription → List Subscription
  remove_bound none ss = ss
  remove_bound (some e) ss = remove_subscription e ss

  unfoldable pub api_push_unsubscribe :
      (endpoint : Field) → List Subscription → PushReply × List Subscription
  unfolding remove_subscription
  api_push_unsubscribe endpoint ss =
      if has_value endpoint then (done, remove_bound (bound endpoint) ss) else (bad_request, ss)

-- The reply, and whether a notification was sent.
unfoldable pub api_push_test : (available : Bool) → List Subscription → PushReply × Bool
api_push_test available ss =
    if not available
    then (no_push, false)
    else if length ss == 0
    then (no_subscriptions, false)
    else (done, true)

-- What may happen to the table: the requests, and a notification that is sent.
pub data PushCall : Type 0 where
  subscribe : Network → Option Body → (now : ℕ) → PushCall
  unsubscribe : (endpoint : Field) → PushCall
  send : (available key_is_valid : Bool) → (deliver : Subscription → Option ℕ) → PushCall

module _ (bound : Field → Option Bytes) (max_subs : ℕ) where
  unfoldable pub push_step : PushCall → List Subscription → List Subscription
  unfolding api_push_subscribe api_push_unsubscribe send_push
  push_step (subscribe net body now) ss = (api_push_subscribe bound max_subs net body now ss).1
  push_step (unsubscribe endpoint) ss = (api_push_unsubscribe bound max_subs endpoint ss).1
  push_step (send available key_is_valid deliver) ss = send_push available key_is_valid deliver ss

  unfoldable pub push_run : List PushCall → List Subscription → List Subscription
  unfolding push_step
  push_run [] ss = ss
  push_run (c ∷ calls) ss = push_run calls (push_step c ss)
