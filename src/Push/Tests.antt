-- ===== src/Push/Tests.antt =====
-- Two polls with a key that is replaced, and endpoints that are offered.
use generatorpi.Base.{
  if◌then◌else◌, ◌==◌, lookup, Bytes, codes, ◌≡◌, refl, Bool, true, false, none, some, [], ◌∷◌,
  bytes_key,
}
use generatorpi.Push.{Setup, push_status, poll_all, no_cache, invalid_keys}
use generatorpi.Push.Requests.{
  text, Keys, object, no_object, server_error, PushCall, subscribe, unsubscribe, api_push_subscribe,
  as_text, push_run,
}
use generatorpi.Push.Subscriptions.{sent_to, is_subscribed}
use generatorpi.EventLog.{Log}
use generatorpi.Push.Reports.{Note, api_client_notify_status}
use generatorpi.Push.Endpoint.{Address, Network, refused, non_routable, push_endpoint_error}

-- A key is configured, then replaced by one that does not parse.
abbrev good : Setup
good = record { available = true; private_key = 7 ∷ []; public_key = 1 ∷ [] }

abbrev edited : Setup
edited = record good { private_key = 8 ∷ [] }

edited-status :
    (push_status (λ k. k == (7 ∷ [])) edited (poll_all (λ k. k == (7 ∷ [])) (good ∷ []) no_cache)).0
    ≡ (false, invalid_keys)
unfolding push_status poll_all
edited-status = refl

abbrev public : Address
public = record {
  is_private = false;
  is_loopback = false;
  is_link_local = false;
  is_reserved = false;
}

abbrev internal : Address
internal = record public { is_private = true }

-- The name resolves to one address, and to a second one inside where `inside` says so.
abbrev network : (inside : Bool) → Network
network inside = record {
  urlparse = λ e. some (codes "https", some (codes "push"));
  ip_address = λ a.
      if a == codes "8.8.8.8"
      then some public
      else if a == codes "10.0.0.1"
      then some internal
      else none;
  getaddrinfo = λ h. some (codes "8.8.8.8" ∷ (if inside then codes "10.0.0.1" ∷ [] else []));
}

inside_refused :
    push_endpoint_error (network true) (some (codes "https://push")) ≡ refused non_routable
unfolding push_endpoint_error
inside_refused = refl

abbrev offer : (keys : Keys) → PushCall
offer keys =
    subscribe (network false)
      (some (record { endpoint = text (codes "https://push"); keys = keys })) 100

abbrev keys : Keys
keys = object (text (codes "p")) (text (codes "a"))

-- A list or a text in the place of the keys ends in an internal error.
keys-list :
    api_push_subscribe as_text 5
      (network false)
      (some (record { endpoint = text (codes "https://push"); keys = no_object true }))
      100
      []
    ≡ (server_error, [])
unfolding api_push_subscribe
keys-list = refl

sent_once :
    sent_to true true (
      push_run as_text 5
        (offer keys ∷ unsubscribe (text (codes "https://pull")) ∷ offer keys ∷ [])
        [])
    ≡ codes "https://push" ∷ []
unfolding sent_to push_run is_subscribed
sent_once = refl

abbrev started : Log Note
started = record {
  rows = record { seq = 1; content = (codes "startup", codes "up") } ∷ [];
  last_seq = 1;
}

-- Two reports by turns are both recorded each time.
by_turns :
    (let once = λ (status : Bytes) (log : Log Note).
        (api_client_notify_status 500 true [] (text status) log).1 in
      (once (codes "blocked") (once (codes "insecure") (once (codes "blocked") started))).last_seq
      ≡ 4)
unfolding api_client_notify_status lookup
by_turns = refl
