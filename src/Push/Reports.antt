-- ===== src/Push/Reports.antt =====
-- /api/client/notify-status of genpi/routes/push.py, over the event log of genpi/store.py. An event is its type
-- and its message; its time is left out.
use generatorpi.Base.{
  if◌then◌else◌, Bool-cases, if_either, if_true, if_false, take, keep, Any, append_nil, ◌==◌, Dict,
  lookup, Bytes, codes, strip, starts_with, ℕ, suc, ◌+◌, ◌≡◌, refl, sym, ap, ◌∙◌, subst, ◌⊎◌, inl,
  inr, Bool, true, false, ◌&&◌, Option, none, some, List, [], ◌∷◌, ◌++◌, arith, bytes_key, nat_key,
}
use generatorpi.Web.Origin.{starts_with-append}
use generatorpi.EventLog.Paging.{IsLog}
use generatorpi.EventLog.{is_wanted, Row, Log, record_event, get_events}
use generatorpi.Push.Requests.{Field, text, other}
use generatorpi.EventLog.Paging.{IsLog}
use generatorpi.EventLog.Newest.{evict_is_take}

abbrev pub Note : Type 0
Note = Bytes × Bytes

abbrev pub notify_messages : Dict Bytes Bytes
notify_messages =
    (
      codes "blocked",
      codes "Browser reports notifications are BLOCKED in this device's site settings",
    )
    ∷ (codes "unsupported", codes "Browser reports it does not support web push notifications")
    ∷ (
      codes "insecure",
      codes "Browser cannot enable push (insecure / non-HTTPS context on this device)",
    )
    ∷ []

-- The message with its actor, unless that is blank.
unfoldable pub attributed : (actor message : Bytes) → Bytes
attributed actor message =
    if strip actor == [] then message else message ++ (codes " (by " ++ (strip actor ++ codes ")"))

abbrev pub is_repeat : (message : Bytes) → List (Row Note) → Bool
is_repeat message [] = false
is_repeat message (r ∷ rows) = (r.content.0 == codes "browser") && starts_with message r.content.1

-- The reply 400, or 200 with `recorded`.
pub data NotifyReply : Type 0 where
  unknown_status : NotifyReply
  noted : (recorded : Bool) → NotifyReply

abbrev pub message_of : Field → Option Bytes
message_of (text s) = lookup s notify_messages
message_of (other truth) = none

-- `ok` is whether the database takes the event.
module _ (cap : ℕ) (ok : Bool) (actor : Bytes) where
  unfoldable pub note_message : Option Bytes → Log Note → NotifyReply × Log Note
  unfolding attributed record_event get_events
  note_message none log = (unknown_status, log)
  note_message (some message) log =
      if is_repeat message (get_events 1 none none log)
      then (noted false, log)
      else (noted true, record_event cap ok (codes "browser", attributed actor message) log)

  unfoldable pub api_client_notify_status : (status : Field) → Log Note → NotifyReply × Log Note
  unfolding note_message
  api_client_notify_status status log = note_message (message_of status) log

starts_with-attributed : (actor m : Bytes) → starts_with m (attributed actor m) ≡ true
unfolding attributed
starts_with-attributed actor m =
    if_either (λ t. starts_with m t ≡ true) (strip actor == [])
      (ap (starts_with m) (sym (append_nil m)) ∙ starts_with-append m [])
      (starts_with-append m (codes " (by " ++ (strip actor ++ codes ")")))

-- One of the server's own messages.
abbrev pub IsOwn : Bytes → Type 0
IsOwn m = Any (λ (x : Bytes × Bytes). m ≡ x.1) notify_messages

lookup-Any :
    (d : Dict Bytes Bytes) (s m : Bytes)
    → lookup s d ≡ some m
    → Any (λ (x : Bytes × Bytes). m ≡ x.1) d
unfolding lookup
lookup-Any [] s m h = absurd (cc)
lookup-Any ((k, v) ∷ d) s m h = elim (Bool-cases (k == s)) [
  | inl same ↦ let e : some v ≡ some m = sym (if_true (k == s) _ _ same) ∙ h in inl (ground arith)
  | inr apart ↦ inr (lookup-Any d s m (sym (if_false (k == s) _ _ apart) ∙ h))
]

message_of-IsOwn : (status : Field) (m : Bytes) → message_of status ≡ some m → IsOwn m
message_of-IsOwn (text s) m h = lookup-Any notify_messages s m h
message_of-IsOwn (other b) m h = absurd (cc)

module _ (cap : ℕ) where
  newest_recorded :
      (e : Note) (log : Log Note)
      → IsLog log
      → get_events 1 none none (record_event (suc cap) true e log)
        ≡ record { seq = log.last_seq + 1; content = e } ∷ []
  unfolding get_events is_wanted record_event IsLog
  newest_recorded e log h =
      let top : Row Note = record { seq = log.last_seq + 1; content = e } in
      ap (λ rows. take 1 (keep (is_wanted none none) rows))
        (evict_is_take (suc cap) log.last_seq e log.rows h)
      ∙ refl

  -- The effects of a report, and of a second one with the same message.
  abbrev pub Notes : (actor m : Bytes) → Log Note → NotifyReply × Log Note → Type 0
  Notes actor m log (reply, log') =
      ((log' ≡ log)
        ⊎ (log' ≡ record_event (suc cap) true (codes "browser", attributed actor m) log))
      × ((ok : Bool) (next : Bytes)
          → note_message (suc cap) ok next (some m) log' ≡ (noted false, log'))

  note_message-Notes :
      (actor m : Bytes) (log : Log Note)
      → IsLog log
      → Notes actor m log (note_message (suc cap) true actor (some m) log)
  unfolding note_message
  note_message-Notes actor m log h = elim (Bool-cases (is_repeat m (get_events 1 none none log))) [
    | inl again ↦
        subst (Notes actor m log)
          (sym (if_true (is_repeat m (get_events 1 none none log)) _ _ again))
          (inl refl, λ ok next. if_true (is_repeat m (get_events 1 none none log)) _ _ again)
    | inr fresh ↦
        let e : Note = (codes "browser", attributed actor m) in
        let log' = record_event (suc cap) true e log in
        let seen : is_repeat m (get_events 1 none none log') ≡ true =
          ap (is_repeat m) (newest_recorded e log h) ∙ starts_with-attributed actor m in
        subst (Notes actor m log)
          (sym (if_false (is_repeat m (get_events 1 none none log)) _ _ fresh))
          (inr refl, λ ok next. if_true (is_repeat m (get_events 1 none none log')) _ _ seen)
  ]

  by_message :
      (status : Field) (actor : Bytes) (log : Log Note) (o : Option Bytes)
      → IsLog log
      → message_of status ≡ o
      → (let (reply, log') = note_message (suc cap) true actor o log in
          ((reply ≡ unknown_status) × (log' ≡ log))
          ⊎ ((m : Bytes) × IsOwn m
              × ((log' ≡ log)
                  ⊎ (log' ≡ record_event (suc cap) true (codes "browser", attributed actor m) log))
              × ((ok : Bool) (next : Bytes)
                  → note_message (suc cap) ok next o log' ≡ (noted false, log'))))
  unfolding note_message
  by_message status actor log none h q = inl (refl, refl)
  by_message status actor log (some m) h q =
      let n = note_message-Notes actor m log h in inr (m, message_of-IsOwn status m q, n.0, n.1)

  -- A report has no effect but one event with a message of the server's own, and the same report again, by
  -- anyone, has none: an unknown status is refused and leaves the log, any other is answered with
  -- 200, after which the log is as it was or has the event of that message with the reporter's name, and
  -- the same status leaves it alone then, whether or not the database would take a write. The conditions
  -- are that the database takes the first event, that the log keeps at least one row, and that its
  -- numbers are contiguous, which every write keeps.
  notify_status_once :
      (status : Field) (actor : Bytes) (log : Log Note)
      → IsLog log
      → (let (reply, log') = api_client_notify_status (suc cap) true actor status log in
          ((reply ≡ unknown_status) × (log' ≡ log))
          ⊎ ((m : Bytes) × IsOwn m
              × ((log' ≡ log)
                  ⊎ (log' ≡ record_event (suc cap) true (codes "browser", attributed actor m) log))
              × ((ok : Bool) (next : Bytes)
                  → api_client_notify_status (suc cap) ok next status log' ≡ (noted false, log'))))
  unfolding api_client_notify_status
  notify_status_once status actor log h = by_message status actor log (message_of status) h refl
