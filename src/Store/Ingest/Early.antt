-- ===== src/Store/Ingest/Early.antt =====
-- internal/store/postgres.go: EnsureInitialAttempt and the schedule of a notification.
use notification_service.Base.{◌≡◌, String, true, none, some, [], ◌∷◌, ◌++◌, arith}
use notification_service.Base.Table.{find, find-insert_self}
use notification_service.Store.Status.{is_intent_pending}
use notification_service.Store.Model.{Time, Notification, DeliveryAttempt, DispatchIntent, Database}
use notification_service.Store.Action.{ok}
use notification_service.Store.Rows.{find_notification}
use notification_service.Store.Attempts.Transitions.{recalculate-ok, recalculate-frame}
use notification_service.Store.Outbox.{
  new_intent, create_dispatch_intent, find_intent, find_intent_of,
}
use notification_service.Store.Ingest.{has_number}
use notification_service.Store.Ingest.Recovery.{
  intent_for, insert_first, ensure_all, ensure_initial_attempt,
}

module _ (now : Time) (n : Notification) (a : DeliveryAttempt) (d : Database)
    (notification_id channel attempt_id intent_id : String)
    (found : find_notification d notification_id ≡ some n)
    (first : find (has_number notification_id channel 1) d.attempts ≡ some a)
    (none_of : find_intent_of d a.id ≡ none) (none_id : find_intent d intent_id ≡ none) where
  abbrev made : DispatchIntent
  made = new_intent now (intent_for intent_id n.tenant_id a)

  ensure_all-early :
      ensure_all now notification_id channel attempt_id intent_id d
      ≡ (record d { outbox = d.outbox ++ made ∷ [] }, ok (a, made))
  unfolding ensure_all insert_first create_dispatch_intent
  ensure_all-early = ground (arith, found, first, none_of, none_id)

-- Ensuring the initial attempt of a notification whose first attempt on the channel exists, was
-- not enqueued and has no intent, under a new intent id, leaves the attempt with an intent that is
-- pending, whatever the notification's schedule is and whether it was cancelled.
pub ensure_initial_attempt-early :
    (now : Time) (n : Notification) (a : DeliveryAttempt) (d : Database)
    → (notification_id channel attempt_id intent_id : String)
    → find_notification d notification_id ≡ some n
    → find (has_number notification_id channel 1) d.attempts ≡ some a
    → a.dispatch_enqueued_at ≡ none
    → find_intent_of d a.id ≡ none
    → find_intent d intent_id ≡ none
    → let (d', r) = ensure_initial_attempt now notification_id channel attempt_id intent_id d in
      (i : DispatchIntent) × (r ≡ ok (a, i))
      × (find_intent_of d' a.id ≡ some i)
      × (is_intent_pending i.status ≡ true)
unfolding ensure_initial_attempt
ensure_initial_attempt-early now n a d notification_id channel attempt_id intent_id found first
      waits none_of none_id =
    let i =
      made now n a d notification_id channel attempt_id intent_id found first none_of none_id in
    let e : Database = record d { outbox = d.outbox ++ i ∷ [] } in
    let ensured =
      ensure_all-early now n a d notification_id channel attempt_id intent_id found first none_of
        none_id in
    let fine = recalculate-ok now notification_id e n found in
    let frame = recalculate-frame now notification_id e in
    let there : find_intent_of e a.id ≡ some i =
      find-insert_self (λ j. j.attempt_id) d.outbox i none_of in
    (
      i,
      ground (arith, ensured, fine),
      ground (arith, ensured, fine, frame, there),
      ground (arith, waits),
    )
