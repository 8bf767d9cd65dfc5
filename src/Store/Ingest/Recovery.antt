-- ===== src/Store/Ingest/Recovery.antt =====
-- internal/store/postgres.go: the initial attempt of a notification, repaired when a request
-- is repeated.
use notification_service.Base.{
  String, none, some, [], ◌∷◌, ◌++◌, map, is_some, ◌≡◌, refl, arith, if◌then◌else◌,
}
use notification_service.Base.Table.{find}
use notification_service.Store.Status.{AttemptStatus}
use notification_service.Store.Attempts.Transitions.{
  recalculate-ok, recalculate-frame, recalculate-unstamped, unstamped,
}
use notification_service.Store.Model.{
  Time, Notification, DeliveryAttempt, DispatchIntent, Database, conflict,
}
use notification_service.Store.Action.{
  Action, ok, err, pure, query, ◌>>=◌, ◌>>◌, transaction, or_not_found,
}
use notification_service.Store.Rows.{find_attempt, find_notification, get_notification_by_id}
use notification_service.Store.Attempts.{recalculate_notification_status}
use notification_service.Store.Outbox.{
  CreateDispatchIntentParams, create_dispatch_intent, published_intent_status, find_intent_of,
}
use notification_service.Store.Ingest.{CreateDeliveryAttemptParams, new_attempt, has_number}

abbrev pub first_params : String → String → String → CreateDeliveryAttemptParams
first_params notification_id channel attempt_id = record {
  id = attempt_id;
  notification_id = notification_id;
  channel = channel;
  attempt_number = 1;
  status = AttemptStatus.pending;
  next_retry_at = none;
  last_error = none;
  dispatch_enqueued_at = none;
  enqueue_kind = "initial";
}

-- INSERT ... ON CONFLICT (notification_id, channel, attempt_number) DO NOTHING.
unfoldable pub insert_first : Time → String → String → String → Action (Unit {0})
insert_first now notification_id channel attempt_id d =
    let a = new_attempt now (first_params notification_id channel attempt_id) in
    if is_some (find (has_number notification_id channel 1) d.attempts)
    then (d, ok tt)
    else if is_some (find_attempt d attempt_id)
    then (d, err conflict)
    else (record d { attempts = d.attempts ++ a ∷ [] }, ok tt)

abbrev pub intent_for : String → String → DeliveryAttempt → CreateDispatchIntentParams
intent_for intent_id tenant_id a = record {
  id = intent_id;
  notification_id = a.notification_id;
  attempt_id = a.id;
  tenant_id = tenant_id;
  channel = a.channel;
  source = "initial";
  status = some (published_intent_status a.dispatch_enqueued_at);
  published_at = a.dispatch_enqueued_at;
}

-- The statements of the transaction.
unfoldable pub ensure_all :
    Time → String → String → String → String → Action (DeliveryAttempt × DispatchIntent)
ensure_all now notification_id channel attempt_id intent_id = do
  n ← query (get_notification_by_id notification_id)
  insert_first now notification_id channel attempt_id
  a ← query (λ d. or_not_found (find (has_number notification_id channel 1) d.attempts))
  i ← create_dispatch_intent now (intent_for intent_id n.tenant_id a)
  pure (a, i)

unfoldable pub ensure_initial_attempt :
    Time → String → String → String → String → Action (DeliveryAttempt × DispatchIntent)
ensure_initial_attempt now notification_id channel attempt_id intent_id = do
  made ← transaction (ensure_all now notification_id channel attempt_id intent_id)
  recalculate_notification_status now notification_id
  pure made

ensure_all-there :
    (now : Time) (n : Notification) (a : DeliveryAttempt) (i : DispatchIntent) (d : Database)
    → (notification_id channel attempt_id intent_id : String)
    → find_notification d notification_id ≡ some n
    → find (has_number notification_id channel 1) d.attempts ≡ some a
    → find_intent_of d a.id ≡ some i
    → ensure_all now notification_id channel attempt_id intent_id d ≡ (d, ok (a, i))
unfolding ensure_all insert_first create_dispatch_intent
ensure_all-there now n a i d notification_id channel attempt_id intent_id found first intended =
    ground (arith, found, first, intended)

-- Ensuring the initial attempt of a notification whose first attempt on the channel and that
-- attempt's intent exist succeeds, gives these two, and changes no table but that of the
-- notifications, whatever new identifiers it is given.
pub ensure_initial_attempt-there :
    (now : Time) (n : Notification) (a : DeliveryAttempt) (i : DispatchIntent) (d : Database)
    → (notification_id channel attempt_id intent_id : String)
    → find_notification d notification_id ≡ some n
    → find (has_number notification_id channel 1) d.attempts ≡ some a
    → find_intent_of d a.id ≡ some i
    → (let (d', r) = ensure_initial_attempt now notification_id channel attempt_id intent_id d in
        (r ≡ ok (a, i)) × (d' ≡ record d { notifications = d'.notifications }))
unfolding ensure_initial_attempt
ensure_initial_attempt-there now n a i d notification_id channel attempt_id intent_id found first
      intended =
    let made =
      ensure_all-there now n a i d notification_id channel attempt_id intent_id found first
        intended in
    rw made (
      rw (recalculate-ok now notification_id d n found)
        (refl, recalculate-frame now notification_id d))

-- Nor does it add a notification, or change more of one than its status and the time of the change.
pub ensure_initial_attempt-unstamped :
    (now : Time) (n : Notification) (a : DeliveryAttempt) (i : DispatchIntent) (d : Database)
    → (notification_id channel attempt_id intent_id : String)
    → find_notification d notification_id ≡ some n
    → find (has_number notification_id channel 1) d.attempts ≡ some a
    → find_intent_of d a.id ≡ some i
    → map unstamped
        (ensure_initial_attempt now notification_id channel attempt_id intent_id d).0.notifications
      ≡ map unstamped d.notifications
unfolding ensure_initial_attempt
ensure_initial_attempt-unstamped now n a i d notification_id channel attempt_id intent_id found
      first intended =
    rw
      (ensure_all-there now n a i d notification_id channel attempt_id intent_id found first
        intended)
      (rw (recalculate-ok now notification_id d n found)
        (recalculate-unstamped now notification_id d))
