-- ===== src/Store/Retries.antt =====
-- internal/store/postgres.go: the attempts that follow a failure. EnsureRetryAttempt prepares the attempt
-- after one whose retry is due, EnsureReplayAttempt that of a dead letter; each may be asked again.
pub mod Once
pub mod Again
use Prim.Native.String.{◌++◌ as concat}
use notification_service.Base.{
  ℕ, ◌+◌, String, Bool, true, false, ◌&&◌, ◌||◌, ◌==◌, Option, none, some, List, [], ◌∷◌, map,
  select, take, any, leb, ltb, eqb, is_some, not, if◌then◌else◌,
}
use notification_service.Base.Table.{find, update, count, by}
use notification_service.Base.Sort.{order_by}
use notification_service.Store.Status.{AttemptStatus, is_retry_scheduled}
use notification_service.Store.Model.{
  Time, Notification, DeliveryAttempt, DeadLetter, DispatchIntent, Database, not_found, other,
}
use notification_service.Store.Action.{
  Action, Result, ok, err, pure, fail, query, ◌>>=◌, ◌>>◌, transaction, or_not_found,
}
use notification_service.Store.Rows.{
  find_notification, find_attempt, get_delivery_attempt_by_id, get_dead_letter_by_id, points_to,
}
use notification_service.Store.Attempts.{update_attempts, is_after, recalculate_notification_status}
use notification_service.Store.Outbox.{
  CreateDispatchIntentParams, create_dispatch_intent, published_intent_status,
}
use notification_service.Store.Ingest.{CreateDeliveryAttemptParams, create_delivery_attempt}

pub record RetryDueAttempt : Type 0 where
  pub attempt : DeliveryAttempt
  pub notification_id : String
  pub tenant_id : String

-- JOIN notifications n ON n.id = da.notification_id.
abbrev with_tenant : Database → DeliveryAttempt → Option RetryDueAttempt
with_tenant d a = elim (find_notification d a.notification_id) [
  | none ↦ none
  | some n ↦
      some (record { attempt = a; notification_id = a.notification_id; tenant_id = n.tenant_id })
]

abbrev joined : Database → Option DeliveryAttempt → Option RetryDueAttempt
joined d none = none
joined d (some a) = with_tenant d a

abbrev pub get_retry : String → Database → Result RetryDueAttempt
get_retry id d = or_not_found (joined d (find_attempt d id))

-- status = 'retry_scheduled' AND next_retry_at <= NOW().
abbrev pub is_due : Time → DeliveryAttempt → Bool
is_due now a =
    is_retry_scheduled a.status && (is_some a.next_retry_at && not (is_after a.next_retry_at now))

abbrev next_due_before : RetryDueAttempt → RetryDueAttempt → Bool
next_due_before p q = elim p.attempt.next_retry_at [
  | none ↦ false
  | some s ↦ elim q.attempt.next_retry_at [
    | none ↦ true
    | some t ↦ if eqb s t then leb p.attempt.created_at q.attempt.created_at else ltb s t
  ]
]

all_joined : Database → List DeliveryAttempt → List RetryDueAttempt
all_joined d [] = []
all_joined d (a ∷ as') = elim (with_tenant d a) [
  | none ↦ all_joined d as'
  | some r ↦ r ∷ all_joined d as'
]

unfoldable pub list_due_retry_attempts : Time → ℕ → Database → List RetryDueAttempt
unfolding all_joined
list_due_retry_attempts now limit d =
    take (if eqb limit 0 then 50 else limit)
      (order_by next_due_before (all_joined d (select (is_due now) d.attempts)))

-- The intent of a retry or a replay.
abbrev pub intent_of : String → String → DeliveryAttempt → CreateDispatchIntentParams
intent_of source tenant_id a = record {
  id = concat "intent-" a.id;
  notification_id = a.notification_id;
  attempt_id = a.id;
  tenant_id = tenant_id;
  channel = a.channel;
  source = source;
  status = some (published_intent_status a.dispatch_enqueued_at);
  published_at = a.dispatch_enqueued_at;
}

abbrev pub followed_by : DeliveryAttempt → String → CreateDeliveryAttemptParams
followed_by a id = record {
  id = id;
  notification_id = a.notification_id;
  channel = a.channel;
  attempt_number = a.attempt_number + 1;
  status = AttemptStatus.pending;
  next_retry_at = none;
  last_error = none;
  dispatch_enqueued_at = none;
  enqueue_kind = "retry";
}

-- The attempt of that id, or a new one if the retry is due; and whether it is new.
unfoldable pub retry_child : Time → DeliveryAttempt → String → Action (DeliveryAttempt × Bool)
retry_child now parent id d = elim (find_attempt d id) [
  | some a ↦ (d, ok (a, false))
  | none ↦
      if is_due now parent
      then (create_delivery_attempt now (followed_by parent id) >>= λ a. pure (a, true)) d
      else (d, err not_found)
]

abbrev pub set_retried : Time → DeliveryAttempt → DeliveryAttempt
set_retried now a = record a {
  status = AttemptStatus.failed;
  next_retry_at = none;
  updated_at = now;
}

abbrev pub retire : Time → DeliveryAttempt → Action ℕ
retire now parent =
    if is_retry_scheduled parent.status
    then update_attempts (λ a. a.id == parent.id && is_retry_scheduled a.status) (set_retried now)
    else pure 0

-- The statements of the transaction.
unfoldable pub retry_all :
    Time → String → String → Action (RetryDueAttempt × DeliveryAttempt × Bool)
retry_all now scheduled_attempt_id new_attempt_id = do
  item ← query (get_retry scheduled_attempt_id)
  child ← retry_child now item.attempt new_attempt_id
  i ← create_dispatch_intent now (intent_of "retry" item.tenant_id child.0)
  retired ← retire now item.attempt
  pure (item, child.0, child.1)

unfoldable pub ensure_retry_attempt : Time → String → String → Action RetryDueAttempt
ensure_retry_attempt now scheduled_attempt_id new_attempt_id = do
  made ← transaction (retry_all now scheduled_attempt_id new_attempt_id)
  if made.2 then recalculate_notification_status now made.0.notification_id else pure tt
  pure (record made.0 { attempt = made.1 })

pub record ReplayDeadLetterResult : Type 0 where
  pub dead_letter : DeadLetter
  pub attempt : DeliveryAttempt

abbrev max : ℕ → ℕ → ℕ
max m n = if ltb m n then n else m

-- COALESCE(MAX(attempt_number), 0).
unfoldable pub last_number : String → String → List DeliveryAttempt → ℕ
last_number notification_id channel [] = 0
last_number notification_id channel (a ∷ as') =
    let rest = last_number notification_id channel as' in
    if a.notification_id == notification_id && a.channel == channel
    then max a.attempt_number rest
    else rest

abbrev replaying : Database → DeadLetter → String → CreateDeliveryAttemptParams
replaying d l id = record {
  id = id;
  notification_id = l.notification_id;
  channel = l.channel;
  attempt_number = last_number l.notification_id l.channel d.attempts + 1;
  status = AttemptStatus.pending;
  next_retry_at = none;
  last_error = none;
  dispatch_enqueued_at = none;
  enqueue_kind = "replay";
}

unfoldable pub replay_child : Time → DeadLetter → String → Action DeliveryAttempt
replay_child now l id d = elim (find_attempt d id) [
  | some a ↦ (d, ok a)
  | none ↦ create_delivery_attempt now (replaying d l id) d
]

-- An error that is not ErrNotFound when the notification is missing.
abbrev pub get_replay_tenant : DeadLetter → Database → Result String
get_replay_tenant l d = elim (find_notification d l.notification_id) [
  | none ↦ err (other "tenant lookup")
  | some n ↦ ok n.tenant_id
]

abbrev pub attempt_id_or : String → Option String → String
attempt_id_or new_attempt_id none = new_attempt_id
attempt_id_or new_attempt_id (some id) = id

abbrev pub set_replay : String → DeadLetter → DeadLetter
set_replay attempt_id l = record l { replay_attempt_id = some attempt_id }

-- UPDATE dead_letters SET replay_attempt_id, under the unique index on that column.
unfoldable pub point_at : DeadLetter → String → Action (Unit {0})
point_at l attempt_id d =
    if is_some l.replay_attempt_id
    then (d, ok tt)
    else if any (λ m. points_to m.replay_attempt_id attempt_id) d.dead_letters
    then (d, err (other "set replay attempt id"))
    else (
      record d {
        dead_letters =
            update (λ m. m.id == l.id && not (is_some m.replay_attempt_id)) (set_replay attempt_id)
              d.dead_letters;
      },
      ok tt,
    )

abbrev replayed : DeadLetter → DeliveryAttempt → ReplayDeadLetterResult
replayed l a = record {
  dead_letter = record l { replay_attempt_id = some (attempt_id_or a.id l.replay_attempt_id) };
  attempt = a;
}

-- The statements of the transaction, for a letter that was not replayed yet.
unfoldable pub replay_all : Time → DeadLetter → String → Action ReplayDeadLetterResult
replay_all now l new_attempt_id = do
  a ← replay_child now l (attempt_id_or new_attempt_id l.replay_attempt_id)
  tenant_id ← query (get_replay_tenant l)
  i ← create_dispatch_intent now (intent_of "replay" tenant_id a)
  point_at l a.id
  pure (replayed l a)

abbrev pub is_replayed : DeadLetter → Bool
is_replayed l = is_some l.replayed_at && is_some l.replay_attempt_id

unfoldable pub ensure_replay_attempt : Time → String → String → Action ReplayDeadLetterResult
ensure_replay_attempt now dead_letter_id new_attempt_id = do
  l ← query (get_dead_letter_by_id dead_letter_id)
  if is_replayed l
      then (do
        a ← query (get_delivery_attempt_by_id (attempt_id_or new_attempt_id l.replay_attempt_id))
        pure (record { dead_letter = l; attempt = a }))
      else (do
        made ← transaction (replay_all now l new_attempt_id)
        recalculate_notification_status now l.notification_id
        pure made)
