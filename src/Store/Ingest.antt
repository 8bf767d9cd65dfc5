-- ===== src/Store/Ingest.antt =====
-- internal/store/postgres.go: the rows that the API adds, and the transaction that accepts a
-- notification together with its first attempt and dispatch intent. The constraints that an INSERT
-- checks are those of db/schema.sql; the parameter records of the source are the arguments.
pub mod Acceptance
pub mod Recovery
pub mod Inserted
pub mod Accepted
pub mod Sent
pub mod Early
use notification_service.Base.{
  ℕ, String, Bool, true, false, ◌&&◌, ◌||◌, ◌==◌, Option, none, some, [], ◌∷◌, ◌++◌, any, not, eqb,
  is_some, if◌then◌else◌,
}
use notification_service.Base.Table.{find, by}
use notification_service.Store.Status.{AttemptStatus, NotificationStatus}
use notification_service.Store.Model.{
  Time, Variables, Tenant, Template, Notification, DeliveryAttempt, DispatchIntent, Database,
  conflict, other,
}
use notification_service.Store.Action.{
  Action, Result, ok, err, pure, query, ◌>>=◌, ◌>>◌, transaction, or_not_found,
}
use notification_service.Store.Rows.{find_notification, find_attempt, get_notification_by_id}
use notification_service.Store.Attempts.{is_after, recalculate_notification_status}
use notification_service.Store.Records.{foreign_key}
use notification_service.Store.Outbox.{CreateDispatchIntentParams, create_dispatch_intent}

pub record CreateNotificationParams : Type 0 where
  pub id : String
  pub tenant_id : String
  pub template_id : String
  pub idempotency_key : Option String
  pub recipient_email : Option String
  pub recipient_webhook_url : Option String
  pub secondary_webhook_url : Option String
  pub variables : Variables
  pub scheduled_for : Option Time

pub record CreateDeliveryAttemptParams : Type 0 where
  pub id : String
  pub notification_id : String
  pub channel : String
  pub attempt_number : ℕ
  pub status : AttemptStatus
  pub next_retry_at : Option Time
  pub last_error : Option String
  pub dispatch_enqueued_at : Option Time
  pub enqueue_kind : String

pub record CreateNotificationDispatchParams : Type 0 where
  pub notification : CreateNotificationParams
  pub channel : String
  pub attempt_id : String
  pub intent_id : String

-- tenant_id = $1 AND idempotency_key = $2.
abbrev pub has_key : String → Option String → Notification → Bool
has_key tenant_id none n = false
has_key tenant_id (some key) n =
    n.tenant_id == tenant_id && elim n.idempotency_key [ none ↦ false | some k ↦ k == key ]

unfoldable pub get_notification_by_tenant_and_idempotency_key :
    String → String → Database → Result Notification
get_notification_by_tenant_and_idempotency_key tenant_id key d =
    or_not_found (find (has_key tenant_id (some key)) d.notifications)

abbrev pub new_notification : Time → CreateNotificationParams → Notification
new_notification now params = record {
  id = params.id;
  tenant_id = params.tenant_id;
  template_id = params.template_id;
  idempotency_key = params.idempotency_key;
  status =
      if is_after params.scheduled_for now
      then NotificationStatus.scheduled
      else NotificationStatus.accepted;
  recipient_email = params.recipient_email;
  recipient_webhook_url = params.recipient_webhook_url;
  secondary_webhook_url = params.secondary_webhook_url;
  variables = params.variables;
  scheduled_for = params.scheduled_for;
  promoted_at = none;
  cancelled_at = none;
  submitted_at = now;
  updated_at = now;
}

-- The primary key, or the unique index on the tenant and the idempotency key.
abbrev pub is_taken : CreateNotificationParams → Database → Bool
is_taken params d =
    is_some (find_notification d params.id)
    || any (has_key params.tenant_id params.idempotency_key) d.notifications

abbrev is_referenced : CreateNotificationParams → Database → Bool
is_referenced params d =
    is_some (find (by (λ t. t.id) params.tenant_id) d.tenants)
    && is_some (find (by (λ t. t.id) params.template_id) d.templates)

unfoldable pub create_notification : Time → CreateNotificationParams → Action Notification
create_notification now params d =
    let n = new_notification now params in
    if not (is_some params.idempotency_key)
    then (d, err (other "null value in column idempotency_key"))
    else if is_taken params d
    then (d, err conflict)
    else if not (is_referenced params d)
    then (d, err foreign_key)
    else (record d { notifications = d.notifications ++ n ∷ [] }, ok n)

abbrev pub new_attempt : Time → CreateDeliveryAttemptParams → DeliveryAttempt
new_attempt now params = record {
  id = params.id;
  notification_id = params.notification_id;
  channel = params.channel;
  attempt_number = params.attempt_number;
  status = params.status;
  error_code = none;
  error_message = none;
  provider_message_id = none;
  last_error = params.last_error;
  next_retry_at = params.next_retry_at;
  started_at = none;
  completed_at = none;
  sent_at = none;
  failed_at = none;
  dispatch_enqueued_at = params.dispatch_enqueued_at;
  enqueue_kind = params.enqueue_kind;
  provider_used = none;
  failover_used = false;
  dead_letter_id = none;
  replay_of_dead_letter = none;
  created_at = now;
  updated_at = now;
}

-- The unique constraint on the notification, the channel and the number.
abbrev pub has_number : String → String → ℕ → DeliveryAttempt → Bool
has_number notification_id channel number a =
    a.notification_id == notification_id && a.channel == channel && eqb a.attempt_number number

unfoldable pub create_delivery_attempt : Time → CreateDeliveryAttemptParams → Action DeliveryAttempt
create_delivery_attempt now params d =
    let a = new_attempt now params in
    if eqb params.attempt_number 0
    then (d, err (other "violates check constraint"))
    else if is_some (find_attempt d params.id)
        || any (has_number params.notification_id params.channel params.attempt_number) d.attempts
    then (d, err conflict)
    else if not (is_some (find_notification d params.notification_id))
    then (d, err foreign_key)
    else (record d { attempts = d.attempts ++ a ∷ [] }, ok a)

abbrev pub initial_attempt : CreateNotificationDispatchParams → String → CreateDeliveryAttemptParams
initial_attempt params notification_id = record {
  id = params.attempt_id;
  notification_id = notification_id;
  channel = params.channel;
  attempt_number = 1;
  status = AttemptStatus.pending;
  next_retry_at = none;
  last_error = none;
  dispatch_enqueued_at = none;
  enqueue_kind = "initial";
}

abbrev pub initial_intent :
    CreateNotificationDispatchParams → Notification → DeliveryAttempt → CreateDispatchIntentParams
initial_intent params n a = record {
  id = params.intent_id;
  notification_id = n.id;
  attempt_id = a.id;
  tenant_id = n.tenant_id;
  channel = params.channel;
  source = "initial";
  status = none;
  published_at = none;
}

abbrev pub Accepted : Type 0
Accepted = Notification × DeliveryAttempt × Option DispatchIntent

-- The statements of the transaction.
unfoldable pub insert_all : Time → CreateNotificationDispatchParams → Action Accepted
insert_all now params = do
  n ← create_notification now params.notification
  a ← create_delivery_attempt now (initial_attempt params n.id)
  if is_after n.scheduled_for now
      then pure (n, a, none)
      else (create_dispatch_intent now (initial_intent params n a) >>= λ i. pure (n, a, some i))

-- `if intent.ID != ""`.
abbrev pub roll_up : Time → String → Option DispatchIntent → Action (Unit {0})
roll_up now notification_id none = pure tt
roll_up now notification_id (some i) =
    if i.id == "" then pure tt else recalculate_notification_status now notification_id

unfoldable pub create_notification_with_initial_dispatch :
    Time → CreateNotificationDispatchParams → Action Accepted
create_notification_with_initial_dispatch now params = do
  made ← transaction (insert_all now params)
  roll_up now made.0.id made.2
  n ← query (get_notification_by_id made.0.id)
  pure (n, made.1, made.2)
