-- ===== src/Store/Attempts.antt =====
-- internal/store/postgres.go: the guarded transitions of a delivery attempt. Each is one UPDATE whose
-- WHERE clause names the status that it leaves; if no row is hit, the attempt is read to say why.
pub mod Transitions
pub mod Lifecycle
pub mod Touched
pub mod Writes
pub mod Traces
use notification_service.Base.{
  ℕ, String, Bool, false, ◌&&◌, ◌==◌, Option, none, some, map, ltb, eqb, is_some, not,
  if◌then◌else◌,
}
use notification_service.Base.Table.{update, count, or_else}
use notification_service.Store.Status.{
  AttemptStatus, NotificationStatus, is_pending, is_in_progress, is_attempt_terminal_state,
  derive_notification_status,
}
use notification_service.Store.Model.{
  Time, Notification, DeliveryAttempt, StoreError, not_found, attempt_already_finalized,
  attempt_already_processing, invalid_state_transition,
}
use notification_service.Store.Action.{Action, ok, pure, fail, query, ◌>>=◌}
use notification_service.Store.Rows.{
  get_notification_by_id, get_delivery_attempt_by_id, list_delivery_attempts_by_notification_id,
}

-- UPDATE delivery_attempts SET ... WHERE ..., with RowsAffected.
abbrev pub update_attempts :
    (DeliveryAttempt → Bool) → (DeliveryAttempt → DeliveryAttempt) → Action ℕ
update_attempts p f d = (record d { attempts = update p f d.attempts }, ok (count p d.attempts))

abbrev pub update_notifications : (Notification → Bool) → (Notification → Notification) → Action ℕ
update_notifications p f d =
    (record d { notifications = update p f d.notifications }, ok (count p d.notifications))

-- t.After(now), for a pointer that was checked against nil.
abbrev pub is_after : Option Time → Time → Bool
is_after none now = false
is_after (some t) now = ltb now t

-- The status that the rollup writes: a cancelled notification stays cancelled, and one whose time
-- has not come and which was not promoted stays scheduled.
unfoldable pub rolled_up_status : Time → Notification → NotificationStatus → NotificationStatus
rolled_up_status now n derived =
    if is_some n.cancelled_at
    then NotificationStatus.cancelled
    else if is_after n.scheduled_for now && not (is_some n.promoted_at)
    then NotificationStatus.scheduled
    else derived

unfoldable pub recalculate_notification_status : Time → String → Action (Unit {0})
unfolding rolled_up_status
recalculate_notification_status now notification_id = do
  n ← query (get_notification_by_id notification_id)
  attempts ← query (λ d. ok (list_delivery_attempts_by_notification_id notification_id d))
  let status = rolled_up_status now n (derive_notification_status (map (λ a. a.status) attempts))
  rows ←
      update_notifications (λ m. m.id == notification_id)
        (λ m. record m { status = status; updated_at = now })
  if eqb rows 0 then fail not_found else pure tt

-- The error of MarkAttemptInProgress when no row was pending.
abbrev pub start_refusal : AttemptStatus → StoreError
start_refusal s =
    if is_in_progress s
    then attempt_already_processing
    else if is_attempt_terminal_state s
    then attempt_already_finalized
    else invalid_state_transition

-- The error of the other transitions when no row was in progress.
abbrev pub finish_refusal : AttemptStatus → StoreError
finish_refusal s =
    if is_attempt_terminal_state s then attempt_already_finalized else invalid_state_transition

-- What the transitions share: the guarded UPDATE, the reason if it hit nothing, and the rollup.
unfoldable pub transition :
    Time
    → String
    → (AttemptStatus → Bool)
    → (AttemptStatus → StoreError)
    → (DeliveryAttempt → DeliveryAttempt)
    → Action (Unit {0})
transition now attempt_id from refusal set = do
  rows ← update_attempts (λ a. a.id == attempt_id && from a.status) set
  attempt ← query (get_delivery_attempt_by_id attempt_id)
  if eqb rows 0
      then fail (refusal attempt.status)
      else recalculate_notification_status now attempt.notification_id

unfoldable pub set_in_progress : Time → DeliveryAttempt → DeliveryAttempt
set_in_progress now a = record a {
  status = AttemptStatus.in_progress;
  started_at = or_else a.started_at (some now);
  completed_at = none;
  updated_at = now;
}

unfoldable pub mark_attempt_in_progress : Time → String → Action (Unit {0})
mark_attempt_in_progress now attempt_id =
    transition now attempt_id is_pending start_refusal (set_in_progress now)

unfoldable pub set_sent : Time → Option String → DeliveryAttempt → DeliveryAttempt
set_sent now provider_message_id a = record a {
  status = AttemptStatus.sent;
  provider_message_id = provider_message_id;
  last_error = none;
  error_message = none;
  sent_at = some now;
  failed_at = none;
  completed_at = some now;
  updated_at = now;
}

unfoldable pub mark_attempt_sent : Time → String → Option String → Action (Unit {0})
mark_attempt_sent now attempt_id provider_message_id =
    transition now attempt_id is_in_progress finish_refusal (set_sent now provider_message_id)

unfoldable pub set_failed : Time → String → DeliveryAttempt → DeliveryAttempt
set_failed now last_error a = record a {
  status = AttemptStatus.failed;
  last_error = some last_error;
  error_message = some last_error;
  provider_message_id = none;
  failed_at = some now;
  completed_at = some now;
  updated_at = now;
}

unfoldable pub mark_attempt_failed : Time → String → String → Action (Unit {0})
mark_attempt_failed now attempt_id last_error =
    transition now attempt_id is_in_progress finish_refusal (set_failed now last_error)

unfoldable pub set_retry : Time → String → Time → DeliveryAttempt → DeliveryAttempt
set_retry now last_error next_retry_at a = record a {
  status = AttemptStatus.retry_scheduled;
  last_error = some last_error;
  error_message = some last_error;
  next_retry_at = some next_retry_at;
  provider_message_id = none;
  failed_at = some now;
  completed_at = some now;
  updated_at = now;
}

unfoldable pub schedule_retry : Time → String → String → Time → Action (Unit {0})
schedule_retry now attempt_id last_error next_retry_at =
    transition now attempt_id is_in_progress finish_refusal (set_retry now last_error next_retry_at)

unfoldable pub set_dead_lettered : Time → String → DeliveryAttempt → DeliveryAttempt
set_dead_lettered now last_error a = record a {
  status = AttemptStatus.dead_lettered;
  last_error = some last_error;
  error_message = some last_error;
  next_retry_at = none;
  provider_message_id = none;
  failed_at = some now;
  completed_at = some now;
  updated_at = now;
}

unfoldable pub mark_attempt_dead_lettered : Time → String → String → Action (Unit {0})
mark_attempt_dead_lettered now attempt_id last_error =
    transition now attempt_id is_in_progress finish_refusal (set_dead_lettered now last_error)

-- The two writes that no status guards.
unfoldable pub mark_attempt_enqueued : Time → String → Action (Unit {0})
mark_attempt_enqueued now attempt_id = do
  rows ←
      update_attempts (λ a. a.id == attempt_id)
        (λ a. record a {
          dispatch_enqueued_at = or_else a.dispatch_enqueued_at (some now);
          updated_at = now;
        })
  if eqb rows 0 then fail not_found else pure tt

unfoldable pub update_attempt_provider : Time → String → String → Bool → Action (Unit {0})
update_attempt_provider now attempt_id provider failover_used = do
  rows ←
      update_attempts (λ a. a.id == attempt_id)
        (λ a. record a {
          provider_used = some provider;
          failover_used = failover_used;
          updated_at = now;
        })
  if eqb rows 0 then fail not_found else pure tt
