-- ===== src/Examples/Delivery.antt =====
-- Deliveries whose primary provider fails and whose backup delivers, and retries.
use notification_service.Base.{
  ◌≡◌, ◌≤◌, ◌⊎◌, ◌*◌, ◌+◌, ◌^◌, refl, some, [], leb, arith, if◌then◌else◌,
}
use notification_service.Base.Table.{find, update, count}
use notification_service.Store.Status.{AttemptStatus}
use notification_service.Store.Model.{attempt_already_finalized}
use notification_service.Store.Attempts.{
  transition, mark_attempt_in_progress, schedule_retry, set_retry, set_in_progress,
  recalculate_notification_status,
}
use notification_service.Store.Policy.{resolve_delivery_policy}
use notification_service.Base.Sort.{order_by}
use notification_service.Delivery.Text.{is_blank}
use notification_service.Store.Records.{load_delivery_job, record_audit_event}
use notification_service.Delivery.Retry.{RetryPolicy, second, retry_delay, double_up_to}
use notification_service.Delivery.Retry.Backoff.{double_up_to_lem}
use notification_service.Delivery.Retry.Bounds.{ceiling, retry_delay_bounds}
use notification_service.Delivery.Service.{maybe_retryable, stop}
use notification_service.Delivery.Channels.{webhook_send, webhook_failover, send_webhook}
use notification_service.Delivery.Channels.Failover.{IsBounded, send_webhook-IsBounded}
use notification_service.Delivery.Process.{
  deliver, settle, handle_retryable, retry, process, process_webhook, process_email,
}
use notification_service.Delivery.Process.Sends.{
  process-refused, refused_reply, process-sends, IsModest,
}
use notification_service.Delivery.Postgres.{on_postgres, status_of, postgres-durable_webhook}
use notification_service.Examples.Fixtures.{
  tables, order, greeting, service, job, world, retry_policy, failover_policy,
}

-- The tenant has no failover, so a retry is scheduled, and the row says so.
postgres-durable_webhook_example :
    status_of "a1"
      (process_webhook (on_postgres service) job (world (tables AttemptStatus.pending))).0.state
    ≡ some AttemptStatus.retry_scheduled
unfolding find update count process_webhook process deliver settle handle_retryable retry
    send_webhook webhook_send webhook_failover transition mark_attempt_in_progress schedule_retry
    set_retry set_in_progress load_delivery_job recalculate_notification_status record_audit_event
    is_blank maybe_retryable resolve_delivery_policy order_by
postgres-durable_webhook_example =
    postgres-durable_webhook service job (world (tables AttemptStatus.pending)) (refl, tt)
      AttemptStatus.retry_scheduled refl

process-sends_example :
    let r = process_webhook service job (world (tables AttemptStatus.pending)) in
    let s = process_email service job (world (tables AttemptStatus.pending)) in
    IsModest service job (world (tables AttemptStatus.pending)) (r.0, stop r.1)
    × IsModest service job (world (tables AttemptStatus.pending)) (s.0, stop s.1)
process-sends_example = process-sends service job (world (tables AttemptStatus.pending))

process-refused_example :
    let w = world (tables AttemptStatus.sent) in
    let s = (mark_attempt_in_progress 100 "a1" (tables AttemptStatus.sent)).0 in
    let r = process service job (send_webhook service job) w in
    (r.0.sends ≡ [])
    × (r.1
        ≡ refused_reply attempt_already_finalized (service.store.get_delivery_attempt_by_id "a1" s))
unfolding mark_attempt_in_progress transition find update count
process-refused_example =
    process-refused service job (send_webhook service job) (world (tables AttemptStatus.sent))
      attempt_already_finalized refl

send_webhook-IsBounded_example :
    IsBounded job failover_policy (world (tables AttemptStatus.in_progress)) (
      send_webhook service job order greeting failover_policy
        (world (tables AttemptStatus.in_progress)))
send_webhook-IsBounded_example =
    send_webhook-IsBounded service job failover_policy order greeting
      (world (tables AttemptStatus.in_progress))

double_up_to_lem_example :
    double_up_to (60 * second) 3 (5 * second)
    ≡ (if leb (60 * second) (5 * second * 2 ^ 3) then 60 * second else 5 * second * 2 ^ 3)
double_up_to_lem_example = double_up_to_lem (60 * second) 2 (5 * second)

abbrev steady : RetryPolicy
steady = record retry_policy { jitter = 0 }

retry_delay_bounds_example :
    (second ≤ retry_delay retry_policy "webhook" 3 failover_policy)
    × ((retry_delay retry_policy "webhook" 3 failover_policy ≡ second)
        ⊎ (retry_delay retry_policy "webhook" 3 failover_policy
            ≤ ceiling retry_policy + retry_policy.jitter))
retry_delay_bounds_example =
    retry_delay_bounds retry_policy "webhook" 3 failover_policy (omega arith) (omega arith)
