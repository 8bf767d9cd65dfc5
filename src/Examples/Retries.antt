-- ===== src/Examples/Retries.antt =====
-- A retry that is asked for twice.
use notification_service.Base.{◌≡◌, refl, true, false, some, [], ◌∷◌, eq_iff}
use notification_service.Base.Table.{find, update, count}
use notification_service.Store.Status.{AttemptStatus}
use notification_service.Store.Model.{DeliveryAttempt, Database}
use notification_service.Store.Action.{ok}
use notification_service.Store.Attempts.{recalculate_notification_status}
use notification_service.Store.Outbox.{create_dispatch_intent}
use notification_service.Store.Ingest.{create_delivery_attempt, new_attempt}
use notification_service.Store.Retries.{
  RetryDueAttempt, followed_by, retry_child, retry_all, ensure_retry_attempt,
}
use notification_service.Store.Retries.Again.{ensure_retry-ensure_retry}
use notification_service.Examples.Fixtures.{tables, attempt_in}

abbrev failed : DeliveryAttempt
failed = record (attempt_in AttemptStatus.retry_scheduled) { next_retry_at = some 5 }

abbrev due : Database
due = record (tables AttemptStatus.retry_scheduled) { attempts = failed ∷ [] }

abbrev next : RetryDueAttempt
next = record {
  attempt = new_attempt 10 (followed_by failed "a2");
  notification_id = "n1";
  tenant_id = "acme";
}

ensure_retry-ensure_retry_example :
    let d' = (ensure_retry_attempt 10 "a1" "a2" due).0 in
    ensure_retry_attempt 99 "a1" "a2" d' ≡ (d', ok next)
unfolding ensure_retry_attempt retry_all retry_child create_delivery_attempt create_dispatch_intent
    recalculate_notification_status find update count
ensure_retry-ensure_retry_example =
    ensure_retry-ensure_retry 10 99 "a1" "a2" due next
      (λ e. let never : false ≡ true = (eq_iff "a1" "a2").1 e in cc never) refl
