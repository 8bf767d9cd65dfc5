-- ===== src/Delivery/Process.antt =====
-- internal/delivery/service.go: `process`, which the two channels share.
pub mod Durability
pub mod Sends
use Prim.Native.String.{◌++◌ as concat}
use notification_service.Base.{
  ℕ, ◌==◌, String, Bool, true, false, ◌&&◌, Option, none, some, List, [], ◌∷◌, leb, ltb,
  if◌then◌else◌,
}
use notification_service.Store.Status.{AttemptStatus}
use notification_service.Store.Model.{
  Notification, Template, DeliveryAttempt, ResolvedDeliveryPolicy, StoreError,
  attempt_already_finalized, attempt_already_processing,
}
use notification_service.Store.Action.{Result, ok, err}
use notification_service.Delivery.Text.{is_blank, trim_space}
use notification_service.Delivery.Retry.{RetryPolicy, next_retry_at}
use notification_service.Delivery.Service.{
  DispatchJob, failed_terminal, retry_scheduled, dead_lettered, duplicate_suppressed, Failure,
  terminal, failure_text, is_retryable, maybe_retryable, store_error, delivery_error, empty_result,
  Reply, Provider, webhook_primary, webhook_secondary, smtp_primary, smtp_secondary, provider_name,
  Send, taken, refused, Sender, Service, World, Flow, go, stop, Job, pure, ◌>>=◌, ◌>>◌, call, read,
  attempt, ignore, new_id, send, finish, reply_of,
}
use notification_service.Delivery.Channels.{Delivery, send_webhook, send_email}

abbrev status_text : AttemptStatus → String
status_text AttemptStatus.pending = "pending"
status_text AttemptStatus.in_progress = "in_progress"
status_text AttemptStatus.sent = "sent"
status_text AttemptStatus.delivered = "delivered"
status_text AttemptStatus.failed = "failed"
status_text AttemptStatus.retry_scheduled = "retry_scheduled"
status_text AttemptStatus.dead_lettered = "dead_lettered"

-- "" where no provider was reached.
abbrev name_of : Option Provider → String
name_of none = ""
name_of (some p) = provider_name p

abbrev pub is_duplicate : StoreError → Bool
is_duplicate attempt_already_finalized = true
is_duplicate attempt_already_processing = true
is_duplicate _ = false

-- The tenant's limit of attempts, where it is set and positive, or the service's.
abbrev pub attempt_limit : RetryPolicy → ResolvedDeliveryPolicy → ℕ
attempt_limit policy resolved = elim resolved.max_attempts_override [
  | none ↦ policy.max_attempts
  | some n ↦ if ltb 0 n then n else policy.max_attempts
]

module _ {S : Type 0} (v : Service S) where
  -- RecordAuditEvent by the worker on an attempt, with a new identifier and its error dropped.
  abbrev audit : String → String → String → List (String × String) → Job S (Unit {0})
  audit tenant_id action attempt_id metadata = do
    id ← new_id v
    ignore (
        v.store.record_audit_event id tenant_id "worker" action "delivery_attempt" attempt_id
          metadata)

  -- The branch of a job whose attempt another job has or had.
  unfoldable pub suppress : DispatchJob → Job S Reply
  suppress job = do
    a ← read (v.store.get_delivery_attempt_by_id job.attempt_id)
    audit job.tenant_id "duplicate_job_suppressed" job.attempt_id (
        ("notification_id", job.notification_id)
        ∷ (("channel", job.channel) ∷ (("status", status_text a.status) ∷ [])))
    pure (record empty_result { outcome = duplicate_suppressed }, none)

  -- The branch of a delivery without error.
  unfoldable pub note_sent : DispatchJob → Option String → Option Provider → Bool → Job S Reply
  note_sent job provider_id provider failover_used = do
    call (v.store.mark_attempt_sent job.attempt_id provider_id)
    elim provider [
      | none ↦ pure tt
      | some p ↦
          ignore (v.store.update_attempt_provider job.attempt_id (provider_name p) failover_used)
    ]
    if failover_used
        then audit job.tenant_id "provider_failover_used" job.attempt_id (
            ("notification_id", job.notification_id)
            ∷ (("channel", job.channel) ∷ (("provider", name_of provider) ∷ [])))
        else pure tt
    audit job.tenant_id "attempt_sent" job.attempt_id
        (("notification_id", job.notification_id) ∷ (("channel", job.channel) ∷ []))
    pure (empty_result, none)

  -- The last retryable failure of an attempt.
  unfoldable pub bury : Notification → DeliveryAttempt → String → Failure → Job S Reply
  bury n a channel cause = do
    call (v.store.mark_attempt_dead_lettered a.id (failure_text cause))
    id ← new_id v
    l ← call (v.store.insert_dead_letter id n.id channel (failure_text cause))
    audit n.tenant_id "dead_lettered" a.id (
        ("notification_id", n.id)
        ∷ (("dead_letter_id", l.id)
            ∷ (("channel", channel) ∷ (("error", failure_text cause) ∷ []))))
    pure (
      record empty_result { outcome = dead_lettered; dead_letter = some l },
      some (delivery_error cause),
    )

  unfoldable pub retry :
      Notification → DeliveryAttempt → String → ResolvedDeliveryPolicy → Failure → Job S Reply
  retry n a channel resolved cause = do
    let at = next_retry_at v.policy v.now channel a.attempt_number resolved
    call (v.store.schedule_retry a.id (failure_text cause) at)
    audit n.tenant_id "retry_scheduled" a.id (
        ("notification_id", n.id)
        ∷ (("channel", channel)
            ∷ (("next_retry_at", v.format_time at) ∷ (("error", failure_text cause) ∷ []))))
    pure (
      record empty_result { outcome = retry_scheduled; next_retry = some at },
      some (delivery_error cause),
    )

  unfoldable pub handle_retryable :
      Notification → DeliveryAttempt → String → ResolvedDeliveryPolicy → Failure → Job S Reply
  unfolding bury retry
  handle_retryable n a channel resolved cause =
      if leb (attempt_limit v.policy resolved) a.attempt_number
      then bury n a channel cause
      else retry n a channel resolved cause

  -- The audit event of a terminal failure is recorded only if the attempt can be read.
  abbrev audit_failed :
      String → String → String → Failure → Result DeliveryAttempt → Job S (Unit {0})
  audit_failed tenant_id attempt_id channel cause (err e) = pure tt
  audit_failed tenant_id attempt_id channel cause (ok a) =
      audit tenant_id "attempt_failed" attempt_id (
        ("notification_id", a.notification_id)
        ∷ (("channel", channel) ∷ (("error", failure_text cause) ∷ [])))

  unfoldable pub fail_terminal : String → String → String → Failure → Job S Reply
  fail_terminal tenant_id attempt_id channel cause = do
    call (v.store.mark_attempt_failed attempt_id (failure_text cause))
    found ← attempt (λ s. (s, v.store.get_delivery_attempt_by_id attempt_id s))
    audit_failed tenant_id attempt_id channel cause found
    pure (record empty_result { outcome = failed_terminal }, some (delivery_error cause))

  -- The branch on the sender's error.
  unfoldable pub settle :
      DispatchJob → Notification → DeliveryAttempt → ResolvedDeliveryPolicy → Delivery → Job S Reply
  settle job n a resolved sent_by = elim sent_by.error [
    | none ↦ note_sent job sent_by.provider_id sent_by.provider sent_by.failover_used
    | some f ↦
        if is_retryable f
        then handle_retryable n a job.channel resolved f
        else fail_terminal n.tenant_id a.id job.channel f
  ]

  -- The job of an attempt that this worker has started.
  unfoldable pub deliver :
      DispatchJob
      → (Notification → Template → ResolvedDeliveryPolicy → Job S Delivery)
      → Job S Reply
  deliver job sender = do
    loaded ← read (v.store.load_delivery_job job.notification_id job.attempt_id)
    resolved ← read (v.store.resolve_delivery_policy loaded.0.tenant_id job.channel)
    sent_by ← sender loaded.0 loaded.1 resolved
    settle job loaded.0 loaded.2 resolved sent_by

  abbrev begin :
      DispatchJob
      → (Notification → Template → ResolvedDeliveryPolicy → Job S Delivery)
      → Result (Unit {0})
      → Job S Reply
  begin job sender (ok tt) = deliver job sender
  begin job sender (err e) =
      if is_duplicate e then suppress job else finish (empty_result, some (store_error e))

  unfoldable pub process :
      DispatchJob
      → (Notification → Template → ResolvedDeliveryPolicy → Job S Delivery)
      → World S
      → World S × Reply
  process job sender w =
      let (w', r) =
        (do
          started ← attempt (v.store.mark_attempt_in_progress job.attempt_id)
          begin job sender started)
          w in
      (w', reply_of r)

  unfoldable pub process_webhook : DispatchJob → World S → World S × Reply
  process_webhook job = process job (send_webhook v job)

  unfoldable pub process_email : DispatchJob → World S → World S × Reply
  process_email job = process job (send_email v job)
