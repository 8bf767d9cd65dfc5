-- ===== src/Delivery/Process/Durability.antt =====
-- internal/delivery/service.go: what `process` reports, against the statuses in the store.
use notification_service.Base.{
  String, Bool, true, false, ◌≡◌, Option, none, some, arith, leb, inl, inr, Option-cases,
  Bool-cases,
}
use notification_service.Store.Status.{AttemptStatus}
use notification_service.Store.Model.{
  Notification, Template, DeliveryAttempt, ResolvedDeliveryPolicy,
}
use notification_service.Store.Action.{Result-cases}
use notification_service.Delivery.Service.{
  DispatchJob, sent, failed_terminal, retry_scheduled, dead_lettered, Failure, delivery_error,
  Outcome, Reply, Provider, Service, World, Flow, go, Job, ProcessError, reply_of, failure_text,
  is_retryable,
}
use notification_service.Delivery.Laws.{StoreLaws}
use notification_service.Delivery.Process.{
  note_sent, bury, retry, handle_retryable, fail_terminal, settle, deliver, suppress, process,
  is_duplicate, attempt_limit,
}
use notification_service.Delivery.Channels.{Delivery}
use notification_service.Delivery.Retry.{next_retry_at}

abbrev status_for : Outcome → Option ProcessError → Option AttemptStatus
status_for sent none = some AttemptStatus.sent
status_for failed_terminal (some (delivery_error f)) = some AttemptStatus.failed
status_for retry_scheduled (some (delivery_error f)) = some AttemptStatus.retry_scheduled
status_for dead_lettered (some (delivery_error f)) = some AttemptStatus.dead_lettered
status_for _ _ = none

-- The status that a reply stands for: none for a suppressed duplicate and for an error of the store.
abbrev pub reported_status : Reply → Option AttemptStatus
reported_status r = status_for r.0.outcome r.1

module _ {S : Type 0} (v : Service S) (laws : StoreLaws v.store) where
  -- What the reply stands for is what the store holds.
  abbrev IsDurable : String → World S × Reply → Type 0
  IsDurable id r =
      (s : AttemptStatus) → reported_status r.1 ≡ some s → laws.status_of id r.0.state ≡ some s

  abbrev end : World S × Flow Reply → World S × Reply
  end r = (r.0, reply_of r.1)

  note_sent-IsDurable :
      (job : DispatchJob) (id : Option String) (p : Option Provider) (f : Bool) (w : World S)
      → laws.IsValid w.state
      → IsDurable job.attempt_id (end (note_sent v job id p f w))
  unfolding note_sent
  note_sent-IsDurable job id none false w valid s h =
      grind (arith, laws.audit-status, laws.send-status job.attempt_id id w.state valid)
  note_sent-IsDurable job id none true w valid s h =
      grind (arith, laws.audit-status, laws.send-status job.attempt_id id w.state valid)
  note_sent-IsDurable job id (some p) false w valid s h = grind (
    arith,
    laws.audit-status,
    laws.provider-status,
    laws.send-status job.attempt_id id w.state valid,
  )
  note_sent-IsDurable job id (some p) true w valid s h = grind (
    arith,
    laws.audit-status,
    laws.provider-status,
    laws.send-status job.attempt_id id w.state valid,
  )

  bury-IsDurable :
      (n : Notification) (a : DeliveryAttempt) (channel : String) (f : Failure) (w : World S)
      → laws.IsValid w.state
      → IsDurable a.id (end (bury v n a channel f w))
  unfolding bury
  bury-IsDurable n a channel f w valid s h = grind (
    arith,
    laws.audit-status,
    laws.insert-status,
    laws.bury-status a.id (failure_text f) w.state valid,
  )

  retry-IsDurable :
      (n : Notification) (a : DeliveryAttempt) (channel : String)
      → (resolved : ResolvedDeliveryPolicy) (f : Failure) (w : World S) → laws.IsValid w.state
      → IsDurable a.id (end (retry v n a channel resolved f w))
  unfolding retry
  retry-IsDurable n a channel resolved f w valid s h = grind (
    arith,
    laws.audit-status,
    laws.retry-status a.id (failure_text f)
        (next_retry_at v.policy v.now channel a.attempt_number resolved) w.state valid,
  )

  fail_terminal-IsDurable :
      (tenant_id attempt_id channel : String) (f : Failure) (w : World S)
      → laws.IsValid w.state
      → IsDurable attempt_id (end (fail_terminal v tenant_id attempt_id channel f w))
  unfolding fail_terminal
  fail_terminal-IsDurable tenant_id attempt_id channel f w valid s h =
      grind (arith, laws.audit-status, laws.fail-status attempt_id (failure_text f) w.state valid)

  settle-IsDurable :
      (job : DispatchJob) (n : Notification) (a : DeliveryAttempt)
      → (resolved : ResolvedDeliveryPolicy) (m : Delivery) (w : World S) → laws.IsValid w.state
      → a.id ≡ job.attempt_id
      → IsDurable job.attempt_id (end (settle v job n a resolved m w))
  unfolding settle handle_retryable
  settle-IsDurable job n a resolved m w valid same = elim (Option-cases m.error) [
    | inl e ↦ rw e (note_sent-IsDurable job m.provider_id m.provider m.failover_used w valid)
    | inr (f, e) ↦ elim (Bool-cases (is_retryable f)) [
      | inl r ↦ elim (Bool-cases (leb (attempt_limit v.policy resolved) a.attempt_number)) [
        | inl l ↦ rw (e, r, l, ← same) (bury-IsDurable n a job.channel f w valid)
        | inr l ↦ rw (e, r, l, ← same) (retry-IsDurable n a job.channel resolved f w valid)
      ]
      | inr r ↦ rw (e, r, ← same) (fail_terminal-IsDurable n.tenant_id a.id job.channel f w valid)
    ]
  ]

  -- A sender of a channel goes on, and leaves the store's state as it is.
  abbrev pub IsSender : (Notification → Template → ResolvedDeliveryPolicy → Job S Delivery) → Type 0
  IsSender sender =
      (n : Notification) (t : Template) (policy : ResolvedDeliveryPolicy) (w : World S)
      → (m : Delivery) × ((sender n t policy w).1 ≡ go m)
        × ((sender n t policy w).0.state ≡ w.state)

  deliver-IsDurable :
      (job : DispatchJob)
      (sender : Notification → Template → ResolvedDeliveryPolicy → Job S Delivery)
      → IsSender sender
      → (w : World S) → laws.IsValid w.state
      → IsDurable job.attempt_id (end (deliver v job sender w))
  unfolding deliver
  deliver-IsDurable job sender fine w valid =
      elim (Result-cases (v.store.load_delivery_job job.notification_id job.attempt_id w.state)) [
        | inr (e, failed) ↦ rw failed (λ s h. cc h)
        | inl (loaded, fetched) ↦
            elim (Result-cases
              (v.store.resolve_delivery_policy loaded.0.tenant_id job.channel w.state)) [
                | inr (e, failed) ↦ rw (fetched, failed) (λ s h. cc h)
                | inl (resolved, found) ↦
                    let (m, goes, kept) = fine loaded.0 loaded.1 resolved w in
                    let same : loaded.2.id ≡ job.attempt_id =
                      laws.load-id job.notification_id job.attempt_id w.state loaded.0 loaded.1
                        loaded.2 fetched in
                    rw (fetched, found, goes)
                      (settle-IsDurable job loaded.0 loaded.2 resolved m
                        (sender loaded.0 loaded.1 resolved w).0 (rw kept valid) same)
              ]
      ]

  suppress-IsDurable :
      (job : DispatchJob) (w : World S) → IsDurable job.attempt_id (end (suppress v job w))
  unfolding suppress
  suppress-IsDurable job w s h = ground arith

  -- On every branch of a job, whatever the reply stands for is the status that the store holds.
  pub process-IsDurable :
      (job : DispatchJob)
      (sender : Notification → Template → ResolvedDeliveryPolicy → Job S Delivery)
      → IsSender sender
      → (w : World S) → laws.IsValid w.state
      → IsDurable job.attempt_id (process v job sender w)
  unfolding process
  process-IsDurable job sender fine w valid =
      elim (Result-cases (v.store.mark_attempt_in_progress job.attempt_id w.state).1) [
        | inl (u, e) ↦ rw e (
            deliver-IsDurable job sender fine
              (record w { state = (v.store.mark_attempt_in_progress job.attempt_id w.state).0 })
              (laws.start-IsValid job.attempt_id w.state valid))
        | inr (error, e) ↦ elim (Bool-cases (is_duplicate error)) [
          | inl d ↦
              rw (e, d)
                (suppress-IsDurable job (record w {
                  state = (v.store.mark_attempt_in_progress job.attempt_id w.state).0;
                }))
          | inr d ↦ rw (e, d) (λ s h. cc h)
        ]
      ]
