-- ===== src/Delivery/Process/Sends.antt =====
-- internal/delivery/service.go: what the processing of one job sends.
use notification_service.Base.{
  if◌then◌else◌, ◌≢◌, ◌⊎◌, ◌≡◌, ◌≤◌, sym, ◌∙◌, false, none, some, List, [], ◌++◌, arith, inl, inr,
  length, All, is_some,
}
use mathlib.Core.List.{append-nil}
use notification_service.Store.Status.{AttemptStatus}
use notification_service.Store.Model.{
  Notification, Template, DeliveryAttempt, ResolvedDeliveryPolicy, StoreError,
}
use notification_service.Store.Action.{Result, ok, err, Result-cases}
use notification_service.Delivery.Service.{
  DispatchJob, Send, Service, World, Flow, stop, Job, store_error, empty_result,
  duplicate_suppressed, reply_of, Reply,
}
use notification_service.Delivery.Channels.{Delivery, send_webhook, send_email}
use notification_service.Delivery.Channels.Failover.{
  IsBounded, Sending-few, send_webhook-IsBounded, send_email-IsBounded,
}
use notification_service.Delivery.Process.{
  note_sent, bury, retry, handle_retryable, fail_terminal, settle, deliver, suppress, process,
  is_duplicate, process_webhook, process_email,
}
use notification_service.Delivery.Process.Durability.{reported_status}

-- The reply where the attempt was refused with `e`, by what reading the attempt gives.
abbrev pub refused_reply : StoreError → Result DeliveryAttempt → Reply
refused_reply e found =
    if is_duplicate e
    then elim found [
      | ok a ↦ (record empty_result { outcome = duplicate_suppressed }, none)
      | err f ↦ (empty_result, some (store_error f))
    ]
    else (empty_result, some (store_error e))

module _ {S : Type 0} (v : Service S) (job : DispatchJob) where
  -- If the store refuses to start the job's attempt, the job sends nothing. The reply is the
  -- store's error, but where the attempt is finalized or being processed already: then it is a
  -- suppressed duplicate without error if the attempt can be read, and else the error of reading
  -- it.
  pub process-refused :
      (sender : Notification → Template → ResolvedDeliveryPolicy → Job S Delivery)
      → (w : World S) (e : StoreError)
      → (v.store.mark_attempt_in_progress job.attempt_id w.state).1 ≡ err e
      → let s = (v.store.mark_attempt_in_progress job.attempt_id w.state).0 in
        let r = process v job sender w in
        (r.0.sends ≡ w.sends)
        × (r.1 ≡ refused_reply e (v.store.get_delivery_attempt_by_id job.attempt_id s))
  unfolding process suppress
  process-refused sender w e refused = (ground arith, ground arith)

  settle-sends :
      (n : Notification) (a : DeliveryAttempt) (resolved : ResolvedDeliveryPolicy) (m : Delivery)
      → (w : World S) → (settle v job n a resolved m w).0.sends ≡ w.sends
  unfolding settle handle_retryable note_sent bury retry fail_terminal
  settle-sends n a resolved m w = ground arith

  settle-reported :
      (n : Notification) (a : DeliveryAttempt) (resolved : ResolvedDeliveryPolicy) (m : Delivery)
      → (w : World S)
      → reported_status (reply_of (settle v job n a resolved m w).1) ≡ some AttemptStatus.sent
      → is_some m.error ≡ false
  unfolding settle handle_retryable note_sent bury retry fail_terminal
  settle-reported n a resolved m w h = ground arith

  -- What a job may send.
  abbrev pub IsModest : World S → World S × Flow Reply → Type 0
  IsModest w r =
      (ms : List Send) × (r.0.sends ≡ w.sends ++ ms)
      × (length ms ≤ 2)
      × All (λ q. q.attempt_id ≡ job.attempt_id) ms
      × ((reported_status (reply_of r.1) ≢ some AttemptStatus.sent) ⊎ (1 ≤ length ms))

  deliver-IsModest :
      (sender : Notification → Template → ResolvedDeliveryPolicy → Job S Delivery)
      → ((n : Notification) (t : Template) (policy : ResolvedDeliveryPolicy) (w : World S)
          → IsBounded job policy w (sender n t policy w))
      → (w : World S) → IsModest w (deliver v job sender w)
  unfolding deliver
  deliver-IsModest sender bounded w =
      elim (Result-cases (v.store.load_delivery_job job.notification_id job.attempt_id w.state)) [
        | inr (e, failed) ↦
            rw failed ([], sym (append-nil w.sends), omega arith, tt, inl (λ h. cc h))
        | inl (loaded, fetched) ↦
            elim (Result-cases
              (v.store.resolve_delivery_policy loaded.0.tenant_id job.channel w.state)) [
                | inr (e, failed) ↦
                    rw (fetched, failed)
                      ([], sym (append-nil w.sends), omega arith, tt, inl (λ h. cc h))
                | inl (resolved, found) ↦
                    let (m, ms, goes, kept, sent_ms, trail) =
                      bounded loaded.0 loaded.1 resolved w in
                    let (few, mine, told) = Sending-few job resolved ms m trail in
                    let w' = (sender loaded.0 loaded.1 resolved w).0 in
                    rw (fetched, found, goes)
                      (
                        ms,
                        settle-sends loaded.0 loaded.2 resolved m w' ∙ sent_ms,
                        few,
                        mine,
                        elim told [
                          | inl e ↦
                              inl (λ h. cc (e, settle-reported loaded.0 loaded.2 resolved m w' h))
                          | inr k ↦ inr k
                        ],
                      )
              ]
      ]

  process-IsModest :
      (sender : Notification → Template → ResolvedDeliveryPolicy → Job S Delivery)
      → ((n : Notification) (t : Template) (policy : ResolvedDeliveryPolicy) (w : World S)
          → IsBounded job policy w (sender n t policy w))
      → (w : World S) → let r = process v job sender w in IsModest w (r.0, stop r.1)
  unfolding process suppress
  process-IsModest sender bounded w =
      elim (Result-cases (v.store.mark_attempt_in_progress job.attempt_id w.state).1) [
        | inl (u, e) ↦ rw e (
            deliver-IsModest sender bounded
              (record w { state = (v.store.mark_attempt_in_progress job.attempt_id w.state).0 }))
        | inr (error, e) ↦
            let quiet = process-refused sender w error e in
            ([], quiet.0 ∙ sym (append-nil w.sends), omega arith, tt, inl (λ h. ground (arith, e)))
      ]

-- Processing a job of either channel, over any store, sends at most two messages, each for the
-- job's attempt, and reports the attempt as sent only if it sent at least one.
pub process-sends :
    {S : Type 0} (v : Service S) (job : DispatchJob) (w : World S)
    → let r = process_webhook v job w in
      let s = process_email v job w in
      IsModest v job w (r.0, stop r.1) × IsModest v job w (s.0, stop s.1)
unfolding process_webhook process_email
process-sends v job w = (
  process-IsModest v job (send_webhook v job)
      (λ n t policy. send_webhook-IsBounded v job policy n t) w,
  process-IsModest v job (send_email v job) (λ n t policy. send_email-IsBounded v job policy n t) w,
)
