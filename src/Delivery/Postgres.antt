-- ===== src/Delivery/Postgres.antt =====
-- internal/store/postgres.go as the store of internal/delivery/service.go, with the clock at `now`.
use notification_service.Base.{String, Bool, ◌≡◌, refl, ap, ◌==◌, Option, none, some, arith, eq_iff}
use notification_service.Base.Table.{find-update, find_key}
use notification_service.Store.Status.{AttemptStatus}
use notification_service.Store.Model.{
  Time, Variables, Notification, Template, DeliveryAttempt, Database,
}
use notification_service.Store.Action.{ok}
use notification_service.Store.Rows.{find_attempt, get_delivery_attempt_by_id}
use notification_service.Store.Policy.{resolve_delivery_policy}
use notification_service.Store.Records.{load_delivery_job, insert_dead_letter, record_audit_event}
use notification_service.Store.Attempts.{
  mark_attempt_in_progress, mark_attempt_sent, mark_attempt_failed, schedule_retry,
  mark_attempt_dead_lettered, update_attempt_provider, set_sent, set_failed, set_retry,
  set_dead_lettered,
}
use notification_service.Store.Attempts.Lifecycle.{
  start, send, fail, retry, bury, run_call, IsAttemptKeyed, run_call-IsAttemptKeyed, run_call_ok,
}
use notification_service.Delivery.Service.{NotificationStore, Service, World, DispatchJob}
use notification_service.Delivery.Laws.{StoreLaws}
use notification_service.Delivery.Channels.{send_webhook, send_email}
use notification_service.Delivery.Channels.Failover.{send_webhook-IsBounded, send_email-IsBounded}
use notification_service.Delivery.Process.{process_webhook, process_email}
use notification_service.Delivery.Process.Durability.{reported_status, IsSender, process-IsDurable}

abbrev pub postgres : Time → NotificationStore Database
postgres now = record {
  load_delivery_job = load_delivery_job;
  get_delivery_attempt_by_id = get_delivery_attempt_by_id;
  resolve_delivery_policy = λ tenant_id channel d. ok (resolve_delivery_policy tenant_id channel d);
  update_attempt_provider = update_attempt_provider now;
  mark_attempt_in_progress = mark_attempt_in_progress now;
  mark_attempt_sent = mark_attempt_sent now;
  mark_attempt_failed = mark_attempt_failed now;
  schedule_retry = schedule_retry now;
  mark_attempt_dead_lettered = mark_attempt_dead_lettered now;
  insert_dead_letter = insert_dead_letter now;
  record_audit_event = record_audit_event now;
}

abbrev status_in : Option DeliveryAttempt → Option AttemptStatus
status_in none = none
status_in (some a) = some a.status

-- The status of an attempt in its table.
abbrev pub status_of : String → Database → Option AttemptStatus
status_of id d = status_in (find_attempt d id)

load_delivery_job-id :
    (n a : String) (d : Database) (x : Notification) (t : Template) (b : DeliveryAttempt)
    → load_delivery_job n a d ≡ ok (x, t, b)
    → b.id ≡ a
unfolding load_delivery_job
load_delivery_job-id n a d x t b h =
    grind (arith, eq_iff b.id a, find_key (λ z. z.id) a d.attempts b)

update_attempt_provider-status :
    (now : Time) (id p : String) (f : Bool) (d : Database) (j : String)
    → status_of j (update_attempt_provider now id p f d).0 ≡ status_of j d
unfolding update_attempt_provider
update_attempt_provider-status now id p f d j =
    let set : DeliveryAttempt → DeliveryAttempt =
      λ a. record a { provider_used = some p; failover_used = f; updated_at = now } in
    ground (arith, find-update (λ a. a.id) (λ a. a.id == id) set j d.attempts (λ a. refl))

insert_dead_letter-status :
    (now : Time) (id n c e : String) (d : Database) (j : String)
    → status_of j (insert_dead_letter now id n c e d).0 ≡ status_of j d
unfolding insert_dead_letter
insert_dead_letter-status now id n c e d j = ground arith

record_audit_event-status :
    (now : Time) (id t w c r i : String) (m : Variables) (d : Database) (j : String)
    → status_of j (record_audit_event now id t w c r i m d).0 ≡ status_of j d
unfolding record_audit_event
record_audit_event-status now id t w c r i m d j = ground arith

-- The store that the repository has keeps the laws that the service relies on, where no two attempts share a key.
pub postgres-StoreLaws : (now : Time) → StoreLaws (postgres now)
unfolding run_call set_sent set_failed set_retry set_dead_lettered
postgres-StoreLaws now = record {
  IsValid = IsAttemptKeyed;
  status_of = status_of;
  start-IsValid = λ id d keyed. run_call-IsAttemptKeyed now id start d keyed;
  load-id = load_delivery_job-id;
  send-status =
      λ id p d keyed h. let (a, e) = run_call_ok now id (send p) d keyed h in ap status_in e;
  fail-status = λ id cause d keyed h.
      let (a, e) = run_call_ok now id (fail cause) d keyed h in ap status_in e;
  retry-status = λ id cause at d keyed h.
      let (a, e) = run_call_ok now id (retry cause at) d keyed h in ap status_in e;
  bury-status = λ id cause d keyed h.
      let (a, e) = run_call_ok now id (bury cause) d keyed h in ap status_in e;
  provider-status = update_attempt_provider-status now;
  insert-status = insert_dead_letter-status now;
  audit-status = record_audit_event-status now;
}

-- A service over this store.
abbrev pub on_postgres : Service Database → Service Database
on_postgres v = record v { store = postgres v.now }

webhook_goes_on :
    (v : Service Database) (job : DispatchJob)
    → IsSender (on_postgres v) (postgres-StoreLaws v.now) (send_webhook (on_postgres v) job)
webhook_goes_on v job n t policy w =
    let b = send_webhook-IsBounded (on_postgres v) job policy n t w in (b.0, b.2, b.3)

email_goes_on :
    (v : Service Database) (job : DispatchJob)
    → IsSender (on_postgres v) (postgres-StoreLaws v.now) (send_email (on_postgres v) job)
email_goes_on v job n t policy w =
    let b = send_email-IsBounded (on_postgres v) job policy n t w in (b.0, b.2, b.3)

-- Over the Postgres store, where no two attempts share a key, when processing a webhook job
-- reports an outcome (sent, failed, retry scheduled or dead-lettered), the job's attempt has the
-- matching status in its table afterwards.
pub postgres-durable_webhook :
    (v : Service Database) (job : DispatchJob) (w : World Database)
    → IsAttemptKeyed w.state
    → (s : AttemptStatus) → reported_status (process_webhook (on_postgres v) job w).1 ≡ some s
    → status_of job.attempt_id (process_webhook (on_postgres v) job w).0.state ≡ some s
unfolding process_webhook postgres-StoreLaws
postgres-durable_webhook v job w keyed =
    process-IsDurable (on_postgres v) (postgres-StoreLaws v.now) job
      (send_webhook (on_postgres v) job) (webhook_goes_on v job) w keyed

-- Over the Postgres store, where no two attempts share a key, when processing a e-mail job reports
-- an outcome (sent, failed, retry scheduled or dead-lettered), the job's attempt has the matching
-- status in its table afterwards.
pub postgres-durable_email :
    (v : Service Database) (job : DispatchJob) (w : World Database)
    → IsAttemptKeyed w.state
    → (s : AttemptStatus) → reported_status (process_email (on_postgres v) job w).1 ≡ some s
    → status_of job.attempt_id (process_email (on_postgres v) job w).0.state ≡ some s
unfolding process_email postgres-StoreLaws
postgres-durable_email v job w keyed =
    process-IsDurable (on_postgres v) (postgres-StoreLaws v.now) job
      (send_email (on_postgres v) job) (email_goes_on v job) w keyed
