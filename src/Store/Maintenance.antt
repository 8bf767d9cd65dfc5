-- ===== src/Store/Maintenance.antt =====
-- internal/store/postgres.go: RunMaintenance, the deletion of rows that are past their retention, and
-- CollectOperationalMetrics, the counts of open work. A retention is not negative here, and the
-- metrics' ages are those of rows that are not from the future.
pub mod Cleanup
use notification_service.Base.{
  ℕ, ◌-◌, ◌/◌, Bool, true, false, ◌&&◌, ◌==◌, Option, none, some, List, [], ◌∷◌, ltb, eqb, is_some,
  not, if◌then◌else◌,
}
use notification_service.Base.Table.{count, delete}
use notification_service.Store.Status.{
  is_published, is_intent_pending, is_publishing, is_retry_scheduled,
}
use notification_service.Store.Model.{
  Time, Notification, DispatchIntent, DeadLetter, AuditEvent, Database, other,
}
use notification_service.Store.Action.{Action, ok, err, pure, query, ◌>>=◌, transaction}
use notification_service.Store.Policy.{override}
use notification_service.Store.Attempts.{is_after}
use notification_service.Store.Outbox.{second}
use notification_service.Store.Retries.{is_due}

pub record CleanupParams : Type 0 where
  pub now : Option Time
  pub audit_retention : Time
  pub outbox_retention : Time
  pub dead_letter_retention : Time
  pub dry_run : Bool

pub record CleanupResult : Type 0 where
  pub dry_run : Bool
  pub audit_events_deleted : ℕ
  pub published_outbox_deleted : ℕ
  pub dead_letters_deleted : ℕ
  pub executed_at : Time

-- column IS NOT NULL AND column < $1.
abbrev pub is_before : Option Time → Time → Bool
is_before none cutoff = false
is_before (some t) cutoff = ltb t cutoff

-- The WHERE clauses, with the cutoff of each.
module _ (now : Time) (params : CleanupParams) where
  unfoldable pub old_event : AuditEvent → Bool
  old_event e = ltb e.created_at (now - params.audit_retention)

  unfoldable pub old_intent : DispatchIntent → Bool
  old_intent i = is_published i.status && is_before i.published_at (now - params.outbox_retention)

  -- No statement on the dead letters runs with a retention of 0.
  unfoldable pub old_letter : DeadLetter → Bool
  old_letter l =
      not (eqb params.dead_letter_retention 0)
      && is_before l.replayed_at (now - params.dead_letter_retention)

  unfoldable pub count_old : Database → CleanupResult
  count_old d = record {
    dry_run = params.dry_run;
    audit_events_deleted = count old_event d.audit_events;
    published_outbox_deleted = count old_intent d.outbox;
    dead_letters_deleted = count old_letter d.dead_letters;
    executed_at = now;
  }

  -- Each DELETE with its RowsAffected.
  abbrev pub delete_events : Action ℕ
  delete_events d = (
    record d { audit_events = delete old_event d.audit_events },
    ok (count old_event d.audit_events),
  )

  abbrev pub delete_intents : Action ℕ
  delete_intents d =
      (record d { outbox = delete old_intent d.outbox }, ok (count old_intent d.outbox))

  abbrev pub delete_letters : Action ℕ
  delete_letters d = (
    record d { dead_letters = delete old_letter d.dead_letters },
    ok (count old_letter d.dead_letters),
  )

  unfoldable pub delete_old : CleanupResult → Action CleanupResult
  delete_old result = do
    events ← delete_events
    intents ← delete_intents
    letters ← delete_letters
    pure (record result {
      audit_events_deleted = events;
      published_outbox_deleted = intents;
      dead_letters_deleted = letters;
    })

  unfoldable pub run_cleanup : Action CleanupResult
  run_cleanup = transaction do
    result ← query (λ d. ok (count_old d))
    if params.dry_run then pure result else delete_old result

unfoldable pub run_maintenance : Time → CleanupParams → Action CleanupResult
run_maintenance clock params d =
    if eqb params.audit_retention 0
    then (d, err (other "run maintenance: audit retention must be positive"))
    else if eqb params.outbox_retention 0
    then (d, err (other "run maintenance: outbox retention must be positive"))
    else run_cleanup (override params.now clock) params d

pub record OperationalMetrics : Type 0 where
  pub outbox_pending_count : ℕ
  pub outbox_publishing_count : ℕ
  pub outbox_oldest_lag_seconds : ℕ
  pub due_retry_count : ℕ
  pub retry_scheduled_count : ℕ
  pub open_dead_letter_count : ℕ
  pub duplicate_suppression_count : ℕ
  pub dead_lettered_count : ℕ
  pub scheduled_pending_count : ℕ
  pub scheduled_due_count : ℕ
  pub scheduled_oldest_lag_seconds : ℕ
  pub collected_at : Time

-- COALESCE(MAX(...), 0) of the ages of the rows that pass a test.
max_age {ℓ} : {A : Type ℓ} → Time → (A → Bool) → (A → Option Time) → List A → Time
max_age now p at [] = 0
max_age now p at (x ∷ xs) =
    let rest = max_age now p at xs in
    let age = now - override (at x) now in
    if p x then (if ltb rest age then age else rest) else rest

unfoldable pub waits_for_promotion : Notification → Bool
waits_for_promotion n =
    is_some n.scheduled_for && (not (is_some n.promoted_at) && not (is_some n.cancelled_at))

-- And scheduled_for <= now.
unfoldable pub is_due_for_promotion : Time → Notification → Bool
is_due_for_promotion now n = waits_for_promotion n && not (is_after n.scheduled_for now)

unfoldable pub collect_operational_metrics : Time → Option Time → Database → OperationalMetrics
unfolding max_age waits_for_promotion is_due_for_promotion
collect_operational_metrics clock at d =
    let now = override at clock in
    record {
      outbox_pending_count = count (λ i. is_intent_pending i.status) d.outbox;
      outbox_publishing_count = count (λ i. is_publishing i.status) d.outbox;
      outbox_oldest_lag_seconds =
          max_age now (λ i. is_intent_pending i.status) (λ i. some i.created_at) d.outbox / second;
      due_retry_count = count (is_due now) d.attempts;
      retry_scheduled_count = count (λ a. is_retry_scheduled a.status) d.attempts;
      open_dead_letter_count = count (λ l. not (is_some l.replayed_at)) d.dead_letters;
      duplicate_suppression_count =
          count (λ e. e.action == "duplicate_job_suppressed") d.audit_events;
      dead_lettered_count = count (λ e. e.action == "dead_lettered") d.audit_events;
      scheduled_pending_count = count waits_for_promotion d.notifications;
      scheduled_due_count = count (is_due_for_promotion now) d.notifications;
      scheduled_oldest_lag_seconds =
          max_age now (is_due_for_promotion now) (λ n. n.scheduled_for) d.notifications / second;
      collected_at = now;
    }
