-- ===== src/Store/Attempts/Writes.antt =====
-- internal/store/postgres.go: every statement that writes to delivery_attempts and that is reached from
-- the service, with what it does to the rows.
use notification_service.Base.{
  String, Bool, true, false, ◌≡◌, refl, inl, inr, ◌==◌, ◌&&◌, none, some, arith, Bool-cases,
  is_some, any, ◌||◌, Option-cases, eqb, Option,
}
use notification_service.Base.Table.{find, update, count, or_else}
use notification_service.Store.Status.{AttemptStatus, is_retry_scheduled}
use notification_service.Store.Model.{Time, DispatchIntent, DeliveryAttempt, Database}
use notification_service.Store.Rows.{find_attempt, find_notification}
use notification_service.Store.Attempts.{mark_attempt_enqueued, update_attempt_provider}
use notification_service.Store.Attempts.Lifecycle.{
  Call, run_call, run_call-rows, write, write-id, write-Edge, struck,
}
use notification_service.Store.Ingest.{
  CreateDeliveryAttemptParams, create_delivery_attempt, new_attempt, has_number,
}
use notification_service.Store.Ingest.Recovery.{insert_first, first_params}
use notification_service.Store.Outbox.{
  mark_dispatch_intent_published, note_publication, set_enqueued, set_published, find_intent,
  is_held,
}
use notification_service.Store.Retries.{retire, set_retried}
use notification_service.Store.Attempts.Touched.{Touched}

-- A transition of the attempt named, UpdateAttemptProvider, MarkAttemptEnqueued, the enqueue mark of
-- MarkDispatchIntentPublished, the UPDATE of EnsureRetryAttempt on the attempt that it follows, and
-- the two INSERTs.
pub data Write : Type 0 where
  moves : String → Call → Write
  provides : String → String → Bool → Write
  enqueues : String → Write
  publishes : String → Time → Write
  retires : DeliveryAttempt → Write
  inserts : CreateDeliveryAttemptParams → Write
  inserts_first : String → String → String → Write

unfoldable pub run_write : Time → Write → Database → Database
run_write now (moves id c) d = (run_call now id c d).0
run_write now (provides id provider failover_used) d =
    (update_attempt_provider now id provider failover_used d).0
run_write now (enqueues id) d = (mark_attempt_enqueued now id d).0
run_write now (publishes intent_id claimed_at) d =
    (mark_dispatch_intent_published now intent_id claimed_at d).0
run_write now (retires parent) d = (retire now parent d).0
run_write now (inserts params) d = (create_delivery_attempt now params d).0
run_write now (inserts_first notification_id channel attempt_id) d =
    (insert_first now notification_id channel attempt_id d).0

is_some-none : {A : Type 0} (o : Option A) → is_some o ≡ false → o ≡ none
is_some-none none h = refl
is_some-none (some a) h = cc

publish-Touched :
    (now : Time) (intent_id : String) (claimed_at : Time) (d : Database)
    → Touched d (mark_dispatch_intent_published now intent_id claimed_at d).0
unfolding mark_dispatch_intent_published note_publication
publish-Touched now intent_id claimed_at d =
    let held = λ (i : DispatchIntent). i.id == intent_id && is_held claimed_at i in
    let leased = record d { outbox = update held (set_published now) d.outbox } in
    let d' = (mark_dispatch_intent_published now intent_id claimed_at d).0 in
    elim (Option-cases (find_intent leased intent_id)) [
      | inl gone ↦ inl (ground (arith, gone))
      | inr (i, there) ↦ elim (Bool-cases (eqb (count held d.outbox) 0)) [
        | inl lost ↦ inl (ground (arith, there, lost))
        | inr won ↦
            let rows : d'.attempts
                ≡ update (λ a. a.id == i.attempt_id) (set_enqueued now) d.attempts =
              ground (arith, there, won) in
            inr (
              inl (record {
                test = λ a. a.id == i.attempt_id;
                set = set_enqueued now;
                keeps = λ a. refl;
                moved = λ a h. inl refl;
                rows = rows;
              }))
      ]
    ]

create-Touched :
    (now : Time) (params : CreateDeliveryAttemptParams) (d : Database)
    → Touched d (create_delivery_attempt now params d).0
unfolding create_delivery_attempt
create-Touched now params d =
    let a = new_attempt now params in
    let d' = (create_delivery_attempt now params d).0 in
    elim (Bool-cases (eqb params.attempt_number 0)) [
      | inl unnumbered ↦ inl (ground (arith, unnumbered))
      | inr numbered ↦
          elim (Bool-cases (
            is_some (find_attempt d params.id)
            || any (has_number params.notification_id params.channel params.attempt_number)
                d.attempts)) [
                  | inl known ↦ inl (ground (arith, numbered, known))
                  | inr new ↦
                      elim (Bool-cases (is_some (find_notification d params.notification_id))) [
                        | inr orphan ↦ inl (ground (arith, numbered, new, orphan))
                        | inl parented ↦ inr (
                            inr (
                              a,
                              is_some-none (find_attempt d params.id) (ground (arith, new)),
                              ground (arith, numbered, new, parented),
                            ))
                      ]
                ]
    ]

insert_first-Touched :
    (now : Time) (notification_id channel attempt_id : String) (d : Database)
    → Touched d (insert_first now notification_id channel attempt_id d).0
unfolding insert_first
insert_first-Touched now notification_id channel attempt_id d =
    let a = new_attempt now (first_params notification_id channel attempt_id) in
    elim (Bool-cases (is_some (find (has_number notification_id channel 1) d.attempts))) [
      | inl known ↦ inl (ground (arith, known))
      | inr new ↦ elim (Bool-cases (is_some (find_attempt d attempt_id))) [
        | inl clash ↦ inl (ground (arith, new, clash))
        | inr fresh ↦
            inr
              (inr (a, is_some-none (find_attempt d attempt_id) fresh, ground (arith, new, fresh)))
      ]
    ]

is_retry_scheduled_lem :
    (s : AttemptStatus) → is_retry_scheduled s ≡ true → s ≡ AttemptStatus.retry_scheduled
is_retry_scheduled_lem AttemptStatus.retry_scheduled h = refl
is_retry_scheduled_lem _ h = cc

retire-Touched :
    (now : Time) (parent : DeliveryAttempt) (d : Database) → Touched d (retire now parent d).0
retire-Touched now parent d = elim (Bool-cases (is_retry_scheduled parent.status)) [
  | inr other ↦ rw other (inl refl)
  | inl waits ↦ rw waits (
      inr (
        inl (record {
          test = λ a. a.id == parent.id && is_retry_scheduled a.status;
          set = set_retried now;
          keeps = λ a. refl;
          moved = λ a h. inr (inr (is_retry_scheduled_lem a.status (ground arith), refl));
          rows = refl;
        })))
]

-- Each statement leaves the attempts, updates some of them, or inserts one.
pub run_write-Touched : (now : Time) (w : Write) (d : Database) → Touched d (run_write now w d)
unfolding run_write update_attempt_provider mark_attempt_enqueued
run_write-Touched now (moves id c) d = inr (
    inl (record {
      test = struck id c;
      set = write now c;
      keeps = write-id now c;
      moved = λ a h. inr (inl (write-Edge now c a (ground arith)));
      rows = run_call-rows now id c d;
    }))
run_write-Touched now (provides id provider failover_used) d = inr (
    inl (record {
      test = λ a. a.id == id;
      set = λ a. record a {
        provider_used = some provider;
        failover_used = failover_used;
        updated_at = now;
      };
      keeps = λ a. refl;
      moved = λ a h. inl refl;
      rows = ground arith;
    }))
run_write-Touched now (enqueues id) d = inr (
    inl (record {
      test = λ a. a.id == id;
      set = λ a. record a {
        dispatch_enqueued_at = or_else a.dispatch_enqueued_at (some now);
        updated_at = now;
      };
      keeps = λ a. refl;
      moved = λ a h. inl refl;
      rows = ground arith;
    }))
run_write-Touched now (publishes intent_id claimed_at) d =
    publish-Touched now intent_id claimed_at d
run_write-Touched now (retires parent) d = retire-Touched now parent d
run_write-Touched now (inserts params) d = create-Touched now params d
run_write-Touched now (inserts_first notification_id channel attempt_id) d =
    insert_first-Touched now notification_id channel attempt_id d
