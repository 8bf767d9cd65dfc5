-- ===== src/Examples/Attempts.antt =====
-- The life of attempts, on one that two workers want.
use notification_service.Base.{◌≡◌, ◌⊎◌, ◌≤◌, refl, some, false, [], ◌∷◌, String, List}
use notification_service.Base.Table.{find}
use notification_service.Store.Status.{AttemptStatus}
use notification_service.Store.Model.{DeliveryAttempt}
use notification_service.Store.Rows.{find_attempt}
use notification_service.Store.Status.Rollup.{rollup_spec, derive_notification_status-rollup_spec}
use notification_service.Store.Status.{derive_notification_status}
use notification_service.Store.Attempts.Lifecycle.{start, send, run_call, run_call-Edge, Edge}
use notification_service.Store.Attempts.Writes.{moves, provides, enqueues, retires}
use notification_service.Store.Attempts.Traces.{Request, run, run-terminal, starts, starts-le-one}
use notification_service.Examples.Fixtures.{tables, attempt_in}

-- Two workers take the job, and one of them sends.
abbrev requests : List Request
requests =
    record { now = 9; write = enqueues "a1" }
    ∷ (record { now = 10; write = moves "a1" start }
        ∷ (record { now = 11; write = moves "a1" start }
            ∷ (record { now = 12; write = provides "a1" "primary" false }
                ∷ (record { now = 13; write = moves "a1" (send (some "m1")) } ∷ []))))

-- A retry that is followed.
abbrev following : List Request
following =
    record { now = 9; write = retires (attempt_in AttemptStatus.retry_scheduled) } ∷ requests

run-terminal_example :
    (b : DeliveryAttempt) × (find_attempt
        (run following (tables AttemptStatus.retry_scheduled))
        "a1"
      ≡ some b)
    × ((b.status ≡ AttemptStatus.retry_scheduled)
        ⊎ ((◌≡◌ {A = AttemptStatus} AttemptStatus.retry_scheduled AttemptStatus.retry_scheduled)
            × (b.status ≡ AttemptStatus.failed)))
unfolding find
run-terminal_example =
    run-terminal following (tables AttemptStatus.retry_scheduled) "a1"
      (attempt_in AttemptStatus.retry_scheduled) refl refl

starts-le-one_example : starts "a1" requests (tables AttemptStatus.pending) ≤ 1
unfolding find
starts-le-one_example = starts-le-one requests (tables AttemptStatus.pending) "a1" (refl, tt)

run_call-Edge_example :
    (b : DeliveryAttempt) × (find_attempt
        (run_call 10 "a1" start (tables AttemptStatus.pending)).0
        "a1"
      ≡ some b)
    × ((b ≡ attempt_in AttemptStatus.pending)
        ⊎ (◌≡◌ {A = String} "a1" "a1" × Edge AttemptStatus.pending b.status))
unfolding find
run_call-Edge_example =
    run_call-Edge 10 "a1" start (tables AttemptStatus.pending) "a1"
      (attempt_in AttemptStatus.pending) refl

rollup_example :
    derive_notification_status (AttemptStatus.sent ∷ (AttemptStatus.failed ∷ []))
    ≡ rollup_spec (AttemptStatus.sent ∷ (AttemptStatus.failed ∷ []))
rollup_example =
    derive_notification_status-rollup_spec (AttemptStatus.sent ∷ (AttemptStatus.failed ∷ []))
