-- ===== src/Store/Attempts/Lifecycle.antt =====
-- internal/store/postgres.go: the life of an attempt under any sequence of the store's writes to it,
-- by any number of workers.
use notification_service.Base.{
  String, Bool, true, false, ◌≡◌, refl, ap, ◌∙◌, ◌⊎◌, inl, inr, ◌==◌, ◌&&◌, Option, some, arith,
  eq_iff, Bool-cases,
}
use notification_service.Base.Table.{
  find, update, by, IsKeyed, update_row, find-update, update-IsKeyed, find_key,
}
use notification_service.Store.Status.{
  AttemptStatus, is_pending, is_in_progress, is_attempt_terminal_state,
}
use notification_service.Store.Model.{Time, DeliveryAttempt, Database, StoreError}
use notification_service.Store.Action.{Action, ok}
use notification_service.Store.Rows.{find_attempt}
use notification_service.Store.Attempts.{
  transition, start_refusal, finish_refusal, mark_attempt_in_progress, mark_attempt_sent,
  mark_attempt_failed, schedule_retry, mark_attempt_dead_lettered, set_in_progress, set_sent,
  set_failed, set_retry, set_dead_lettered,
}
use notification_service.Store.Attempts.Transitions.{transition-rows, transition-ok_from}

-- One write by a worker to the attempt that it names.
pub data Call : Type 0 where
  start : Call
  send : Option String → Call
  fail : String → Call
  retry : String → Time → Call
  bury : String → Call

unfoldable pub run_call : Time → String → Call → Action (Unit {0})
run_call now id start = mark_attempt_in_progress now id
run_call now id (send provider_id) = mark_attempt_sent now id provider_id
run_call now id (fail cause) = mark_attempt_failed now id cause
run_call now id (retry cause at) = schedule_retry now id cause at
run_call now id (bury cause) = mark_attempt_dead_lettered now id cause

-- The edges of the lifecycle.
pub data Edge : AttemptStatus → AttemptStatus → Type 0 where
  starts : Edge AttemptStatus.pending AttemptStatus.in_progress
  sends : Edge AttemptStatus.in_progress AttemptStatus.sent
  fails : Edge AttemptStatus.in_progress AttemptStatus.failed
  retries : Edge AttemptStatus.in_progress AttemptStatus.retry_scheduled
  buries : Edge AttemptStatus.in_progress AttemptStatus.dead_lettered

-- The status that a call leaves, its write, and its refusal.
abbrev source : Call → AttemptStatus → Bool
source start = is_pending
source _ = is_in_progress

abbrev pub write : Time → Call → DeliveryAttempt → DeliveryAttempt
write now start = set_in_progress now
write now (send provider_id) = set_sent now provider_id
write now (fail cause) = set_failed now cause
write now (retry cause at) = set_retry now cause at
write now (bury cause) = set_dead_lettered now cause

abbrev refusal : Call → AttemptStatus → StoreError
refusal start = start_refusal
refusal _ = finish_refusal

run_call_lem :
    (now : Time) (id : String) (c : Call)
    → run_call now id c ≡ transition now id (source c) (refusal c) (write now c)
unfolding run_call mark_attempt_in_progress mark_attempt_sent mark_attempt_failed schedule_retry
    mark_attempt_dead_lettered
run_call_lem now id start = refl
run_call_lem now id _ = refl

pub write-id : (now : Time) (c : Call) (a : DeliveryAttempt) → (write now c a).id ≡ a.id
unfolding set_in_progress set_sent set_failed set_retry set_dead_lettered
write-id now start a = refl
write-id now _ a = refl

pub write-Edge :
    (now : Time) (c : Call) (a : DeliveryAttempt)
    → source c a.status ≡ true
    → Edge a.status (write now c a).status
unfolding set_in_progress set_sent set_failed set_retry set_dead_lettered
write-Edge now start a h = grind (arith, starts)
write-Edge now _ a h = grind (arith, sends, fails, retries, buries)

-- No edge leaves a finished status, and none enters `pending`.
pub Edge-not-terminal : {s t : AttemptStatus} → Edge s t → is_attempt_terminal_state s ≡ false
Edge-not-terminal starts = refl
Edge-not-terminal _ = refl

pub Edge-not-pending : {s t : AttemptStatus} → Edge s t → is_pending t ≡ false
Edge-not-pending starts = refl
Edge-not-pending _ = refl

abbrev pub IsAttemptKeyed : Database → Type 0
IsAttemptKeyed d = IsKeyed (λ a. a.id) d.attempts

abbrev pub struck : String → Call → DeliveryAttempt → Bool
struck id c a = a.id == id && source c a.status

module _ (now : Time) (id : String) (c : Call) (d : Database) where
  -- One UPDATE on the attempts.
  pub run_call-rows :
      (run_call now id c d).0.attempts ≡ update (struck id c) (write now c) d.attempts
  run_call-rows =
      rw (run_call_lem now id c)
        (transition-rows now id (source c) (refusal c) (write now c) (write-id now c) d)

  pub run_call-IsAttemptKeyed : IsAttemptKeyed d → IsAttemptKeyed (run_call now id c d).0
  run_call-IsAttemptKeyed keyed =
      rw run_call-rows
        (update-IsKeyed (λ a. a.id) (struck id c) (write now c) d.attempts (write-id now c) keyed)

  -- Each write of the store to an attempt (start, sent, failed, retry, dead-letter) leaves any
  -- attempt of the table as it was, or it is the attempt named and its status moves along an edge
  -- of the lifecycle: pending to in progress, or in progress to a finished status.
  pub run_call-Edge :
      (j : String) (a : DeliveryAttempt)
      → find_attempt d j ≡ some a
      → (b : DeliveryAttempt) × (find_attempt (run_call now id c d).0 j ≡ some b)
        × ((b ≡ a) ⊎ ((j ≡ id) × Edge a.status b.status))
  run_call-Edge j a h = elim (Bool-cases (struck id c a)) [
    | inl hit ↦
        (write now c a, row ∙ ground arith, inr (j_eq hit, write-Edge now c a (ground arith)))
    | inr miss ↦ (a, row ∙ ground arith, inl refl)
  ]
    where
      row :
          find_attempt (run_call now id c d).0 j
          ≡ update_row (struck id c) (write now c) (find_attempt d j)
      row =
          ap (find (by (λ b. b.id) j)) run_call-rows
          ∙ find-update (λ b. b.id) (struck id c) (write now c) j d.attempts (write-id now c)

      j_eq : struck id c a ≡ true → j ≡ id
      j_eq hit = ground (arith, eq_iff a.id id, find_key (λ b. b.id) j d.attempts a h)

-- A worker starts an attempt only from `pending`, and leaves it in progress.
pub start_ok-pending :
    (now : Time) (id : String) (d : Database)
    → IsAttemptKeyed d
    → (run_call now id start d).1 ≡ ok tt
    → (a : DeliveryAttempt) × (find_attempt d id ≡ some a) × (is_pending a.status ≡ true)
start_ok-pending now id d keyed h =
    transition-ok_from now id is_pending start_refusal (set_in_progress now) (write-id now start) d
      keyed (rw (run_call_lem now id start) at h)

pub start_ok-not_pending :
    (now : Time) (id : String) (d : Database) (a : DeliveryAttempt)
    → find_attempt d id ≡ some a
    → is_pending a.status ≡ true
    → find_attempt (run_call now id start d).0 id ≡ some (set_in_progress now a)
start_ok-not_pending now id d a h at =
    ap (find (by (λ b. b.id) id)) (run_call-rows now id start d)
    ∙ find-update (λ b. b.id) (struck id start) (set_in_progress now) id d.attempts
        (write-id now start)
    ∙ ground (arith, eq_iff a.id id, find_key (λ b. b.id) id d.attempts a h)

-- A write that succeeds leaves the attempt that it names as the write has it.
pub run_call_ok :
    (now : Time) (id : String) (c : Call) (d : Database)
    → IsAttemptKeyed d
    → (run_call now id c d).1 ≡ ok tt
    → (a : DeliveryAttempt) × (find_attempt (run_call now id c d).0 id ≡ some (write now c a))
run_call_ok now id c d keyed h =
    let (a, found, at) =
      transition-ok_from now id (source c) (refusal c) (write now c) (write-id now c) d keyed
        (rw (run_call_lem now id c) at h) in
    (
      a,
      ap (find (by (λ b. b.id) id)) (run_call-rows now id c d)
          ∙ find-update (λ b. b.id) (struck id c) (write now c) id d.attempts (write-id now c)
          ∙ ground (arith, eq_iff a.id id, find_key (λ b. b.id) id d.attempts a found),
    )
