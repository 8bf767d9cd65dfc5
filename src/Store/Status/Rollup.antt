-- ===== src/Store/Status/Rollup.antt =====
-- internal/store/postgres.go: the rollup against a description of it by the attempts that there are.
use notification_service.Base.{
  Bool, true, ◌≡◌, refl, List, [], ◌∷◌, ◌||◌, any, arith, if◌then◌else◌,
}
use notification_service.Store.Status.{
  AttemptStatus, NotificationStatus, is_sent, is_dead_lettered, is_failed, is_pending,
  is_in_progress, is_retry_scheduled, Flags, note_status, note_statuses, no_flags,
  derive_notification_status,
}

-- An attempt whose outcome is open.
abbrev pub is_active : AttemptStatus → Bool
is_active s = is_pending s || (is_in_progress s || is_retry_scheduled s)

-- The loop's flags say which statuses occur.
note_statuses_lem :
    (f : Flags) (ss : List AttemptStatus)
    → note_statuses f ss ≡ record {
      has_sent = f.has_sent || any is_sent ss;
      has_dead_lettered = f.has_dead_lettered || any is_dead_lettered ss;
      has_failed = f.has_failed || any is_failed ss;
      has_active = f.has_active || any is_active ss;
    }
unfolding note_statuses note_status
note_statuses_lem f [] = ground arith
note_statuses_lem f (AttemptStatus.sent ∷ ss) =
    ground (arith, note_statuses_lem (record f { has_sent = true }) ss)
note_statuses_lem f (AttemptStatus.dead_lettered ∷ ss) =
    ground (arith, note_statuses_lem (record f { has_dead_lettered = true }) ss)
note_statuses_lem f (AttemptStatus.failed ∷ ss) =
    ground (arith, note_statuses_lem (record f { has_failed = true }) ss)
note_statuses_lem f (AttemptStatus.delivered ∷ ss) = ground (arith, note_statuses_lem f ss)
note_statuses_lem f (s ∷ ss) = ground (arith, note_statuses_lem (record f { has_active = true }) ss)

-- What the rollup promises, over the statuses that occur among the attempts.
pub rollup_spec : List AttemptStatus → NotificationStatus
rollup_spec ss =
    if any is_sent ss
    then (if any is_active ss || (any is_failed ss || any is_dead_lettered ss)
        then NotificationStatus.partially_delivered
        else NotificationStatus.delivered)
    else if any is_active ss
    then NotificationStatus.processing
    else if any is_dead_lettered ss
    then NotificationStatus.dead_lettered
    else if any is_failed ss
    then NotificationStatus.failed
    else NotificationStatus.accepted

-- The rollup's loop over the attempts gives the status described by which statuses occur: with a
-- sent attempt, partially delivered if any attempt is open, failed or dead-lettered, else
-- delivered; otherwise processing, dead-lettered or failed, in this order, by whether an open,
-- dead-lettered or failed attempt occurs; else accepted.
pub derive_notification_status-rollup_spec :
    (ss : List AttemptStatus) → derive_notification_status ss ≡ rollup_spec ss
unfolding derive_notification_status rollup_spec
derive_notification_status-rollup_spec [] = refl
derive_notification_status-rollup_spec (s ∷ ss) =
    ground (arith, note_statuses_lem no_flags (s ∷ ss))
