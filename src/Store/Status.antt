-- ===== src/Store/Status.antt =====
-- internal/store/postgres.go: the statuses, as the CHECK constraints of the migrations and the
-- enumeration of the outbox admit them, and the rollup of a notification's status.
pub mod Rollup
use notification_service.Base.{Bool, true, false, List, [], ◌∷◌, ◌&&◌, ◌||◌, if◌then◌else◌}

pub data AttemptStatus : Type 0 where
  pending in_progress sent delivered failed retry_scheduled dead_lettered : AttemptStatus

pub data NotificationStatus : Type 0 where
  accepted scheduled processing partially_delivered delivered failed dead_lettered cancelled :
      NotificationStatus

pub data IntentStatus : Type 0 where
  pending publishing published : IntentStatus

abbrev pub is_pending : AttemptStatus → Bool
is_pending AttemptStatus.pending = true
is_pending _ = false

abbrev pub is_in_progress : AttemptStatus → Bool
is_in_progress AttemptStatus.in_progress = true
is_in_progress _ = false

abbrev pub is_sent : AttemptStatus → Bool
is_sent AttemptStatus.sent = true
is_sent _ = false

abbrev pub is_failed : AttemptStatus → Bool
is_failed AttemptStatus.failed = true
is_failed _ = false

abbrev pub is_retry_scheduled : AttemptStatus → Bool
is_retry_scheduled AttemptStatus.retry_scheduled = true
is_retry_scheduled _ = false

abbrev pub is_dead_lettered : AttemptStatus → Bool
is_dead_lettered AttemptStatus.dead_lettered = true
is_dead_lettered _ = false

abbrev pub is_attempt_terminal_state : AttemptStatus → Bool
is_attempt_terminal_state AttemptStatus.sent = true
is_attempt_terminal_state AttemptStatus.failed = true
is_attempt_terminal_state AttemptStatus.retry_scheduled = true
is_attempt_terminal_state AttemptStatus.dead_lettered = true
is_attempt_terminal_state _ = false

abbrev pub is_scheduled : NotificationStatus → Bool
is_scheduled NotificationStatus.scheduled = true
is_scheduled _ = false

abbrev pub is_intent_pending : IntentStatus → Bool
is_intent_pending IntentStatus.pending = true
is_intent_pending _ = false

abbrev pub is_publishing : IntentStatus → Bool
is_publishing IntentStatus.publishing = true
is_publishing _ = false

abbrev pub is_published : IntentStatus → Bool
is_published IntentStatus.published = true
is_published _ = false

-- The four flags of the loop in deriveNotificationStatus.
pub record Flags : Type 0 where
  pub has_sent : Bool
  pub has_dead_lettered : Bool
  pub has_failed : Bool
  pub has_active : Bool

abbrev pub no_flags : Flags
no_flags = record {
  has_sent = false;
  has_dead_lettered = false;
  has_failed = false;
  has_active = false;
}

-- One round of the loop: the switch on an attempt's status.
pub note_status : Flags → AttemptStatus → Flags
note_status f AttemptStatus.sent = record f { has_sent = true }
note_status f AttemptStatus.dead_lettered = record f { has_dead_lettered = true }
note_status f AttemptStatus.failed = record f { has_failed = true }
note_status f AttemptStatus.pending = record f { has_active = true }
note_status f AttemptStatus.in_progress = record f { has_active = true }
note_status f AttemptStatus.retry_scheduled = record f { has_active = true }
note_status f AttemptStatus.delivered = f

pub note_statuses : Flags → List AttemptStatus → Flags
note_statuses f [] = f
note_statuses f (s ∷ ss) = note_statuses (note_status f s) ss

-- The switch after the loop.
pub status_of_flags : Flags → NotificationStatus
status_of_flags f =
    if f.has_sent && (f.has_dead_lettered || (f.has_failed || f.has_active))
    then NotificationStatus.partially_delivered
    else if f.has_sent
    then NotificationStatus.delivered
    else if f.has_active
    then NotificationStatus.processing
    else if f.has_dead_lettered
    then NotificationStatus.dead_lettered
    else if f.has_failed
    then NotificationStatus.failed
    else NotificationStatus.accepted

unfoldable pub derive_notification_status : List AttemptStatus → NotificationStatus
unfolding note_statuses note_status status_of_flags
derive_notification_status [] = NotificationStatus.accepted
derive_notification_status (s ∷ ss) = status_of_flags (note_statuses no_flags (s ∷ ss))
