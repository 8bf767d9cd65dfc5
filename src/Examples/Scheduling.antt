-- ===== src/Examples/Scheduling.antt =====
-- A scheduled notification that is promoted, and one that is cancelled before its time.
use notification_service.Base.{◌≡◌, refl, false, some, [], ◌∷◌, All, any, ◌==◌, List}
use notification_service.Base.Table.{find, update, count}
use notification_service.Base.Sort.{order_by}
use notification_service.Store.Status.{AttemptStatus, NotificationStatus}
use notification_service.Store.Model.{Notification, Database, invalid_state_transition}
use notification_service.Store.Action.{ok, err}
use notification_service.Store.Attempts.{recalculate_notification_status}
use notification_service.Store.Policy.{is_paused, scoped_pause}
use notification_service.Store.Outbox.{create_dispatch_intent, new_intent}
use notification_service.Store.Maintenance.{waits_for_promotion, is_due_for_promotion}
use notification_service.Store.Scheduling.{
  PromotedScheduledNotification, promote_due_scheduled_notifications, promote_due, promote_rows,
  promote_row, due_rows, initial_rows, recalculate_all, promotion_of, cancel_scheduled_notification,
  can_cancel, set_cancelled, redrive_notification,
}
use notification_service.Store.Scheduling.Promotion.{IsPromoted}
use notification_service.Store.Scheduling.Due.{WasDue, promote_due-WasDue, promote_due-promote_due}
use notification_service.Store.Scheduling.Cancellation.{cancel-withdraws, promote-cancel}
use notification_service.Examples.Fixtures.{tables, order, attempt_in}

abbrev planned : Notification
planned = record order { status = NotificationStatus.scheduled; scheduled_for = some 50 }

abbrev waiting : Database
waiting = record (tables AttemptStatus.pending) { notifications = planned ∷ [] }

abbrev promoted : PromotedScheduledNotification
promoted = record {
  notification = record planned { promoted_at = some 60 };
  attempt = attempt_in AttemptStatus.pending;
  intent = new_intent 61 (promotion_of "scheduled" planned (attempt_in AttemptStatus.pending));
}

abbrev after : Database
after = (promote_due_scheduled_notifications 61 60 10 waiting).0

promoted_once : (promote_due_scheduled_notifications 61 60 10 waiting).1 ≡ ok (promoted ∷ [])
unfolding promote_due_scheduled_notifications promote_due promote_rows promote_row due_rows
    initial_rows recalculate_all create_dispatch_intent recalculate_notification_status is_paused
    scoped_pause find update count order_by waits_for_promotion is_due_for_promotion
promoted_once = refl

promote_due-WasDue_example : All (λ p. WasDue 60 waiting p × IsPromoted after p) (promoted ∷ [])
promote_due-WasDue_example = promote_due-WasDue 61 60 10 waiting (promoted ∷ []) promoted_once

abbrev none_due : List PromotedScheduledNotification
none_due = []

none_left : (promote_due_scheduled_notifications 71 70 10 after).1 ≡ ok []
unfolding promote_due_scheduled_notifications promote_due promote_rows promote_row due_rows
    initial_rows recalculate_all create_dispatch_intent recalculate_notification_status is_paused
    scoped_pause find update count order_by waits_for_promotion is_due_for_promotion
none_left = refl

promote_due-promote_due_example :
    All (λ p. any (λ q. q.notification.id == p.notification.id) none_due ≡ false) (promoted ∷ [])
promote_due-promote_due_example =
    promote_due-promote_due 61 60 71 70 10 10 waiting (promoted ∷ []) none_due promoted_once
      none_left

abbrev withdrawn : Database
withdrawn = (cancel_scheduled_notification 20 "n1" waiting).0

cancelled : (cancel_scheduled_notification 20 "n1" waiting).1 ≡ ok (set_cancelled 20 planned)
unfolding cancel_scheduled_notification can_cancel find update count
cancelled = refl

none_promoted : (promote_due_scheduled_notifications 71 70 10 withdrawn).1 ≡ ok []
unfolding promote_due_scheduled_notifications promote_due promote_rows promote_row due_rows
    initial_rows recalculate_all create_dispatch_intent recalculate_notification_status is_paused
    scoped_pause find update count order_by waits_for_promotion is_due_for_promotion
    cancel_scheduled_notification can_cancel
none_promoted = refl

cancel-withdraws_example :
    (any (λ q. q.notification.id == "n1") none_due ≡ false)
    × (redrive_notification 71 70 "n1" withdrawn ≡ (withdrawn, err invalid_state_transition))
unfolding find
cancel-withdraws_example =
    cancel-withdraws 20 71 70 10 "n1" waiting (set_cancelled 20 planned) none_due (refl, tt)
      cancelled none_promoted

promote-cancel_example :
    All
      (λ p.
        cancel_scheduled_notification 30 p.notification.id after
        ≡ (after, err invalid_state_transition))
      (promoted ∷ [])
promote-cancel_example = promote-cancel 61 60 30 10 waiting (promoted ∷ []) promoted_once
