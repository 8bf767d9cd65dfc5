-- ===== src/Store/Scheduling.antt =====
-- internal/store/postgres.go: scheduled notifications. PromoteDueScheduledNotifications turns those that
-- are due into intents, CancelScheduledNotification withdraws one that is not, and RedriveNotification
-- promotes one by hand. `clock` is the database's NOW(), `now` the caller's time.
pub mod Waiting
pub mod Promotion
pub mod Loop
pub mod Joined
pub mod Due
pub mod Cancellation
use Prim.Native.String.{◌++◌ as concat}
use notification_service.Base.{
  ℕ, String, Bool, true, false, ◌&&◌, ◌==◌, Option, none, some, List, [], ◌∷◌, ◌++◌, map, select,
  take, any, leb, ltb, eqb, is_some, not, if◌then◌else◌,
}
use notification_service.Base.Table.{find, update, count, by, or_else}
use notification_service.Base.Sort.{order_by}
use notification_service.Store.Status.{NotificationStatus, is_scheduled}
use notification_service.Store.Model.{
  Time, Notification, DeliveryAttempt, DispatchIntent, Database, not_found,
  invalid_state_transition,
}
use notification_service.Store.Action.{
  Action, Result, ok, err, pure, fail, query, ◌>>=◌, ◌>>◌, transaction, or_not_found,
}
use notification_service.Store.Rows.{get_notification_by_id}
use notification_service.Store.Attempts.{
  is_after, update_notifications, recalculate_notification_status,
}
use notification_service.Store.Policy.{is_paused, resolve_delivery_policy}
use notification_service.Store.Outbox.{
  CreateDispatchIntentParams, create_dispatch_intent, find_intent_of,
}
use notification_service.Store.Maintenance.{waits_for_promotion, is_due_for_promotion}

pub record PromotedScheduledNotification : Type 0 where
  pub notification : Notification
  pub attempt : DeliveryAttempt
  pub intent : DispatchIntent

-- JOIN delivery_attempts ... AND da.enqueue_kind = 'initial' AND da.attempt_number = 1.
abbrev pub is_initial_of : Notification → DeliveryAttempt → Bool
is_initial_of n a =
    a.notification_id == n.id && (a.enqueue_kind == "initial" && eqb a.attempt_number 1)

abbrev pub with_notification :
    Notification → List DeliveryAttempt → List (Notification × DeliveryAttempt)
with_notification n [] = []
with_notification n (a ∷ as') = (n, a) ∷ with_notification n as'

unfoldable pub initial_rows : Database → List Notification → List (Notification × DeliveryAttempt)
initial_rows d [] = []
initial_rows d (n ∷ ns) =
    with_notification n (select (is_initial_of n) d.attempts) ++ initial_rows d ns

-- NOT EXISTS (SELECT 1 FROM dispatch_outbox o WHERE o.attempt_id = da.id), and the pause gate.
abbrev pub may_start : Database → Notification × DeliveryAttempt → Bool
may_start d (n, a) =
    not (is_some (find_intent_of d a.id)) && not (is_paused n.tenant_id a.channel d)

time_before : Option Time → Option Time → Bool
time_before none t = false
time_before (some s) none = true
time_before (some s) (some t) = ltb s t

-- ORDER BY n.scheduled_for ASC, n.submitted_at ASC.
pub scheduled_before : Notification × DeliveryAttempt → Notification × DeliveryAttempt → Bool
unfolding time_before
scheduled_before (m, a) (n, b) =
    if time_before m.scheduled_for n.scheduled_for
    then true
    else if time_before n.scheduled_for m.scheduled_for
    then false
    else leb m.submitted_at n.submitted_at

-- The rows that the query of the promotion returns.
unfoldable pub due_rows : Time → ℕ → Database → List (Notification × DeliveryAttempt)
due_rows now limit d = take (if eqb limit 0 then 100 else limit) (
    order_by scheduled_before
      (select (may_start d) (initial_rows d (select (is_due_for_promotion now) d.notifications))))

abbrev pub promotion_of : String → Notification → DeliveryAttempt → CreateDispatchIntentParams
promotion_of source n a = record {
  id = concat "intent-" a.id;
  notification_id = n.id;
  attempt_id = a.id;
  tenant_id = n.tenant_id;
  channel = a.channel;
  source = source;
  status = none;
  published_at = none;
}

abbrev pub set_promoted : Time → Time → Notification → Notification
set_promoted clock now n = record n {
  promoted_at = or_else n.promoted_at (some now);
  updated_at = clock;
}

-- The intent of one row, and the mark on its notification.
unfoldable pub promote_row :
    Time → Time → String → Notification × DeliveryAttempt → Action PromotedScheduledNotification
promote_row clock now source (n, a) = do
  i ← create_dispatch_intent clock (promotion_of source n a)
  rows ← update_notifications (by (λ m. m.id) n.id) (set_promoted clock now)
  pure (record { notification = record n { promoted_at = some now }; attempt = a; intent = i })

-- The loop over the rows.
unfoldable pub promote_rows :
    Time
    → Time
    → List (Notification × DeliveryAttempt)
    → Action (List PromotedScheduledNotification)
promote_rows clock now [] = pure []
promote_rows clock now (row ∷ rows) = do
  p ← promote_row clock now "scheduled" row
  ps ← promote_rows clock now rows
  pure (p ∷ ps)

unfoldable pub recalculate_all : Time → List PromotedScheduledNotification → Action (Unit {0})
recalculate_all clock [] = pure tt
recalculate_all clock (p ∷ ps) = do
  recalculate_notification_status clock p.notification.id
  recalculate_all clock ps

unfoldable pub promote_due : Time → Time → ℕ → Action (List PromotedScheduledNotification)
promote_due clock now limit d = promote_rows clock now (due_rows now limit d) d

unfoldable pub promote_due_scheduled_notifications :
    Time → Time → ℕ → Action (List PromotedScheduledNotification)
promote_due_scheduled_notifications clock now limit = do
  ps ← transaction (promote_due clock now limit)
  recalculate_all clock ps
  pure ps

-- The WHERE clause of the cancellation.
unfoldable pub can_cancel : Time → Database → Notification → Bool
can_cancel clock d n =
    is_some n.scheduled_for
    && is_after n.scheduled_for clock
    && is_scheduled n.status
    && not (is_some n.promoted_at)
    && not (is_some n.cancelled_at)
    && not (any (λ i. i.notification_id == n.id) d.outbox)

abbrev pub set_cancelled : Time → Notification → Notification
set_cancelled clock n = record n {
  status = NotificationStatus.cancelled;
  cancelled_at = some clock;
  updated_at = clock;
}

-- Why no row was changed.
abbrev pub refuse_by_existence : {A : Type 0} → String → Action A
refuse_by_existence id d =
    if eqb (count (by (λ n. n.id) id) d.notifications) 0
    then (d, err not_found)
    else (d, err invalid_state_transition)

unfoldable pub cancel_scheduled_notification : Time → String → Action Notification
cancel_scheduled_notification clock id d =
    (do
      rows ← update_notifications (λ n. n.id == id && can_cancel clock d n) (set_cancelled clock)
      if eqb rows 0 then refuse_by_existence id else query (get_notification_by_id id))
      d

-- The row of RedriveNotification, and its test of the attempt.
unfoldable pub is_redrivable : String → Notification → Bool
is_redrivable id n = n.id == id && (not (is_some n.promoted_at) && not (is_some n.cancelled_at))

abbrev pub has_no_intent : Database → Notification × DeliveryAttempt → Bool
has_no_intent d (n, a) = not (is_some (find_intent_of d a.id))

unfoldable pub redrive_row : String → Database → Option (Notification × DeliveryAttempt)
redrive_row id d =
    find (has_no_intent d) (initial_rows d (select (is_redrivable id) d.notifications))

unfoldable pub redrive_all : Time → Time → String → Action PromotedScheduledNotification
redrive_all clock now id d = elim (redrive_row id d) [
  | none ↦ refuse_by_existence id d
  | some row ↦
      if is_some row.0.cancelled_at
      then (d, err invalid_state_transition)
      else if (resolve_delivery_policy row.0.tenant_id row.1.channel d).paused
      then (d, err invalid_state_transition)
      else promote_row clock now "manual_redrive" row d
]

unfoldable pub redrive_notification : Time → Time → String → Action PromotedScheduledNotification
redrive_notification clock now id = do
  p ← transaction (redrive_all clock now id)
  recalculate_notification_status clock p.notification.id
  pure p
