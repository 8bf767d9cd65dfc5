-- ===== src/Store/Scheduling/Promotion.antt =====
-- internal/store/postgres.go: what the loop of PromoteDueScheduledNotifications leaves behind.
use notification_service.Base.{◌≤◌, ◌≡◌, ◌==◌, ◌&&◌, refl, ap, ◌∙◌, String, some, [], ◌∷◌, arith}
use notification_service.Base.Table.{find, count, by, find-append}
use notification_service.Store.Model.{Time, Notification, DeliveryAttempt, DispatchIntent, Database}
use notification_service.Store.Action.{ok}
use notification_service.Store.Attempts.{recalculate_notification_status}
use notification_service.Store.Attempts.Transitions.{recalculate-frame}
use notification_service.Store.Outbox.{
  create_dispatch_intent, CreateDispatchIntentParams, find_intent_of, new_intent,
}
use notification_service.Store.Outbox.Intents.{create-finds}
use notification_service.Store.Maintenance.{waits_for_promotion}
use notification_service.Store.Scheduling.{PromotedScheduledNotification, promotion_of, promote_row}
use notification_service.Store.Scheduling.Waiting.{
  waiting, recalculate-count, promote_row-waiting, promote_row-count, promote_row-fields,
}

-- No notification starts to wait or is lost, and no attempt loses its intent.
pub record IsLater (d d' : Database) : Type 0 where
  pub waiting_le : (id : String) → waiting d' id ≤ waiting d id
  pub same_rows :
      (id : String)
      → count (by (λ n. n.id) id) d'.notifications ≡ count (by (λ n. n.id) id) d.notifications
  pub intents_kept :
      (id : String) (i : DispatchIntent)
      → find_intent_of d id ≡ some i
      → find_intent_of d' id ≡ some i

-- The notification of p waits no more, is there, and the attempt has the intent of p.
pub record IsPromoted (d : Database) (p : PromotedScheduledNotification) : Type 0 where
  pub waits_no_more : waiting d p.notification.id ≡ 0
  pub has_intent : find_intent_of d p.attempt.id ≡ some p.intent

pub same-IsLater : (d : Database) → IsLater d d
same-IsLater d = record {
  waiting_le = λ id. omega arith;
  same_rows = λ id. refl;
  intents_kept = λ id i h. h;
}

pub then-IsLater : (d e f : Database) → IsLater d e → IsLater e f → IsLater d f
then-IsLater d e f h k = record {
  waiting_le = λ id. omega (arith, h.waiting_le id, k.waiting_le id);
  same_rows = λ id. k.same_rows id ∙ h.same_rows id;
  intents_kept = λ id i found. k.intents_kept id i (h.intents_kept id i found);
}

pub later-IsPromoted :
    (d e : Database)
    → IsLater d e
    → (p : PromotedScheduledNotification) → IsPromoted d p
    → IsPromoted e p
later-IsPromoted d e later p h = record {
  waits_no_more = omega (arith, later.waiting_le p.notification.id, h.waits_no_more);
  has_intent = later.intents_kept p.attempt.id p.intent h.has_intent;
}

create_dispatch_intent-keeps :
    (now : Time) (params : CreateDispatchIntentParams) (d : Database) (id : String)
    (i : DispatchIntent)
    → find_intent_of d id ≡ some i
    → find_intent_of (create_dispatch_intent now params d).0 id ≡ some i
unfolding create_dispatch_intent
create_dispatch_intent-keeps now params d id i h =
    ground (arith, h, find-append (by (λ k. k.attempt_id) id) d.outbox (new_intent now params ∷ []))

module _ (clock now : Time) (source : String) (n : Notification) (a : DeliveryAttempt)
    (d : Database) (p : PromotedScheduledNotification)
    (h : (promote_row clock now source (n, a) d).1 ≡ ok p) where
  promote_row-outbox :
      ((promote_row clock now source (n, a) d).0.outbox
        ≡ (create_dispatch_intent clock (promotion_of source n a) d).0.outbox)
      × ((create_dispatch_intent clock (promotion_of source n a) d).1 ≡ ok p.intent)
  unfolding promote_row
  promote_row-outbox = (ground (arith, h), ground (arith, h))

  pub promote_row-IsLater : IsLater d (promote_row clock now source (n, a) d).0
  promote_row-IsLater = record {
    waiting_le = (promote_row-waiting clock now source n a d p h).1;
    same_rows = promote_row-count clock now source n a d p h;
    intents_kept = λ id i found.
        ap (find (by (λ k. k.attempt_id) id)) promote_row-outbox.0
        ∙ create_dispatch_intent-keeps clock (promotion_of source n a) d id i found;
  }

  pub promote_row-IsPromoted : IsPromoted (promote_row clock now source (n, a) d).0 p
  promote_row-IsPromoted =
      let (same, its) = promote_row-fields clock now source n a d p h in
      let (outbox, made) = promote_row-outbox in
      let d' = (create_dispatch_intent clock (promotion_of source n a) d).0 in
      let found : find_intent_of d' a.id ≡ some p.intent =
        create-finds clock (promotion_of source n a) d d' p.intent (ap (λ r. (d', r)) made) in
      record {
        waits_no_more =
            ap (λ m. waiting (promote_row clock now source (n, a) d).0 m.id) same
            ∙ (promote_row-waiting clock now source n a d p h).0;
        has_intent =
            ap (find_intent_of (promote_row clock now source (n, a) d).0) (ap (λ b. b.id) its)
            ∙ ap (find (by (λ k. k.attempt_id) a.id)) outbox
            ∙ found;
      }

pub recalculate-IsLater :
    (clock : Time) (id : String) (d : Database)
    → IsLater d (recalculate_notification_status clock id d).0
unfolding waits_for_promotion
recalculate-IsLater clock id d = record {
  waiting_le = λ k.
      omega (
        arith,
        recalculate-count (λ n. n.id == k && waits_for_promotion n) clock id d (λ m s. refl),
      );
  same_rows = λ k. recalculate-count (by (λ n. n.id) k) clock id d (λ m s. refl);
  intents_kept = λ k i found. ap (λ e. find_intent_of e k) (recalculate-frame clock id d) ∙ found;
}
