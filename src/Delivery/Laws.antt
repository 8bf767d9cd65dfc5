-- ===== src/Delivery/Laws.antt =====
-- internal/delivery/service.go: what the service asks of its store: the statuses of the attempts as a view
-- of the store's state, and how each call moves them.
use notification_service.Base.{String, Bool, ◌≡◌, Option, some}
use notification_service.Store.Status.{AttemptStatus}
use notification_service.Store.Model.{Time, Variables, Notification, Template, DeliveryAttempt}
use notification_service.Store.Action.{ok}
use notification_service.Delivery.Service.{NotificationStore}

pub record StoreLaws {S : Type 0} (store : NotificationStore S) : Type 1 where
  pub IsValid : S → Type 0
  pub status_of : String → S → Option AttemptStatus
  pub start-IsValid :
      (id : String) (s : S) → IsValid s → IsValid (store.mark_attempt_in_progress id s).0
  pub load-id :
      (n a : String) (s : S) (x : Notification) (t : Template) (b : DeliveryAttempt)
      → store.load_delivery_job n a s ≡ ok (x, t, b)
      → b.id ≡ a
  pub send-status :
      (id : String) (p : Option String) (s : S)
      → IsValid s
      → (store.mark_attempt_sent id p s).1 ≡ ok tt
      → status_of id (store.mark_attempt_sent id p s).0 ≡ some AttemptStatus.sent
  pub fail-status :
      (id cause : String) (s : S)
      → IsValid s
      → (store.mark_attempt_failed id cause s).1 ≡ ok tt
      → status_of id (store.mark_attempt_failed id cause s).0 ≡ some AttemptStatus.failed
  pub retry-status :
      (id cause : String) (at : Time) (s : S)
      → IsValid s
      → (store.schedule_retry id cause at s).1 ≡ ok tt
      → status_of id (store.schedule_retry id cause at s).0 ≡ some AttemptStatus.retry_scheduled
  pub bury-status :
      (id cause : String) (s : S)
      → IsValid s
      → (store.mark_attempt_dead_lettered id cause s).1 ≡ ok tt
      → status_of id (store.mark_attempt_dead_lettered id cause s).0
        ≡ some AttemptStatus.dead_lettered
  pub provider-status :
      (id p : String) (b : Bool) (s : S) (j : String)
      → status_of j (store.update_attempt_provider id p b s).0 ≡ status_of j s
  pub insert-status :
      (id n c e : String) (s : S) (j : String)
      → status_of j (store.insert_dead_letter id n c e s).0 ≡ status_of j s
  pub audit-status :
      (id t w c r i : String) (m : Variables) (s : S) (j : String)
      → status_of j (store.record_audit_event id t w c r i m s).0 ≡ status_of j s
