-- ===== src/Examples/Ingest.antt =====
-- Accepting a notification over an attempt whose key is taken.
use notification_service.Base.{◌≡◌, refl, none, some, []}
use notification_service.Base.Table.{find}
use notification_service.Store.Status.{AttemptStatus}
use notification_service.Store.Model.{Database, conflict}
use notification_service.Store.Ingest.{
  CreateNotificationParams, CreateNotificationDispatchParams, create_notification,
  create_notification_with_initial_dispatch, insert_all, create_delivery_attempt,
}
use notification_service.Store.Ingest.Acceptance.{accept-atomic}
use notification_service.Examples.Fixtures.{tables}

abbrev asked : CreateNotificationParams
asked = record {
  id = "n2";
  tenant_id = "acme";
  template_id = "t1";
  idempotency_key = some "k2";
  recipient_email = none;
  recipient_webhook_url = some "https://one";
  secondary_webhook_url = none;
  variables = [];
  scheduled_for = none;
}

abbrev before : Database
before = tables AttemptStatus.pending

-- The attempt's key is taken, so the notification is not kept.
abbrev clashing : CreateNotificationDispatchParams
clashing = record { notification = asked; channel = "webhook"; attempt_id = "a1"; intent_id = "i2" }

accept-atomic_example : (create_notification_with_initial_dispatch 50 clashing before).0 ≡ before
unfolding create_notification_with_initial_dispatch insert_all create_notification
    create_delivery_attempt find
accept-atomic_example = accept-atomic 50 clashing before conflict refl
