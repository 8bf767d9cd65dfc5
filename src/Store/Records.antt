-- ===== src/Store/Records.antt =====
-- internal/store/postgres.go: what a worker reads to deliver a job, and the rows that it adds. The keys
-- and references that an INSERT checks are those of db/schema.sql.
use notification_service.Base.{String, ◌==◌, some, none, [], ◌∷◌, ◌++◌, if◌then◌else◌}
use notification_service.Base.Table.{find, by}
use notification_service.Store.Model.{
  Time, Variables, Template, Notification, DeliveryAttempt, DeadLetter, Database, StoreError,
  conflict, other,
}
use notification_service.Store.Action.{Action, Result, ok, err}
use notification_service.Store.Rows.{
  find_notification, find_dead_letter, get_notification_by_id, get_template_by_id,
  get_delivery_attempt_by_id,
}

-- A reference to a row that is not there.
abbrev pub foreign_key : StoreError
foreign_key = other "violates foreign key constraint"

-- `if err != nil { return ..., err }` in a read.
abbrev then_read : {A B : Type 0} → Result A → (A → Result B) → Result B
then_read (ok a) f = f a
then_read (err e) f = err e

unfoldable pub load_delivery_job :
    String → String → Database → Result (Notification × Template × DeliveryAttempt)
load_delivery_job notification_id attempt_id d =
    then_read (get_notification_by_id notification_id d) λ n.
      then_read (get_template_by_id n.template_id d) λ t.
        then_read (get_delivery_attempt_by_id attempt_id d) λ a.
          if a.notification_id == notification_id
          then ok (n, t, a)
          else err (other "attempt does not belong to notification")

abbrev new_dead_letter : Time → String → String → String → String → DeadLetter
new_dead_letter now id notification_id channel final_error = record {
  id = id;
  notification_id = notification_id;
  channel = channel;
  final_error = final_error;
  dead_lettered_at = now;
  replayed_at = none;
  replay_attempt_id = none;
}

unfoldable pub insert_dead_letter : Time → String → String → String → String → Action DeadLetter
insert_dead_letter now id notification_id channel final_error d =
    let l = new_dead_letter now id notification_id channel final_error in
    elim (find_dead_letter d id) [
      | some old ↦ (d, err conflict)
      | none ↦ elim (find_notification d notification_id) [
        | none ↦ (d, err foreign_key)
        | some n ↦ (record d { dead_letters = d.dead_letters ++ l ∷ [] }, ok l)
      ]
    ]

unfoldable pub record_audit_event :
    Time → String → String → String → String → String → String → Variables → Action (Unit {0})
record_audit_event now id tenant_id actor action resource_type resource_id metadata d =
    elim (find (by (λ e. e.id) id) d.audit_events) [
      | some old ↦ (d, err conflict)
      | none ↦ elim (find (by (λ t. t.id) tenant_id) d.tenants) [
        | none ↦ (d, err foreign_key)
        | some t ↦ (
          record d {
            audit_events =
                d.audit_events
                ++ record {
                  id = id;
                  tenant_id = tenant_id;
                  actor = actor;
                  action = action;
                  resource_type = resource_type;
                  resource_id = resource_id;
                  metadata = metadata;
                  created_at = now;
                }
                  ∷ [];
          },
          ok tt,
        )
      ]
    ]
