-- ===== src/Store/Rows.antt =====
-- internal/store/postgres.go: reading rows by their key, and the attempts of a notification.
use notification_service.Base.{
  ℕ, String, Bool, false, ◌&&◌, ◌==◌, Option, none, some, List, [], ◌∷◌, map, select, take, leb,
  ltb, eqb, if◌then◌else◌,
}
use notification_service.Base.Table.{find, by}
use notification_service.Base.Sort.{order_by}
use notification_service.Store.Status.{is_dead_lettered}
use notification_service.Store.Model.{
  Tenant, Template, Notification, DeliveryAttempt, DeadLetter, Database,
}
use notification_service.Store.Action.{Result, or_not_found}

abbrev pub find_notification : Database → String → Option Notification
find_notification d id = find (by (λ n. n.id) id) d.notifications

abbrev pub find_attempt : Database → String → Option DeliveryAttempt
find_attempt d id = find (by (λ a. a.id) id) d.attempts

abbrev pub find_dead_letter : Database → String → Option DeadLetter
find_dead_letter d id = find (by (λ l. l.id) id) d.dead_letters

abbrev pub get_tenant_by_id : String → Database → Result Tenant
get_tenant_by_id id d = or_not_found (find (by (λ t. t.id) id) d.tenants)

abbrev pub get_template_by_id : String → Database → Result Template
get_template_by_id id d = or_not_found (find (by (λ t. t.id) id) d.templates)

abbrev pub get_notification_by_id : String → Database → Result Notification
get_notification_by_id id d = or_not_found (find_notification d id)

abbrev pub get_delivery_attempt_by_id : String → Database → Result DeliveryAttempt
get_delivery_attempt_by_id id d = or_not_found (find_attempt d id)

abbrev pub get_dead_letter_by_id : String → Database → Result DeadLetter
get_dead_letter_by_id id d = or_not_found (find_dead_letter d id)

-- ORDER BY attempt_number ASC, created_at ASC.
attempt_before : DeliveryAttempt → DeliveryAttempt → Bool
attempt_before a b =
    if eqb a.attempt_number b.attempt_number
    then leb a.created_at b.created_at
    else ltb a.attempt_number b.attempt_number

-- ORDER BY dead_lettered_at ASC.
dead_letter_before : DeadLetter → DeadLetter → Bool
dead_letter_before a b = leb a.dead_lettered_at b.dead_lettered_at

-- The LEFT JOINs on ROW_NUMBER(): the n-th dead-lettered attempt of a notification and channel has
-- the n-th dead letter of the two.
pair_dead_letter : String → List DeliveryAttempt → List DeadLetter → Option String
pair_dead_letter id [] ls = none
pair_dead_letter id (a ∷ as') [] = none
pair_dead_letter id (a ∷ as') (l ∷ ls) =
    let rest = pair_dead_letter id as' ls in if a.id == id then some l.id else rest

abbrev pub points_to : Option String → String → Bool
points_to none id = false
points_to (some i) id = i == id

abbrev id_of : Option DeadLetter → Option String
id_of none = none
id_of (some l) = some l.id

-- The two columns that the query adds to a row.
with_dead_letters : Database → DeliveryAttempt → DeliveryAttempt
unfolding pair_dead_letter attempt_before dead_letter_before
with_dead_letters d a = record a {
  dead_letter_id =
      pair_dead_letter a.id
        (order_by attempt_before (
          select
            (λ b.
              b.notification_id == a.notification_id
              && b.channel == a.channel
              && is_dead_lettered b.status)
            d.attempts))
        (order_by dead_letter_before (
          select (λ l. l.notification_id == a.notification_id && l.channel == a.channel)
            d.dead_letters));
  replay_of_dead_letter = id_of (find (λ l. points_to l.replay_attempt_id a.id) d.dead_letters);
}

pub list_delivery_attempts_by_notification_id : String → Database → List DeliveryAttempt
unfolding with_dead_letters
list_delivery_attempts_by_notification_id notification_id d =
    map (with_dead_letters d)
      (order_by attempt_before (select (λ a. a.notification_id == notification_id) d.attempts))

abbrev first_attempt : List DeliveryAttempt → Option DeliveryAttempt
first_attempt [] = none
first_attempt (a ∷ as') = some a

-- WHERE enqueue_kind = 'initial' ORDER BY attempt_number ASC LIMIT 1.
pub get_initial_attempt_by_notification_id : String → Database → Result DeliveryAttempt
get_initial_attempt_by_notification_id notification_id d = or_not_found (
    first_attempt (
      order_by (λ a b. leb a.attempt_number b.attempt_number)
        (select (λ a. a.notification_id == notification_id && a.enqueue_kind == "initial")
          d.attempts)))

-- ORDER BY dead_lettered_at DESC LIMIT.
pub list_dead_letters : ℕ → Database → List DeadLetter
list_dead_letters limit d =
    take (if eqb limit 0 then 100 else limit)
      (order_by (λ l m. leb m.dead_lettered_at l.dead_lettered_at) d.dead_letters)
