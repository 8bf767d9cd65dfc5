-- ===== src/Store/Ingest/Accepted.antt =====
-- internal/store/postgres.go: the rows of a notification that was accepted to be sent at once.
use notification_service.Base.{
  ◌≡◌, refl, ap, ◌∙◌, subst, String, true, false, none, some, arith, inl, inr,
}
use notification_service.Base.Table.{find, by}
use notification_service.Store.Model.{Time, Notification, DeliveryAttempt, DispatchIntent, Database}
use notification_service.Store.Action.{ok, Result-cases}
use notification_service.Store.Rows.{find_notification}
use notification_service.Store.Outbox.{
  CreateDispatchIntentParams, find_intent_of, create_dispatch_intent,
}
use notification_service.Store.Outbox.Intents.{create-finds}
use notification_service.Store.Ingest.{
  CreateNotificationDispatchParams, Accepted, has_key, initial_attempt, initial_intent, has_number,
  create_notification, get_notification_by_tenant_and_idempotency_key, create_delivery_attempt,
  insert_all,
}
use notification_service.Store.Ingest.Acceptance.{
  create_notification-create_notification, create_notification-find, create_notification-ok,
}
use notification_service.Store.Ingest.Inserted.{inserted-first, inserted-row, inserted-tables}

-- What the tables have of it: it is found by its key and by its id, with its first attempt, which was
-- not enqueued, and that attempt's intent.
pub record IsSent (tenant_id key channel template_id : String) (n : Notification) (d : Database)
    : Type 0 where
  pub attempt : DeliveryAttempt
  pub intent : DispatchIntent
  pub by_key : find (has_key tenant_id (some key)) d.notifications ≡ some n
  pub by_id : find_notification d n.id ≡ some n
  pub first : find (has_number n.id channel 1) d.attempts ≡ some attempt
  pub intended : find_intent_of d attempt.id ≡ some intent
  pub waits : attempt.dispatch_enqueued_at ≡ none
  pub of_template : n.template_id ≡ template_id

intent-frame :
    (now : Time) (params : CreateDispatchIntentParams) (d : Database)
    → let d' = (create_dispatch_intent now params d).0 in d' ≡ record d { outbox = d'.outbox }
unfolding create_dispatch_intent
intent-frame now params d = ground arith

module _ (now : Time) (params : CreateNotificationDispatchParams) (d : Database) (key : String)
    (keyed : params.notification.idempotency_key ≡ some key) where
  notification_made :
      (d' : Database) (n : Notification)
      → create_notification now params.notification d ≡ (d', ok n)
      → (find (has_key params.notification.tenant_id (some key)) d'.notifications ≡ some n)
        × (find_notification d' n.id ≡ some n)
        × (n.template_id ≡ params.notification.template_id)
        × (n.scheduled_for ≡ params.notification.scheduled_for)
        × (d' ≡ record d { notifications = d'.notifications })
  unfolding get_notification_by_tenant_and_idempotency_key
  notification_made d' n h =
      let (found, clash) =
        create_notification-create_notification now now params.notification params.notification key
          d d' n h keyed refl keyed in
      let (k, has, free, made, rows) = create_notification-ok now params.notification d d' n h in
      let result : (create_notification now params.notification d).1 ≡ ok n = ap (λ r. r.1) h in
      let there = create_notification-find now params.notification d n result in
      (
        ground (arith, found),
        subst (λ e. find_notification e n.id ≡ some n) (ap (λ r. r.0) h) there,
        ap (λ m. m.template_id) made,
        ap (λ m. m.scheduled_for) made,
        rw rows refl,
      )

  -- The tables after each of the statements.
  abbrev pub created : Database
  created = (create_notification now params.notification d).0

  abbrev pub attempted : Notification → Database
  attempted n = (create_delivery_attempt now (initial_attempt params n.id) created).0

  abbrev pub intended : Notification → DeliveryAttempt → Database
  intended n a = (create_dispatch_intent now (initial_intent params n a) (attempted n)).0

  abbrev pub Made : Notification → DeliveryAttempt → DispatchIntent → Type 0
  Made n a i =
      ((create_notification now params.notification d).1 ≡ ok n)
      × ((create_delivery_attempt now (initial_attempt params n.id) created).1 ≡ ok a)
      × ((create_dispatch_intent now (initial_intent params n a) (attempted n)).1 ≡ ok i)

  insert_all-returns :
      (n : Notification) (a : DeliveryAttempt) (i : DispatchIntent)
      → n.scheduled_for ≡ none
      → Made n a i
      → insert_all now params d ≡ (intended n a, ok (n, a, some i))
  unfolding insert_all
  insert_all-returns n a i unscheduled (e, f, g) = ground (arith, e, f, g, unscheduled)

  -- Each of the statements of an insertion that succeeds did.
  first_made :
      (made : Accepted)
      → (insert_all now params d).1 ≡ ok made
      → (n : Notification) × ((create_notification now params.notification d).1 ≡ ok n)
  unfolding insert_all
  first_made made h = elim (Result-cases (create_notification now params.notification d).1) [
    | inr (x, e) ↦ let never : true ≡ false = ground (arith, h, e) in cc never
    | inl there ↦ there
  ]

  module _ (made : Accepted) (h : (insert_all now params d).1 ≡ ok made) (n : Notification)
      (e : (create_notification now params.notification d).1 ≡ ok n) where
    second_made :
        (a : DeliveryAttempt) × ((create_delivery_attempt now
            (initial_attempt params n.id)
            created).1
          ≡ ok a)
    unfolding insert_all
    second_made =
        elim (Result-cases (create_delivery_attempt now (initial_attempt params n.id) created).1) [
          | inr (x, f) ↦ let never : true ≡ false = ground (arith, h, e, f) in cc never
          | inl there ↦ there
        ]

    third_made :
        (a : DeliveryAttempt)
        → (create_delivery_attempt now (initial_attempt params n.id) created).1 ≡ ok a
        → n.scheduled_for ≡ none
        → (i : DispatchIntent) × ((create_dispatch_intent now
              (initial_intent params n a)
              (attempted n)).1
            ≡ ok i)
    unfolding insert_all
    third_made a f unscheduled =
        elim (Result-cases
          (create_dispatch_intent now (initial_intent params n a) (attempted n)).1) [
            | inr (x, g) ↦
                let never : true ≡ false = ground (arith, h, e, f, g, unscheduled) in cc never
            | inl there ↦ there
          ]

  unscheduled-of :
      (n : Notification)
      → params.notification.scheduled_for ≡ none
      → (create_notification now params.notification d).1 ≡ ok n
      → n.scheduled_for ≡ none
  unscheduled-of n at_once e = (notification_made created n (ap (λ r. (created, r)) e)).3 ∙ at_once

  pub insert_all-Made :
      (made : Accepted)
      → params.notification.scheduled_for ≡ none
      → (insert_all now params d).1 ≡ ok made
      → (n : Notification) × (a : DeliveryAttempt) × (i : DispatchIntent) × Made n a i
        × (insert_all now params d ≡ (intended n a, ok (n, a, some i)))
  insert_all-Made made at_once h =
      let (n, e) = first_made made h in
      let unscheduled = unscheduled-of n at_once e in
      let (a, f) = second_made made h n e in
      let (i, g) = third_made made h n e a f unscheduled in
      (n, a, i, (e, f, g), insert_all-returns n a i unscheduled (e, f, g))

  pub Made-IsSent :
      (n : Notification) (a : DeliveryAttempt) (i : DispatchIntent)
      → Made n a i
      → IsSent params.notification.tenant_id key params.channel params.notification.template_id n
          (intended n a)
        × ((intended n a).tenants ≡ d.tenants)
        × ((intended n a).templates ≡ d.templates)
  Made-IsSent n a i (e, f, g) =
      let (keyed', found, template, unscheduled, rows) =
        notification_made created n (ap (λ r. (created, r)) e) in
      let params' = initial_attempt params n.id in
      let attempts = inserted-tables now params' created a f in
      let first = inserted-first now params' created a f in
      let row = inserted-row now params' created a f in
      let frame = intent-frame now (initial_intent params n a) (attempted n) in
      let notifications : (intended n a).notifications ≡ created.notifications =
        ap (λ t. t.notifications) frame ∙ ap (λ t. t.notifications) attempts in
      let same_attempts : (intended n a).attempts ≡ (attempted n).attempts =
        ap (λ t. t.attempts) frame in
      let test = has_key params.notification.tenant_id (some key) in
      (
        record {
          attempt = a;
          intent = i;
          by_key = ap (find test) notifications ∙ keyed';
          by_id = ap (find (by (λ m. m.id) n.id)) notifications ∙ found;
          first = ap (find (has_number n.id params.channel 1)) same_attempts ∙ first;
          intended =
              create-finds now (initial_intent params n a) (attempted n) (intended n a) i
                (ap (λ r. (intended n a, r)) g);
          waits = ap (λ b. b.dispatch_enqueued_at) row;
          of_template = template;
        },
        ap (λ t. t.tenants) frame ∙ ap (λ t. t.tenants) attempts ∙ ap (λ t. t.tenants) rows,
        ap (λ t. t.templates) frame ∙ ap (λ t. t.templates) attempts ∙ ap (λ t. t.templates) rows,
      )
