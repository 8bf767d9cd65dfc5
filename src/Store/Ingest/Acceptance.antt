-- ===== src/Store/Ingest/Acceptance.antt =====
-- internal/store/postgres.go: what accepting a notification does, and what asking again does.
use notification_service.Base.{
  ◌≡◌, refl, ap, String, true, false, ◌==◌, Option, none, some, [], ◌∷◌, ◌++◌, any, arith, inl, inr,
  Option-cases, Bool-cases, eq_refl,
}
use notification_service.Base.Table.{find, by, find-last, any-last, find-insert_self}
use notification_service.Store.Outbox.{CreateDispatchIntentParams, create_dispatch_intent}
use notification_service.Store.Model.{
  Time, Notification, DispatchIntent, Database, conflict, StoreError,
}
use notification_service.Store.Action.{or_not_found, ok, err, Result-cases}
use notification_service.Store.Rows.{find_notification}
use notification_service.Store.Attempts.Transitions.{recalculate-ok, recalculate-find}
use notification_service.Store.Ingest.{
  CreateNotificationParams, has_key, is_taken, new_notification, create_notification,
  get_notification_by_tenant_and_idempotency_key, Accepted, CreateNotificationDispatchParams,
  CreateDeliveryAttemptParams, create_delivery_attempt, insert_all, roll_up,
  create_notification_with_initial_dispatch,
}

module _ (now : Time) (params : CreateNotificationParams) (d d' : Database) (n : Notification) where
  -- What a creation that succeeds found and wrote.
  pub create_notification-ok :
      create_notification now params d ≡ (d', ok n)
      → (key : String) × (params.idempotency_key ≡ some key)
        × (is_taken params d ≡ false)
        × (n ≡ new_notification now params)
        × (d' ≡ record d { notifications = d.notifications ++ new_notification now params ∷ [] })
  unfolding create_notification
  create_notification-ok h = elim (Option-cases params.idempotency_key) [
    | inl e ↦ let never : true ≡ false = ground (arith, e) in cc never
    | inr (key, e) ↦ (key, e, ground arith, ground arith, ground arith)
  ]

-- What a creation that succeeds has made can be read.
pub create_notification-find :
    (now : Time) (params : CreateNotificationParams) (d : Database) (n : Notification)
    → (create_notification now params d).1 ≡ ok n
    → find_notification (create_notification now params d).0 n.id ≡ some n
create_notification-find now params d n h =
    let d' = (create_notification now params d).0 in
    let both : create_notification now params d ≡ (d', ok n) = ap (λ r. (d', r)) h in
    let (k, has, free, made, rows) = create_notification-ok now params d d' n both in
    let m = new_notification now params in
    let missing : find (by (λ x. x.id) m.id) d.notifications ≡ none = ground (arith, free) in
    rw (rows, made) (find-insert_self (λ x. x.id) d.notifications m missing)

pub create_delivery_attempt-notifications :
    (now : Time) (params : CreateDeliveryAttemptParams) (d : Database)
    → (create_delivery_attempt now params d).0.notifications ≡ d.notifications
unfolding create_delivery_attempt
create_delivery_attempt-notifications now params d = ground arith

pub create_dispatch_intent-notifications :
    (now : Time) (params : CreateDispatchIntentParams) (d : Database)
    → (create_dispatch_intent now params d).0.notifications ≡ d.notifications
unfolding create_dispatch_intent
create_dispatch_intent-notifications now params d = ground arith

pub roll_up-find :
    (now : Time) (id : String) (i : Option DispatchIntent) (d : Database) (n : Notification)
    → find_notification d id ≡ some n
    → ((roll_up now id i d).1 ≡ ok tt)
      × (m : Notification) × (find_notification (roll_up now id i d).0 id ≡ some m)
roll_up-find now id none d n h = (refl, n, h)
roll_up-find now id (some i) d n h = elim (Bool-cases (i.id == "")) [
  | inl e ↦ rw e (refl, n, h)
  | inr e ↦
      let (m, there, tenant) = recalculate-find now id d n h in
      rw e (recalculate-ok now id d n h, m, there)
]

module _ (now : Time) (params : CreateNotificationDispatchParams) (d : Database) where
  pub insert_all-find :
      (made : Accepted)
      → (insert_all now params d).1 ≡ ok made
      → find_notification (insert_all now params d).0 made.0.id ≡ some made.0
  unfolding insert_all
  insert_all-find made h = grind (
    arith,
    create_notification-find now params.notification d,
    create_delivery_attempt-notifications,
    create_dispatch_intent-notifications,
  )

  -- Accepting a notification with its first attempt and dispatch intent is all or nothing: if the
  -- call ends in an error that is not a failure of the driver, the tables are as they were.
  pub accept-atomic :
      (e : StoreError)
      → (create_notification_with_initial_dispatch now params d).1 ≡ err e
      → (create_notification_with_initial_dispatch now params d).0 ≡ d
  unfolding create_notification_with_initial_dispatch
  accept-atomic e h = elim (Result-cases (insert_all now params d).1) [
    | inr (e', failed) ↦ ground (arith, failed)
    | inl (made, ok_made) ↦
        let (fine, m, there) =
          roll_up-find now made.0.id made.2 (insert_all now params d).0 made.0
            (insert_all-find made ok_made) in
        let never : true ≡ false = ground (arith, ok_made, fine, there) in cc never
  ]

-- After a notification is created under a tenant and an idempotency key, the two lead to it, and a
-- further creation with the same two is a conflict that changes nothing, whatever else it asks.
pub create_notification-create_notification :
    (now later : Time) (params again : CreateNotificationParams) (key : String)
    → (d d' : Database) (n : Notification) → create_notification now params d ≡ (d', ok n)
    → params.idempotency_key ≡ some key
    → again.tenant_id ≡ params.tenant_id
    → again.idempotency_key ≡ some key
    → (get_notification_by_tenant_and_idempotency_key params.tenant_id key d' ≡ ok n)
      × (create_notification later again d' ≡ (d', err conflict))
unfolding create_notification get_notification_by_tenant_and_idempotency_key
create_notification-create_notification now later params again key d d' n h keyed tenant
      keyed_again =
    let (k, has, free, made, rows) = create_notification-ok now params d d' n h in
    let m = new_notification now params in
    let test = has_key params.tenant_id (some key) in
    let hit : test m ≡ true = ground (arith, eq_refl params.tenant_id, eq_refl key) in
    let missing : any test d.notifications ≡ false = ground (arith, keyed) in
    let found : find test (d.notifications ++ m ∷ []) ≡ some m =
      find-last test d.notifications m missing hit in
    let taken : any test (d.notifications ++ m ∷ []) ≡ true = any-last test d.notifications m hit in
    let there : find test d'.notifications ≡ some n = rw (rows, made) found in
    let clash : any (has_key again.tenant_id again.idempotency_key) d'.notifications ≡ true =
      rw (tenant, keyed_again, rows) taken in
    (ap or_not_found there, ground (arith, keyed_again, clash))
