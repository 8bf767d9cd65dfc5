-- ===== src/Store/Atomic/Dispatch.antt =====
-- internal/store/postgres.go: what preparing an initial attempt or a replay leaves when it fails.
use notification_service.Base.{
  ◌≡◌, String, true, false, some, arith, inl, inr, Option-cases, Bool-cases,
}
use notification_service.Store.Model.{
  Time, Notification, DeliveryAttempt, DispatchIntent, DeadLetter, Database,
}
use notification_service.Store.Action.{ok, Result-cases}
use notification_service.Store.Rows.{find_notification, find_dead_letter}
use notification_service.Store.Attempts.Transitions.{recalculate-ok}
use notification_service.Store.Ingest.Acceptance.{
  create_delivery_attempt-notifications, create_dispatch_intent-notifications,
}
use notification_service.Store.Ingest.Recovery.{ensure_all, insert_first, ensure_initial_attempt}
use notification_service.Store.Retries.{
  ReplayDeadLetterResult, replay_all, replay_child, is_replayed, point_at, ensure_replay_attempt,
}
use notification_service.Store.Atomic.{IsAtomic}

insert_first-notifications :
    (now : Time) (id channel attempt_id : String) (d : Database)
    → (insert_first now id channel attempt_id d).0.notifications ≡ d.notifications
unfolding insert_first
insert_first-notifications now id channel attempt_id d = ground arith

-- The notification of an initial attempt that was ensured is there.
ensure_all-find :
    (now : Time) (id channel attempt_id intent_id : String) (d : Database)
    → (r : DeliveryAttempt × DispatchIntent)
    → (ensure_all now id channel attempt_id intent_id d).1 ≡ ok r
    → (n : Notification) × (find_notification
          (ensure_all now id channel attempt_id intent_id d).0
          id
        ≡ some n)
unfolding ensure_all
ensure_all-find now id channel attempt_id intent_id d r h =
    elim (Option-cases (find_notification d id)) [
      | inl gone ↦ let never : true ≡ false = ground (arith, h, gone) in cc never
      | inr (n, found) ↦ (
        n,
        grind (arith, found, h, insert_first-notifications, create_dispatch_intent-notifications),
      )
    ]

pub ensure_initial-IsAtomic :
    (now : Time) (id channel attempt_id intent_id : String)
    → IsAtomic (ensure_initial_attempt now id channel attempt_id intent_id)
unfolding IsAtomic ensure_initial_attempt
ensure_initial-IsAtomic now id channel attempt_id intent_id d e h =
    elim (Result-cases (ensure_all now id channel attempt_id intent_id d).1) [
      | inr (e', failed) ↦ ground (arith, failed)
      | inl (made, done) ↦
          let d' = (ensure_all now id channel attempt_id intent_id d).0 in
          let (n, there) = ensure_all-find now id channel attempt_id intent_id d made done in
          let never : true ≡ false = ground (arith, h, done, recalculate-ok now id d' n there) in
          cc never
    ]

replay_child-notifications :
    (now : Time) (l : DeadLetter) (id : String) (d : Database)
    → (replay_child now l id d).0.notifications ≡ d.notifications
unfolding replay_child
replay_child-notifications now l id d = grind (arith, create_delivery_attempt-notifications)

point_at-notifications :
    (l : DeadLetter) (id : String) (d : Database)
    → (point_at l id d).0.notifications ≡ d.notifications
unfolding point_at
point_at-notifications l id d = ground arith

-- The notification of a replay that was prepared is there.
replay_all-find :
    (now : Time) (l : DeadLetter) (id : String) (d : Database) (r : ReplayDeadLetterResult)
    → (replay_all now l id d).1 ≡ ok r
    → (n : Notification) × (find_notification (replay_all now l id d).0 l.notification_id ≡ some n)
unfolding replay_all
replay_all-find now l id d r h =
    elim (Option-cases (find_notification (replay_all now l id d).0 l.notification_id)) [
      | inr there ↦ there
      | inl gone ↦
          let never : true ≡ false = grind (
            arith, h, gone, replay_child-notifications, create_dispatch_intent-notifications,
            point_at-notifications,
          ) in
          cc never
    ]

pub ensure_replay-IsAtomic :
    (now : Time) (id new_id : String) → IsAtomic (ensure_replay_attempt now id new_id)
unfolding IsAtomic ensure_replay_attempt
ensure_replay-IsAtomic now id new_id d e h = elim (Option-cases (find_dead_letter d id)) [
  | inl gone ↦ ground (arith, gone)
  | inr (l, found) ↦ elim (Bool-cases (is_replayed l)) [
    | inl done ↦ ground (arith, found, done)
    | inr open' ↦ elim (Result-cases (replay_all now l new_id d).1) [
      | inr (e', failed) ↦ ground (arith, found, open', failed)
      | inl (made, done) ↦
          let d' = (replay_all now l new_id d).0 in
          let (n, there) = replay_all-find now l new_id d made done in
          let never : true ≡ false =
            ground
              (arith, h, found, open', done, recalculate-ok now l.notification_id d' n there) in
          cc never
    ]
  ]
]
