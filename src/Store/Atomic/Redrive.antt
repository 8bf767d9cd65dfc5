-- ===== src/Store/Atomic/Redrive.antt =====
-- internal/store/postgres.go: what a redrive leaves of the tables when it fails.
use notification_service.Base.{
  eq_iff, eq_refl, sym, not, is_some, All, All-weaken, All-select_holds, select, ◌≡◌, refl, ◌∙◌, ap,
  List, [], ◌∷◌, ◌==◌, ◌&&◌, String, Bool, true, false, none, some, arith, inl, inr, Option-cases,
}
use notification_service.Base.Table.{find_key, find, All-find, by, find-update}
use notification_service.Store.Model.{Time, Notification, DeliveryAttempt, Database}
use notification_service.Store.Action.{ok, Result-cases}
use notification_service.Store.Rows.{find_notification}
use notification_service.Store.Attempts.Transitions.{recalculate-ok}
use notification_service.Store.Ingest.Acceptance.{create_dispatch_intent-notifications}
use notification_service.Store.Scheduling.Joined.{initial_rows-All}
use notification_service.Store.Scheduling.{
  PromotedScheduledNotification, promotion_of, set_promoted, redrive_notification, is_redrivable,
  has_no_intent, initial_rows, redrive_all, redrive_row, promote_row, is_initial_of,
}
use notification_service.Store.Atomic.{IsAtomic}

select-missing :
    (q : Notification → Bool) (id : String) (ns : List Notification)
    → find (by (λ n. n.id) id) ns ≡ none
    → select (λ n. n.id == id && q n) ns ≡ []
unfolding find
select-missing q id [] h = refl
select-missing q id (n ∷ ns) h = ground (arith, h, select-missing q id ns)

abbrev IsOf : String → Notification → Type 0
IsOf id n = n.id ≡ id

-- The row of a redrive is that of the notification, which is in the table.
redrive_row-id :
    (id : String) (d : Database) (row : Notification × DeliveryAttempt)
    → redrive_row id d ≡ some row
    → row.0.id ≡ id
unfolding redrive_row is_redrivable
redrive_row-id id d row h =
    let rows = select (is_redrivable id) d.notifications in
    let named : All (λ n. (a : DeliveryAttempt) → is_initial_of n a ≡ true → IsOf id n) rows =
      All-weaken (λ n. is_redrivable id n ≡ true)
        (λ n. (a : DeliveryAttempt) → is_initial_of n a ≡ true → IsOf id n)
        (λ n k a first. ground (arith, k, eq_iff n.id id)) rows
        (All-select_holds (is_redrivable id) d.notifications) in
    All-find (λ r. IsOf id r.0) (has_no_intent d) (initial_rows d rows) row
      (initial_rows-All (λ r. IsOf id r.0) d rows named) h

redrive_row-find :
    (id : String) (d : Database) (row : Notification × DeliveryAttempt)
    → redrive_row id d ≡ some row
    → (n : Notification) × (find_notification d row.0.id ≡ some n)
unfolding redrive_row is_redrivable find initial_rows
redrive_row-find id d row h = elim (Option-cases (find_notification d id)) [
  | inr (n, there) ↦ (n, rw (redrive_row-id id d row h) there)
  | inl gone ↦
      let open' =
        λ (n : Notification). not (is_some n.promoted_at) && not (is_some n.cancelled_at) in
      let empty : select (is_redrivable id) d.notifications ≡ [] =
        select-missing open' id d.notifications gone in
      let never : none ≡ some row =
        sym (ap (λ ns. find (has_no_intent d) (initial_rows d ns)) empty) ∙ h in
      cc never
]

promote_row-find :
    (clock now : Time) (row : Notification × DeliveryAttempt) (n : Notification) (d : Database)
    → (p : PromotedScheduledNotification) → find_notification d row.0.id ≡ some n
    → (promote_row clock now "manual_redrive" row d).1 ≡ ok p
    → (m : Notification) × (find_notification
          (promote_row clock now "manual_redrive" row d).0
          p.notification.id
        ≡ some m)
unfolding promote_row
promote_row-find clock now row n d p found h =
    let kept =
      create_dispatch_intent-notifications clock (promotion_of "manual_redrive" row.0 row.1) d in
    let set = set_promoted clock now in
    let written =
      find-update (λ m. m.id) (by (λ m. m.id) row.0.id) set row.0.id d.notifications (λ m. refl) in
    (
      set n,
      ground (
        arith,
        h,
        found,
        kept,
        written,
        find_key (λ m. m.id) row.0.id d.notifications n found,
        eq_refl row.0.id,
      ),
    )

redrive_all-find :
    (clock now : Time) (id : String) (d : Database) (p : PromotedScheduledNotification)
    → (redrive_all clock now id d).1 ≡ ok p
    → (m : Notification) × (find_notification (redrive_all clock now id d).0 p.notification.id
        ≡ some m)
unfolding redrive_all
redrive_all-find clock now id d p h = elim (Option-cases (redrive_row id d)) [
  | inl none' ↦ let never : true ≡ false = ground (arith, h, none') in cc never
  | inr (row, picked) ↦
      let (n, found) = redrive_row-find id d row picked in
      let promoted : (promote_row clock now "manual_redrive" row d).1 ≡ ok p =
        ground (arith, h, picked) in
      let (m, there) = promote_row-find clock now row n d p found promoted in
      (m, ground (arith, h, picked, there))
]

pub redrive-IsAtomic :
    (clock now : Time) (id : String) → IsAtomic (redrive_notification clock now id)
unfolding IsAtomic redrive_notification
redrive-IsAtomic clock now id d e h = elim (Result-cases (redrive_all clock now id d).1) [
  | inr (e', failed) ↦ ground (arith, failed)
  | inl (p, done) ↦
      let d' = (redrive_all clock now id d).0 in
      let (n, there) = redrive_all-find clock now id d p done in
      let never : true ≡ false =
        ground (arith, h, done, recalculate-ok clock p.notification.id d' n there) in
      cc never
]
