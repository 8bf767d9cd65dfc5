-- ===== src/Store/Scheduling/Cancellation.antt =====
-- internal/store/postgres.go: CancelScheduledNotification against the promotion and the redrive.
use notification_service.Base.{
  ℕ, ◌≤◌, All-both, ◌≡◌, ◌≢◌, refl, sym, ap, subst, ◌∙◌, String, Bool, true, false, ◌&&◌, ◌==◌,
  none, some, List, [], ◌∷◌, All, All-weaken, any, arith, eq_iff, inl, inr, Option-cases,
  Bool-cases, is_some, not, select,
}
use notification_service.Base.Table.{
  IsKeyed, update_row, update-IsKeyed, find, update, count, by, count-by, find-update, find_key,
  count_row, count-of_find, count-by-none, count-update_none,
}
use notification_service.Store.Model.{
  Time, Notification, Database, not_found, invalid_state_transition,
}
use notification_service.Store.Action.{ok, err}
use notification_service.Store.Rows.{find_notification}
use notification_service.Store.Maintenance.{waits_for_promotion}
use notification_service.Store.Scheduling.{
  PromotedScheduledNotification, can_cancel, set_cancelled, cancel_scheduled_notification,
  redrive_notification, promote_due_scheduled_notifications, redrive_row, redrive_all,
  is_redrivable, initial_rows,
}
use notification_service.Store.Scheduling.Waiting.{waiting}
use notification_service.Store.Scheduling.Promotion.{IsPromoted}
use notification_service.Store.Scheduling.Due.{
  promoted-there, promote-not_waiting, promote_due-WasDue, WasDue,
}

count-none :
    {A : Type 0} (key : A → String) (k : String) (xs : List A)
    → find (by key k) xs ≡ none
    → count (by key k) xs ≡ 0
unfolding find count
count-none key k [] h = refl
count-none key k (x ∷ xs) h = ground (arith, count-none key k xs)

module _ (clock : Time) (id : String) (d : Database)
    (keyed : IsKeyed (λ n. n.id) d.notifications) where
  cancel-missing :
      find_notification d id ≡ none → cancel_scheduled_notification clock id d ≡ (d, err not_found)
  unfolding cancel_scheduled_notification
  cancel-missing e = ground (
    arith,
    e,
    count-by-none (λ n. n.id) (can_cancel clock d) id d.notifications e,
    count-none (λ m. m.id) id d.notifications e,
    count-update_none (λ n. n.id == id && can_cancel clock d n) (set_cancelled clock)
        d.notifications,
  )

  cancel-refused :
      (n : Notification)
      → find_notification d id ≡ some n
      → can_cancel clock d n ≡ false
      → cancel_scheduled_notification clock id d ≡ (d, err invalid_state_transition)
  unfolding cancel_scheduled_notification
  cancel-refused n e late = ground (
    arith,
    e,
    late,
    count-by (λ n. n.id) (can_cancel clock d) id d.notifications keyed,
    count-of_find (by (λ m. m.id) id) d.notifications n e,
    count-update_none (λ n. n.id == id && can_cancel clock d n) (set_cancelled clock)
        d.notifications,
  )

  cancel-ok :
      (n : Notification)
      → find_notification d id ≡ some n
      → can_cancel clock d n ≡ true
      → cancel_scheduled_notification clock id d ≡ (
        record d {
          notifications =
              update
                (λ n. n.id == id && can_cancel clock d n)
                (set_cancelled clock)
                d.notifications;
        },
        ok (set_cancelled clock n),
      )
  unfolding cancel_scheduled_notification
  cancel-ok n e early = ground (
    arith,
    e,
    early,
    count-by (λ n. n.id) (can_cancel clock d) id d.notifications keyed,
    find-update (λ n. n.id) (λ n. n.id == id && can_cancel clock d n) (set_cancelled clock) id
        d.notifications (λ m. refl),
    eq_iff n.id id,
    find_key (λ n. n.id) id d.notifications n e,
  )

  cancel-found :
      (n : Notification)
      → (cancel_scheduled_notification clock id d).1 ≡ ok n
      → (m : Notification) × (find_notification d id ≡ some m) × (can_cancel clock d m ≡ true)
  cancel-found n h = elim (Option-cases (find_notification d id)) [
    | inl e ↦ cc (h, ap (λ r. r.1) (cancel-missing e))
    | inr (m, e) ↦ elim (Bool-cases (can_cancel clock d m)) [
      | inl early ↦ (m, e, early)
      | inr late ↦ cc (h, ap (λ r. r.1) (cancel-refused m e late))
    ]
  ]

  -- The notification is there after, cancelled, under a key that is still one.
  cancelled :
      (n : Notification)
      → (cancel_scheduled_notification clock id d).1 ≡ ok n
      → let d' = (cancel_scheduled_notification clock id d).0 in
        (m : Notification) × (find_notification d' id ≡ some m)
        × (is_some m.cancelled_at ≡ true)
        × IsKeyed (λ n. n.id) d'.notifications
  cancelled n h =
      let (m, found, early) = cancel-found n h in
      let all = cancel-ok m found early in
      let p = λ (k : Notification). k.id == id && can_cancel clock d k in
      let row : update_row p (set_cancelled clock) (some m) ≡ some (set_cancelled clock m) =
        ground (arith, early, eq_iff m.id id, find_key (λ n. n.id) id d.notifications m found) in
      (
        set_cancelled clock m,
        ap (λ r. find_notification r.0 id) all
            ∙ find-update (λ n. n.id) p (set_cancelled clock) id d.notifications (λ m. refl)
            ∙ ap (update_row p (set_cancelled clock)) found
            ∙ row,
        refl,
        subst (λ r. IsKeyed (λ n. n.id) r.0.notifications) (sym all)
            (update-IsKeyed (λ n. n.id) p (set_cancelled clock) d.notifications (λ m. refl) keyed),
      )

select-none : {A : Type 0} (p : A → Bool) (xs : List A) → count p xs ≡ 0 → select p xs ≡ []
unfolding count
select-none p [] h = refl
select-none p (x ∷ xs) h = ground (arith, select-none p xs)

-- No row that a redrive could take.
redrive-none :
    (clock now : Time) (id : String) (d : Database)
    → count (is_redrivable id) d.notifications ≡ 0
    → count (by (λ n. n.id) id) d.notifications ≢ 0
    → redrive_notification clock now id d ≡ (d, err invalid_state_transition)
unfolding redrive_notification redrive_all redrive_row initial_rows find
redrive-none clock now id d gone there =
    ground (arith, select-none (is_redrivable id) d.notifications gone, there)

-- Where no two notifications share a key, after a cancellation succeeds, no promotion that
-- succeeds returns the notification, whatever its times and limit, and a redrive of it is an
-- invalid transition that changes nothing.
pub cancel-withdraws :
    (clock later_clock later : Time) (limit : ℕ) (id : String) (d : Database) (n : Notification)
    (qs : List PromotedScheduledNotification)
    → IsKeyed (λ n. n.id) d.notifications
    → (cancel_scheduled_notification clock id d).1 ≡ ok n
    → let d' = (cancel_scheduled_notification clock id d).0 in
      (promote_due_scheduled_notifications later_clock later limit d').1 ≡ ok qs
      → (any (λ q. q.notification.id == id) qs ≡ false)
        × (redrive_notification later_clock later id d' ≡ (d', err invalid_state_transition))
unfolding waits_for_promotion is_redrivable
cancel-withdraws clock later_clock later limit id d n qs keyed h k =
    let d' = (cancel_scheduled_notification clock id d).0 in
    let (m, found, gone, keyed') = cancelled clock id d keyed n h in
    let rows = count-by (λ n. n.id) waits_for_promotion id d'.notifications keyed' in
    let open_rows =
      count-by (λ n. n.id) (λ n. not (is_some n.promoted_at) && not (is_some n.cancelled_at)) id
        d'.notifications keyed' in
    let none_waits : waiting d' id ≡ 0 =
      rows ∙ ap (count_row waits_for_promotion) found ∙ ground (arith, gone) in
    let none_open : count (is_redrivable id) d'.notifications ≡ 0 =
      open_rows
      ∙ ap (count_row (λ n. not (is_some n.promoted_at) && not (is_some n.cancelled_at))) found
      ∙ ground (arith, gone) in
    (
      promote-not_waiting later_clock later limit d' qs id none_waits k,
      redrive-none later_clock later id d' none_open
          (count-of_find (by (λ m. m.id) id) d'.notifications m found),
    )

count-le :
    {A : Type 0} (p q : A → Bool) (xs : List A)
    → ((x : A) → p x ≡ true → q x ≡ true)
    → count p xs ≤ count q xs
unfolding count
count-le p q [] h = omega arith
count-le p q (x ∷ xs) h = ground (arith, h x, count-le p q xs h)

-- A cancellation finds no row among those that do not wait.
cancel-not_waiting :
    (clock : Time) (id : String) (d : Database)
    → waiting d id ≡ 0
    → count (by (λ n. n.id) id) d.notifications ≢ 0
    → cancel_scheduled_notification clock id d ≡ (d, err invalid_state_transition)
unfolding cancel_scheduled_notification can_cancel waits_for_promotion
cancel-not_waiting clock id d gone there =
    let few : count (λ n. n.id == id && can_cancel clock d n) d.notifications ≡ 0 = omega (
      arith,
      gone,
      count-le (λ n. n.id == id && can_cancel clock d n) (λ n. n.id == id && waits_for_promotion n)
          d.notifications (λ n. ground arith),
    ) in
    ground (
      arith,
      few,
      there,
      count-update_none (λ n. n.id == id && can_cancel clock d n) (set_cancelled clock)
          d.notifications few,
    )

-- After a promotion succeeds, a cancellation of any notification that it returned is an invalid
-- transition that changes nothing.
pub promote-cancel :
    (clock now later : Time) (limit : ℕ) (d : Database) (ps : List PromotedScheduledNotification)
    → (promote_due_scheduled_notifications clock now limit d).1 ≡ ok ps
    → let d' = (promote_due_scheduled_notifications clock now limit d).0 in
      All
        (λ p.
          cancel_scheduled_notification later p.notification.id d'
          ≡ (d', err invalid_state_transition))
        ps
promote-cancel clock now later limit d ps h =
    let d' = (promote_due_scheduled_notifications clock now limit d).0 in
    let P = λ (p : PromotedScheduledNotification). WasDue now d p × IsPromoted d' p in
    let Q = λ (p : PromotedScheduledNotification).
      count (by (λ n. n.id) p.notification.id) d'.notifications ≢ 0 in
    All-weaken (λ p. P p × Q p)
      (λ p.
        cancel_scheduled_notification later p.notification.id d'
        ≡ (d', err invalid_state_transition))
      (λ p k. cancel-not_waiting later p.notification.id d' k.0.1.waits_no_more k.1) ps
      (All-both P Q ps (promote_due-WasDue clock now limit d ps h)
        (promoted-there clock now limit d ps h))
