-- ===== src/Store/Scheduling/Joined.antt =====
-- internal/store/postgres.go: the rows that the queries on notifications and their first attempts join.
use notification_service.Base.{
  ℕ, ◌≡◌, ◌≢◌, Bool, true, List, [], ◌∷◌, All, All-weaken, All-append, All-select, All-select_holds,
  All-take, All-both, arith, select, eqb, if◌then◌else◌,
}
use notification_service.Base.Table.{count}
use notification_service.Base.Sort.{order_by, All-order_by}
use notification_service.Store.Model.{Time, Notification, DeliveryAttempt, Database}
use notification_service.Store.Maintenance.{is_due_for_promotion}
use notification_service.Store.Scheduling.{
  with_notification, initial_rows, due_rows, scheduled_before, may_start, is_initial_of,
}

module _ {κ} (P : Notification × DeliveryAttempt → Type κ) where
  with_notification-All :
      (n : Notification) (as' : List DeliveryAttempt)
      → ((a : DeliveryAttempt) → is_initial_of n a ≡ true → P (n, a))
      → All (λ a. is_initial_of n a ≡ true) as'
      → All P (with_notification n as')
  with_notification-All n [] h k = tt
  with_notification-All n (a ∷ as') h k = (h a k.0, with_notification-All n as' h k.1)

  -- What holds of the notifications with each of their first attempts holds of the rows joined.
  pub initial_rows-All :
      (d : Database) (ns : List Notification)
      → All (λ n. (a : DeliveryAttempt) → is_initial_of n a ≡ true → P (n, a)) ns
      → All P (initial_rows d ns)
  unfolding initial_rows
  initial_rows-All d [] h = tt
  initial_rows-All d (n ∷ ns) h =
      let here = select (is_initial_of n) d.attempts in
      All-append P (with_notification n here) (initial_rows d ns)
        (with_notification-All n here h.0 (All-select_holds (is_initial_of n) d.attempts))
        (initial_rows-All d ns h.1)

  abbrev pub HoldsIfDue : Time → Notification → Type κ
  HoldsIfDue now n =
      is_due_for_promotion now n ≡ true
      → (a : DeliveryAttempt) → is_initial_of n a ≡ true
      → P (n, a)

  -- What holds of the rows that the query's tests pass holds of its rows.
  pub due_rows-All :
      (now : Time) (limit : ℕ) (d : Database)
      → All (HoldsIfDue now) d.notifications
      → All (λ r. P r × (may_start d r ≡ true)) (due_rows now limit d)
  unfolding due_rows
  due_rows-All now limit d h =
      let due = select (is_due_for_promotion now) d.notifications in
      let passed =
        All-both (HoldsIfDue now) (λ n. is_due_for_promotion now n ≡ true) due
          (All-select (HoldsIfDue now) (is_due_for_promotion now) d.notifications h)
          (All-select_holds (is_due_for_promotion now) d.notifications) in
      let rows = initial_rows-All d due (
        All-weaken (λ n. HoldsIfDue now n × (is_due_for_promotion now n ≡ true))
          (λ n. (a : DeliveryAttempt) → is_initial_of n a ≡ true → P (n, a)) (λ n k. k.0 k.1) due
          passed) in
      let started = select (may_start d) (initial_rows d due) in
      let both =
        All-both P (λ r. may_start d r ≡ true) started
          (All-select P (may_start d) (initial_rows d due) rows)
          (All-select_holds (may_start d) (initial_rows d due)) in
      All-take (λ r. P r × (may_start d r ≡ true)) (if eqb limit 0 then 100 else limit)
        (order_by scheduled_before started)
        (All-order_by scheduled_before (λ r. P r × (may_start d r ≡ true)) started both)

module _ {ℓ} {A : Type ℓ} where
  -- A row that passes its own test is counted by it.
  pub All-counted :
      (p : A → A → Bool) (xs : List A) → All (λ x. p x x ≡ true → count (p x) xs ≢ 0) xs
  unfolding count
  All-counted p [] = tt
  All-counted p (x ∷ xs) = (
    λ h. ground (arith, h),
    All-weaken (λ y. p y y ≡ true → count (p y) xs ≢ 0)
        (λ y. p y y ≡ true → count (p y) (x ∷ xs) ≢ 0)
        (λ y k h. let more : count (p y) xs ≢ 0 = k h in ground (arith, more)) xs
        (All-counted p xs),
  )
