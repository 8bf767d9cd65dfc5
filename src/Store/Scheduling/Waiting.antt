-- ===== src/Store/Scheduling/Waiting.antt =====
-- internal/store/postgres.go: how many rows of a notification still wait for their promotion.
use notification_service.Base.{
  Option-cases, map, subst, ℕ, ◌≤◌, ◌≡◌, refl, sym, ap, ◌∙◌, String, Bool, false, ◌&&◌, ◌==◌, some,
  List, [], ◌∷◌, arith, inl, inr,
}
use notification_service.Base.Table.{update, count, by}
use notification_service.Store.Model.{Time, Notification, DeliveryAttempt, Database}
use notification_service.Store.Action.{ok}
use notification_service.Store.Attempts.{recalculate_notification_status, rolled_up_status}
use notification_service.Store.Status.{NotificationStatus, derive_notification_status}
use notification_service.Store.Rows.{find_notification, list_delivery_attempts_by_notification_id}
use notification_service.Store.Ingest.Acceptance.{create_dispatch_intent-notifications}
use notification_service.Store.Maintenance.{waits_for_promotion}
use notification_service.Store.Scheduling.{
  PromotedScheduledNotification, promotion_of, set_promoted, promote_row,
}

abbrev pub waiting_in : String → List Notification → ℕ
waiting_in id ns = count (λ n. n.id == id && waits_for_promotion n) ns

abbrev pub waiting : Database → String → ℕ
waiting d id = waiting_in id d.notifications

module _ {ℓ} {A : Type ℓ} (p q : A → Bool) (f : A → A) where
  pub count-update_same :
      (xs : List A) → ((x : A) → p (f x) ≡ p x) → count p (update q f xs) ≡ count p xs
  unfolding count update
  count-update_same [] e = refl
  count-update_same (x ∷ xs) e = ground (arith, e x, count-update_same xs e)

  pub count-update_le :
      (xs : List A)
      → ((x : A) → p x ≡ false → p (f x) ≡ false)
      → count p (update q f xs) ≤ count p xs
  unfolding count update
  count-update_le [] e = omega arith
  count-update_le (x ∷ xs) e = ground (arith, e x, count-update_le xs e)

  -- The rows that pass are all updated to rows that do not.
  pub count-update_zero :
      (xs : List A)
      → ((x : A) → p (f x) ≡ false)
      → ((x : A) → q x ≡ false → p x ≡ false)
      → count p (update q f xs) ≡ 0
  unfolding count update
  count-update_zero [] e k = refl
  count-update_zero (x ∷ xs) e k = ground (arith, e x, k x, count-update_zero xs e k)

-- The rollup writes the status and the time of the write.
pub recalculate-count :
    (p : Notification → Bool) (clock : Time) (id : String) (d : Database)
    → ((m : Notification) (s : NotificationStatus)
        → p (record m { status = s; updated_at = clock }) ≡ p m)
    → count p (recalculate_notification_status clock id d).0.notifications ≡ count p d.notifications
unfolding recalculate_notification_status
recalculate-count p clock id d same = elim (Option-cases (find_notification d id)) [
  | inl e ↦ ground (arith, e)
  | inr (n, e) ↦
      let attempts = list_delivery_attempts_by_notification_id id d in
      let status =
        rolled_up_status clock n (derive_notification_status (map (λ a. a.status) attempts)) in
      let rows =
        count-update_same p (by (λ m. m.id) id)
          (λ m. record m { status = status; updated_at = clock }) d.notifications
          (λ m. same m status) in
      ground (arith, e, rows)
]

module _ (clock now : Time) (source : String) (n : Notification) (a : DeliveryAttempt)
    (d : Database) where
  promote_row-notifications :
      (p : PromotedScheduledNotification)
      → (promote_row clock now source (n, a) d).1 ≡ ok p
      → (promote_row clock now source (n, a) d).0.notifications
        ≡ update (by (λ m. m.id) n.id) (set_promoted clock now) d.notifications
  unfolding promote_row
  promote_row-notifications p h =
      ground (arith, create_dispatch_intent-notifications clock (promotion_of source n a) d, h)

  pub promote_row-fields :
      (p : PromotedScheduledNotification)
      → (promote_row clock now source (n, a) d).1 ≡ ok p
      → (p.notification ≡ record n { promoted_at = some now }) × (p.attempt ≡ a)
  unfolding promote_row
  promote_row-fields p h = (ground (arith, h), ground (arith, h))

  -- The notification of the row waits no more, and no other starts to.
  pub promote_row-waiting :
      (p : PromotedScheduledNotification)
      → (promote_row clock now source (n, a) d).1 ≡ ok p
      → (waiting (promote_row clock now source (n, a) d).0 n.id ≡ 0)
        × ((id : String) → waiting (promote_row clock now source (n, a) d).0 id ≤ waiting d id)
  unfolding waits_for_promotion
  promote_row-waiting p h =
      let rows = promote_row-notifications p h in
      (
        ap (waiting_in n.id) rows
            ∙ count-update_zero (λ m. m.id == n.id && waits_for_promotion m) (by (λ m. m.id) n.id)
                (set_promoted clock now) d.notifications (λ m. ground arith) (λ m. ground arith),
        λ id.
            subst (λ k. k ≤ waiting d id) (sym (ap (waiting_in id) rows))
              (count-update_le (λ m. m.id == id && waits_for_promotion m) (by (λ m. m.id) n.id)
                (set_promoted clock now) d.notifications (λ m. ground arith)),
      )

  -- Nor is a notification lost.
  pub promote_row-count :
      (p : PromotedScheduledNotification)
      → (promote_row clock now source (n, a) d).1 ≡ ok p
      → (id : String)
      → count (by (λ m. m.id) id) (promote_row clock now source (n, a) d).0.notifications
        ≡ count (by (λ m. m.id) id) d.notifications
  promote_row-count p h id =
      ap (count (by (λ m. m.id) id)) (promote_row-notifications p h)
      ∙ count-update_same (by (λ m. m.id) id) (by (λ m. m.id) n.id) (set_promoted clock now)
          d.notifications (λ m. refl)
