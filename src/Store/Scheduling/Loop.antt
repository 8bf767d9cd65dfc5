-- ===== src/Store/Scheduling/Loop.antt =====
-- internal/store/postgres.go: the loop of PromoteDueScheduledNotifications over its rows.
use notification_service.Base.{
  ℕ, ◌≡◌, sym, ap, ◌∙◌, subst, true, false, some, List, [], ◌∷◌, All, arith, inl, inr,
}
use notification_service.Store.Model.{Time, Notification, DeliveryAttempt, DispatchIntent, Database}
use notification_service.Store.Action.{ok, Result-cases}
use notification_service.Store.Attempts.{recalculate_notification_status}
use notification_service.Store.Scheduling.{
  PromotedScheduledNotification, promote_row, promote_rows, recalculate_all, promote_due,
  promote_due_scheduled_notifications, due_rows,
}
use notification_service.Store.Scheduling.Waiting.{promote_row-fields}
use notification_service.Store.Scheduling.Promotion.{
  IsLater, IsPromoted, same-IsLater, then-IsLater, later-IsPromoted, promote_row-IsLater,
  promote_row-IsPromoted, recalculate-IsLater,
}

-- The loop's first row, and its others.
pub promote_rows-cons :
    (clock now : Time) (n : Notification) (a : DeliveryAttempt)
    (rows : List (Notification × DeliveryAttempt)) (d : Database)
    (ps : List PromotedScheduledNotification)
    → (promote_rows clock now ((n, a) ∷ rows) d).1 ≡ ok ps
    → let d' = (promote_row clock now "scheduled" (n, a) d).0 in
      (p : PromotedScheduledNotification) × (ps' : List PromotedScheduledNotification)
      × ((promote_row clock now "scheduled" (n, a) d).1 ≡ ok p)
      × ((promote_rows clock now rows d').1 ≡ ok ps')
      × (promote_rows clock now ((n, a) ∷ rows) d
          ≡ ((promote_rows clock now rows d').0, ok (p ∷ ps')))
unfolding promote_rows
promote_rows-cons clock now n a rows d ps h =
    let d' = (promote_row clock now "scheduled" (n, a) d).0 in
    elim (Result-cases (promote_row clock now "scheduled" (n, a) d).1) [
      | inr (e, failed) ↦ let never : true ≡ false = ground (arith, failed) in cc never
      | inl (p, made) ↦ elim (Result-cases (promote_rows clock now rows d').1) [
        | inr (e, failed) ↦ let never : true ≡ false = ground (arith, made, failed) in cc never
        | inl (ps', rest) ↦ (p, ps', made, rest, ground (arith, made, rest))
      ]
    ]

pub promote_rows-IsPromoted :
    (clock now : Time) (rows : List (Notification × DeliveryAttempt)) (d : Database)
    (ps : List PromotedScheduledNotification)
    → (promote_rows clock now rows d).1 ≡ ok ps
    → IsLater d (promote_rows clock now rows d).0
      × All (IsPromoted (promote_rows clock now rows d).0) ps
promote_rows-IsPromoted clock now [] d ps h =
    unfold promote_rows in
    (same-IsLater d, let none_of : [] ≡ ps = cc h in subst (All (IsPromoted d)) none_of tt)
promote_rows-IsPromoted clock now ((n, a) ∷ rows) d ps h =
    let (p, ps', made, rest, all) = promote_rows-cons clock now n a rows d ps h in
    let d' = (promote_row clock now "scheduled" (n, a) d).0 in
    let (later, done) = promote_rows-IsPromoted clock now rows d' ps' rest in
    let one =
      later-IsPromoted d' (promote_rows clock now rows d').0 later p
        (promote_row-IsPromoted clock now "scheduled" n a d p made) in
    let same : p ∷ ps' ≡ ps = cc (sym (ap (λ r. r.1) all) ∙ h) in
    let end : (promote_rows clock now rows d').0 ≡ (promote_rows clock now ((n, a) ∷ rows) d).0 =
      sym (ap (λ r. r.0) all) in
    (
      subst (IsLater d) end (
          then-IsLater d d' (promote_rows clock now rows d').0
            (promote_row-IsLater clock now "scheduled" n a d p made) later),
      subst (λ e. All (IsPromoted e) ps) end
          (subst (All (IsPromoted (promote_rows clock now rows d').0)) same (one, done)),
    )

-- What holds of each row, whatever its intent, holds of each promotion.
pub promote_rows-All :
    (clock now : Time) (Q : PromotedScheduledNotification → Type 0)
    (rows : List (Notification × DeliveryAttempt)) (d : Database)
    (ps : List PromotedScheduledNotification)
    → All
        (λ r.
          (i : DispatchIntent)
          → Q (record {
            notification = record r.0 { promoted_at = some now };
            attempt = r.1;
            intent = i;
          }))
        rows
    → (promote_rows clock now rows d).1 ≡ ok ps
    → All Q ps
promote_rows-All clock now Q [] d ps q h =
    unfold promote_rows in (let none_of : [] ≡ ps = cc h in subst (All Q) none_of tt)
promote_rows-All clock now Q ((n, a) ∷ rows) d ps q h =
    let (p, ps', made, rest, all) = promote_rows-cons clock now n a rows d ps h in
    let d' = (promote_row clock now "scheduled" (n, a) d).0 in
    let (note, its) = promote_row-fields clock now "scheduled" n a d p made in
    let same : p ∷ ps' ≡ ps = cc (sym (ap (λ r. r.1) all) ∙ h) in
    let whole : record {
      notification = record n { promoted_at = some now };
      attempt = a;
      intent = p.intent;
    }
        ≡ p =
      ground (arith, note, its) in
    subst (All Q) same
      (subst Q whole (q.0 p.intent), promote_rows-All clock now Q rows d' ps' q.1 rest)

recalculate_all-IsLater :
    (clock : Time) (ps : List PromotedScheduledNotification) (d : Database)
    → IsLater d (recalculate_all clock ps d).0
unfolding recalculate_all
recalculate_all-IsLater clock [] d = same-IsLater d
recalculate_all-IsLater clock (p ∷ ps) d =
    let d' = (recalculate_notification_status clock p.notification.id d).0 in
    let first = recalculate-IsLater clock p.notification.id d in
    elim (Result-cases (recalculate_notification_status clock p.notification.id d).1) [
      | inl (u, e) ↦
          let all : (recalculate_all clock ps d').0 ≡ (recalculate_all clock (p ∷ ps) d).0 =
            ground (arith, e) in
          subst (IsLater d) all (
            then-IsLater d d' (recalculate_all clock ps d').0 first
              (recalculate_all-IsLater clock ps d'))
      | inr (s, e) ↦
          let all : d' ≡ (recalculate_all clock (p ∷ ps) d).0 = ground (arith, e) in
          subst (IsLater d) all first
    ]

-- A promotion that returns ps has done its loop, and then the rollups.
pub promote-steps :
    (clock now : Time) (limit : ℕ) (d : Database) (ps : List PromotedScheduledNotification)
    → (promote_due_scheduled_notifications clock now limit d).1 ≡ ok ps
    → ((promote_rows clock now (due_rows now limit d) d).1 ≡ ok ps)
      × (IsLater
          (promote_rows clock now (due_rows now limit d) d).0
          (promote_due_scheduled_notifications clock now limit d).0)
unfolding promote_due_scheduled_notifications promote_due
promote-steps clock now limit d ps h =
    let d' = (promote_rows clock now (due_rows now limit d) d).0 in
    elim (Result-cases (promote_rows clock now (due_rows now limit d) d).1) [
      | inr (e, failed) ↦ let never : true ≡ false = ground (arith, failed) in cc never
      | inl (ps', made) ↦ elim (Result-cases (recalculate_all clock ps' d').1) [
        | inr (e, failed) ↦ let never : true ≡ false = ground (arith, made, failed) in cc never
        | inl (u, done) ↦
            let end : (recalculate_all clock ps' d').0
                ≡ (promote_due_scheduled_notifications clock now limit d).0 =
              ground (arith, made, done) in
            let same : ps' ≡ ps = ground (arith, made, done, h) in
            (
              ground (arith, made, same),
              subst (IsLater d') end (recalculate_all-IsLater clock ps' d'),
            )
      ]
    ]
