-- ===== src/Store/Scheduling/Due.antt =====
-- internal/store/postgres.go: which notifications PromoteDueScheduledNotifications promotes, and how often.
use notification_service.Base.{
  All-of, ℕ, ◌≤◌, ◌≡◌, ◌≢◌, refl, ap, String, Bool, true, false, ◌&&◌, ◌==◌, Option, none, some,
  List, [], ◌∷◌, ◌∙◌, any, any-of_All, inl, inr, Bool-cases, eq_iff, All, All-weaken, All-both,
  arith, eq_refl, is_some,
}
use notification_service.Base.Table.{count, by}
use notification_service.Store.Model.{Time, Notification, DeliveryAttempt, DispatchIntent, Database}
use notification_service.Store.Action.{ok}
use notification_service.Store.Attempts.{is_after}
use notification_service.Store.Policy.{is_paused}
use notification_service.Store.Outbox.{find_intent_of}
use notification_service.Store.Maintenance.{waits_for_promotion, is_due_for_promotion}
use notification_service.Store.Scheduling.{
  PromotedScheduledNotification, due_rows, may_start, is_initial_of, promote_rows,
  promote_due_scheduled_notifications,
}
use notification_service.Store.Scheduling.Waiting.{waiting}
use notification_service.Store.Scheduling.Promotion.{IsPromoted, later-IsPromoted}
use notification_service.Store.Scheduling.Loop.{
  promote_rows-IsPromoted, promote_rows-All, promote-steps,
}
use notification_service.Store.Scheduling.Joined.{HoldsIfDue, due_rows-All, All-counted}

-- What the query saw of the promoted row: a time that has come, no cancellation, an attempt of that
-- notification that is its first, no intent of that attempt, and no pause.
abbrev pub WasDue : Time → Database → PromotedScheduledNotification → Type 0
WasDue now d p =
    (is_some p.notification.scheduled_for ≡ true)
    × (is_after p.notification.scheduled_for now ≡ false)
    × (p.notification.cancelled_at ≡ none)
    × (p.notification.promoted_at ≡ some now)
    × (p.attempt.notification_id ≡ p.notification.id)
    × (p.attempt.attempt_number ≡ 1)
    × (p.attempt.enqueue_kind ≡ "initial")
    × (find_intent_of d p.attempt.id ≡ none)
    × (is_paused p.notification.tenant_id p.attempt.channel d ≡ false)

due_rows-waiting :
    (now : Time) (limit : ℕ) (d : Database) → All (λ r. waiting d r.0.id ≢ 0) (due_rows now limit d)
unfolding is_due_for_promotion
due_rows-waiting now limit d =
    let counted = All-counted (λ n m. m.id == n.id && waits_for_promotion m) d.notifications in
    All-weaken (λ r. (waiting d r.0.id ≢ 0) × (may_start d r ≡ true)) (λ r. waiting d r.0.id ≢ 0)
      (λ r k. k.0) (due_rows now limit d)
      (due_rows-All (λ r. waiting d r.0.id ≢ 0) now limit d
        (All-weaken (λ n. (n.id == n.id && waits_for_promotion n) ≡ true → waiting d n.id ≢ 0)
          (HoldsIfDue (λ r. waiting d r.0.id ≢ 0) now)
          (λ n k due a first. k (ground (arith, due, eq_refl n.id))) d.notifications counted))

is_some_not : {A : Type 0} (o : Option A) → is_some o ≡ false → o ≡ none
is_some_not none h = refl
is_some_not (some a) h = cc h

row-WasDue :
    (now : Time) (d : Database) (n : Notification) (a : DeliveryAttempt) (i : DispatchIntent)
    → is_due_for_promotion now n ≡ true
    → is_initial_of n a ≡ true
    → may_start d (n, a) ≡ true
    → WasDue now d
        (record { notification = record n { promoted_at = some now }; attempt = a; intent = i })
unfolding is_due_for_promotion waits_for_promotion
row-WasDue now d n a i due first started = (
  ground (arith, due),
  ground (arith, due),
  is_some_not n.cancelled_at (ground (arith, due)),
  refl,
  ground (arith, first, eq_iff a.notification_id n.id),
  ground (arith, first),
  ground (arith, first, eq_iff a.enqueue_kind "initial"),
  is_some_not (find_intent_of d a.id) (ground (arith, started)),
  ground (arith, started),
)

-- Each notification that a promotion returns was scheduled for a time that had come and was not
-- cancelled; the attempt returned with it is one of that notification, with number 1 and of the
-- initial kind, had no intent, and its tenant and channel were not paused; afterwards the
-- notification waits no more, and the attempt has the intent that was returned.
pub promote_due-WasDue :
    (clock now : Time) (limit : ℕ) (d : Database) (ps : List PromotedScheduledNotification)
    → (promote_due_scheduled_notifications clock now limit d).1 ≡ ok ps
    → All
        (λ p.
          WasDue now d p × IsPromoted (promote_due_scheduled_notifications clock now limit d).0 p)
        ps
promote_due-WasDue clock now limit d ps h =
    let (looped, later) = promote-steps clock now limit d ps h in
    let d' = (promote_rows clock now (due_rows now limit d) d).0 in
    let end = (promote_due_scheduled_notifications clock now limit d).0 in
    let (kept, done) = promote_rows-IsPromoted clock now (due_rows now limit d) d ps looped in
    let Seen = λ (r : Notification × DeliveryAttempt).
      (is_due_for_promotion now r.0 ≡ true) × (is_initial_of r.0 r.1 ≡ true) in
    let due =
      due_rows-All Seen now limit d
        (All-of (HoldsIfDue Seen now) d.notifications (λ n k a first. (k, first))) in
    let rows =
      All-weaken (λ r. Seen r × (may_start d r ≡ true))
        (λ r.
          (i : DispatchIntent)
          → WasDue now d (record {
            notification = record r.0 { promoted_at = some now };
            attempt = r.1;
            intent = i;
          }))
        (λ r k i. row-WasDue now d r.0 r.1 i k.0.0 k.0.1 k.1) (due_rows now limit d) due in
    All-both (WasDue now d) (IsPromoted end) ps
      (promote_rows-All clock now (WasDue now d) (due_rows now limit d) d ps rows looped)
      (All-weaken (IsPromoted d') (IsPromoted end) (later-IsPromoted d' end later) ps done)

-- A notification that no row of waits is none that the promotion returns.
pub promote-not_waiting :
    (clock now : Time) (limit : ℕ) (d : Database) (qs : List PromotedScheduledNotification)
    (id : String)
    → waiting d id ≡ 0
    → (promote_due_scheduled_notifications clock now limit d).1 ≡ ok qs
    → any (λ q. q.notification.id == id) qs ≡ false
promote-not_waiting clock now limit d qs id gone h =
    any-of_All (λ q. q.notification.id == id) qs
      (promote_rows-All clock now (λ q. (q.notification.id == id) ≡ false) (due_rows now limit d) d
        qs
        (All-weaken (λ r. waiting d r.0.id ≢ 0) (λ r. DispatchIntent → (r.0.id == id) ≡ false)
          (λ r k i. elim (Bool-cases (r.0.id == id)) [
            | inr apart ↦ apart
            | inl same ↦
                let it : waiting d r.0.id ≡ 0 = ap (waiting d) ((eq_iff r.0.id id).0 same) ∙ gone in
                let never : true ≡ false = ground (arith, k, it) in cc never
          ])
          (due_rows now limit d) (due_rows-waiting now limit d))
        (promote-steps clock now limit d qs h).0)

-- After one promotion of due notifications succeeds, a further one, at any times and with any
-- limits, returns no notification that the first returned.
pub promote_due-promote_due :
    (clock now later_clock later : Time) (limit next_limit : ℕ) (d : Database)
    (ps qs : List PromotedScheduledNotification)
    → (promote_due_scheduled_notifications clock now limit d).1 ≡ ok ps
    → let d' = (promote_due_scheduled_notifications clock now limit d).0 in
      (promote_due_scheduled_notifications later_clock later next_limit d').1 ≡ ok qs
      → All (λ p. any (λ q. q.notification.id == p.notification.id) qs ≡ false) ps
promote_due-promote_due clock now later_clock later limit next_limit d ps qs h k =
    let d' = (promote_due_scheduled_notifications clock now limit d).0 in
    All-weaken (λ p. WasDue now d p × IsPromoted d' p)
      (λ p. any (λ q. q.notification.id == p.notification.id) qs ≡ false)
      (λ p done.
        promote-not_waiting later_clock later next_limit d' qs p.notification.id
          done.1.waits_no_more k)
      ps (promote_due-WasDue clock now limit d ps h)

-- A promoted notification is in the table.
count-and_le : {A : Type 0} (p q : A → Bool) (xs : List A) → count (λ x. p x && q x) xs ≤ count p xs
unfolding count
count-and_le p q [] = omega arith
count-and_le p q (x ∷ xs) = ground (arith, count-and_le p q xs)

pub promoted-there :
    (clock now : Time) (limit : ℕ) (d : Database) (ps : List PromotedScheduledNotification)
    → (promote_due_scheduled_notifications clock now limit d).1 ≡ ok ps
    → let d' = (promote_due_scheduled_notifications clock now limit d).0 in
      All (λ p. count (by (λ n. n.id) p.notification.id) d'.notifications ≢ 0) ps
promoted-there clock now limit d ps h =
    let (looped, later) = promote-steps clock now limit d ps h in
    let (kept, done) = promote_rows-IsPromoted clock now (due_rows now limit d) d ps looped in
    let d' = (promote_due_scheduled_notifications clock now limit d).0 in
    promote_rows-All clock now (λ p. count (by (λ n. n.id) p.notification.id) d'.notifications ≢ 0)
      (due_rows now limit d) d ps
      (All-weaken (λ r. waiting d r.0.id ≢ 0)
        (λ r. DispatchIntent → count (by (λ n. n.id) r.0.id) d'.notifications ≢ 0)
        (λ r k i. omega (
          arith,
          k,
          later.same_rows r.0.id,
          kept.same_rows r.0.id,
          count-and_le (by (λ n. n.id) r.0.id) waits_for_promotion d.notifications,
        ))
        (due_rows now limit d) (due_rows-waiting now limit d))
      looped
