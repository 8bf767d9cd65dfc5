-- ===== src/Store/Attempts/Transitions.antt =====
-- internal/store/postgres.go: what the guarded transitions of an attempt do on each branch.
use notification_service.Base.{
  String, Bool, true, false, ◌≡◌, ap, ◌∙◌, ◌==◌, ◌&&◌, none, some, arith, eq_iff, Option-cases,
  Bool-cases, inl, inr, map, refl, List, [], ◌∷◌,
}
use notification_service.Base.Table.{
  find, update, count, by, IsKeyed, count_row, count-by, count-by-none, count-update_none,
  find-update, count-of_find, find_key,
}
use notification_service.Store.Status.{
  AttemptStatus, NotificationStatus, derive_notification_status,
}
use notification_service.Store.Model.{
  Time, Notification, DeliveryAttempt, Database, StoreError, not_found,
}
use notification_service.Store.Action.{ok, err}
use notification_service.Store.Rows.{
  find_attempt, find_notification, list_delivery_attempts_by_notification_id,
}
use notification_service.Store.Attempts.{
  transition, recalculate_notification_status, rolled_up_status,
}

-- The rollup writes notifications only.
pub recalculate-frame :
    (now : Time) (id : String) (d : Database)
    → let d' = (recalculate_notification_status now id d).0 in
      d' ≡ record d { notifications = d'.notifications }
unfolding recalculate_notification_status
recalculate-frame now id d = ground arith

pub recalculate-attempts :
    (now : Time) (id : String) (d : Database)
    → (recalculate_notification_status now id d).0.attempts ≡ d.attempts
recalculate-attempts now id d = ap (λ e. e.attempts) (recalculate-frame now id d)

-- A notification without what the rollup writes.
abbrev pub unstamped : Notification → Notification
unstamped n = record n { status = NotificationStatus.scheduled; updated_at = 0 }

map-update :
    {A : Type 0} {B : Type 0} (g : A → B) (p : A → Bool) (f : A → A) (xs : List A)
    → ((x : A) → g (f x) ≡ g x)
    → map g (update p f xs) ≡ map g xs
unfolding update
map-update g p f [] e = refl
map-update g p f (x ∷ xs) e = elim (Bool-cases (p x)) [
  | inl hit ↦ rw (hit, e x) (ap (λ l. g x ∷ l) (map-update g p f xs e))
  | inr miss ↦ rw miss (ap (λ l. g x ∷ l) (map-update g p f xs e))
]

-- The rollup writes the status and the time of the change, and neither adds nor removes a row.
pub recalculate-unstamped :
    (now : Time) (id : String) (d : Database)
    → map unstamped (recalculate_notification_status now id d).0.notifications
      ≡ map unstamped d.notifications
unfolding recalculate_notification_status
recalculate-unstamped now id d = elim (Option-cases (find_notification d id)) [
  | inl gone ↦ ground (arith, gone)
  | inr (n, found) ↦
      let attempts = list_delivery_attempts_by_notification_id id d in
      let status =
        rolled_up_status now n (derive_notification_status (map (λ a. a.status) attempts)) in
      let set : Notification → Notification = λ m. record m { status = status; updated_at = now } in
      ground (arith, found, map-update unstamped (λ m. m.id == id) set d.notifications (λ m. refl))
]

-- The rollup of a notification that exists succeeds.
pub recalculate-ok :
    (now : Time) (id : String) (d : Database) (n : Notification)
    → find_notification d id ≡ some n
    → (recalculate_notification_status now id d).1 ≡ ok tt
unfolding recalculate_notification_status
recalculate-ok now id d n h = ground (arith, count-of_find (by (λ m. m.id) id) d.notifications n h)

-- And it is still there.
pub recalculate-find :
    (now : Time) (id : String) (d : Database) (n : Notification)
    → find_notification d id ≡ some n
    → (m : Notification) × (find_notification (recalculate_notification_status now id d).0 id
        ≡ some m)
      × (m.tenant_id ≡ n.tenant_id)
unfolding recalculate_notification_status
recalculate-find now id d n h =
    let attempts = list_delivery_attempts_by_notification_id id d in
    let status =
      rolled_up_status now n (derive_notification_status (map (λ a. a.status) attempts)) in
    let set : Notification → Notification = λ m. record m { status = status; updated_at = now } in
    (
      set n,
      ground (
        arith,
        find-update (λ m. m.id) (λ m. m.id == id) set id d.notifications (λ m. refl),
        count-of_find (by (λ m. m.id) id) d.notifications n h,
        eq_iff n.id id,
        find_key (λ m. m.id) id d.notifications n h,
      ),
      refl,
    )

module _ (now : Time) (id : String) (from : AttemptStatus → Bool)
    (refusal : AttemptStatus → StoreError) (set : DeliveryAttempt → DeliveryAttempt)
    (set-id : (a : DeliveryAttempt) → (set a).id ≡ a.id) (d : Database) where
  abbrev hits : DeliveryAttempt → Bool
  hits a = a.id == id && from a.status

  -- No row of that id: nothing changes, and the error is ErrNotFound.
  pub transition-missing :
      find_attempt d id ≡ none → transition now id from refusal set d ≡ (d, err not_found)
  unfolding transition
  transition-missing h =
      let none_hit : count hits d.attempts ≡ 0 =
        count-by-none (λ a. a.id) (λ a. from a.status) id d.attempts h in
      ground (arith, none_hit, count-update_none hits set d.attempts none_hit)

  -- A row in another status: nothing changes, and the error says which status it is in.
  pub transition-refused :
      IsKeyed (λ a. a.id) d.attempts
      → (a : DeliveryAttempt) → find_attempt d id ≡ some a
      → from a.status ≡ false
      → transition now id from refusal set d ≡ (d, err (refusal a.status))
  unfolding transition
  transition-refused keyed a h away =
      let counted : count hits d.attempts ≡ count_row (λ b. from b.status) (find_attempt d id) =
        count-by (λ b. b.id) (λ b. from b.status) id d.attempts keyed in
      let none_hit : count hits d.attempts ≡ 0 = ground (arith, counted) in
      ground (arith, none_hit, count-update_none hits set d.attempts none_hit)

  -- The one row in that status: it is set, and its notification is rolled up.
  pub transition-updates :
      IsKeyed (λ a. a.id) d.attempts
      → (a : DeliveryAttempt) → find_attempt d id ≡ some a
      → from a.status ≡ true
      → transition now id from refusal set d
        ≡ recalculate_notification_status now
            (set a).notification_id
            (record d { attempts = update hits set d.attempts })
  unfolding transition
  transition-updates keyed a h at =
      let counted : count hits d.attempts ≡ count_row (λ b. from b.status) (find_attempt d id) =
        count-by (λ b. b.id) (λ b. from b.status) id d.attempts keyed in
      let one_hit : count hits d.attempts ≡ 1 = ground (arith, counted) in
      let found : find (by (λ b. b.id) id) (update hits set d.attempts) ≡ some (set a) =
        find-update (λ b. b.id) hits set id d.attempts set-id
        ∙ ground (arith, eq_iff a.id id, find_key (λ b. b.id) id d.attempts a h) in
      ground (arith, one_hit, found)

  abbrev updated : Database
  updated = record d { attempts = update hits set d.attempts }

  -- On every branch the rows of the table are those that the UPDATE leaves.
  pub transition-rows :
      (transition now id from refusal set d).0.attempts ≡ update hits set d.attempts
  unfolding transition
  transition-rows = elim (Option-cases (find_attempt updated id)) [
    | inl e ↦ ground (arith, e)
    | inr (a, e) ↦ ground (arith, e, recalculate-attempts now a.notification_id updated)
  ]

  -- Success is had only from the status that the WHERE clause names.
  pub transition-ok_from :
      IsKeyed (λ a. a.id) d.attempts
      → (transition now id from refusal set d).1 ≡ ok tt
      → (a : DeliveryAttempt) × (find_attempt d id ≡ some a) × (from a.status ≡ true)
  transition-ok_from keyed h = elim (Option-cases (find_attempt d id)) [
    | inl e ↦ cc (h, transition-missing e)
    | inr (a, e) ↦ elim (Bool-cases (from a.status)) [
      | inl at ↦ (a, e, at)
      | inr away ↦ cc (h, transition-refused keyed a e away)
    ]
  ]
