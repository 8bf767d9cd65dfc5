-- ===== src/Store/Ingest/Sent.antt =====
-- internal/store/postgres.go: what CreateNotificationWithInitialDispatch leaves of a notification that is
-- sent at once, after the rollup.
use notification_service.Base.{
  ◌≡◌, refl, sym, ap, ◌∙◌, subst, String, Bool, true, false, ◌==◌, none, some, List, [], ◌∷◌, map,
  arith, inl, inr, Bool-cases, eq_refl,
}
use notification_service.Base.Table.{find, by, update, update_row}
use notification_service.Store.Status.{derive_notification_status}
use notification_service.Store.Model.{Time, Notification, DeliveryAttempt, DispatchIntent, Database}
use notification_service.Store.Action.{Result, ok, Result-cases}
use notification_service.Store.Rows.{find_notification, list_delivery_attempts_by_notification_id}
use notification_service.Store.Outbox.{find_intent_of}
use notification_service.Store.Attempts.{recalculate_notification_status, rolled_up_status}
use notification_service.Store.Attempts.Transitions.{recalculate-frame, recalculate-ok}
use notification_service.Store.Ingest.{
  CreateNotificationDispatchParams, Accepted, has_key, has_number, insert_all, roll_up,
  create_notification_with_initial_dispatch,
}
use notification_service.Store.Ingest.Accepted.{IsSent, intended, insert_all-Made, Made-IsSent}

find-update_test :
    {A : Type 0} (q p : A → Bool) (f : A → A) (xs : List A)
    → ((x : A) → q (f x) ≡ q x)
    → find q (update p f xs) ≡ update_row p f (find q xs)
unfolding find update
find-update_test q p f [] e = refl
find-update_test q p f (x ∷ xs) e = ground (arith, e x, find-update_test q p f xs e)

-- The rollup writes the status of the notification, which is then read, and no more.
recalculate-IsSent :
    (now : Time) (tenant_id key channel template_id : String) (n : Notification) (d : Database)
    → IsSent tenant_id key channel template_id n d
    → (m : Notification) × (find_notification (recalculate_notification_status now n.id d).0 n.id
        ≡ some m)
      × IsSent tenant_id key channel template_id m (recalculate_notification_status now n.id d).0
unfolding recalculate_notification_status
recalculate-IsSent now tenant_id key channel template_id n d sent =
    let attempts = list_delivery_attempts_by_notification_id n.id d in
    let status =
      rolled_up_status now n (derive_notification_status (map (λ a. a.status) attempts)) in
    let set : Notification → Notification = λ m. record m { status = status; updated_at = now } in
    let d' = (recalculate_notification_status now n.id d).0 in
    let frame = recalculate-frame now n.id d in
    let rows : d'.notifications ≡ update (by (λ m. m.id) n.id) set d.notifications =
      ground (arith, sent.by_id) in
    let test = has_key tenant_id (some key) in
    let hit : (n.id == n.id) ≡ true = eq_refl n.id in
    let by_key : find test (update (by (λ m. m.id) n.id) set d.notifications) ≡ some (set n) =
      find-update_test test (by (λ m. m.id) n.id) set d.notifications (λ m. refl)
      ∙ rw (sent.by_key, hit) refl in
    let by_id : find (by (λ m. m.id) n.id) (update (by (λ m. m.id) n.id) set d.notifications)
        ≡ some (set n) =
      find-update_test (by (λ m. m.id) n.id) (by (λ m. m.id) n.id) set d.notifications (λ m. refl)
      ∙ rw (sent.by_id, hit) refl in
    (
      set n,
      ap (find (by (λ m. m.id) n.id)) rows ∙ by_id,
      record {
        attempt = sent.attempt;
        intent = sent.intent;
        by_key = ap (find test) rows ∙ by_key;
        by_id = ap (find (by (λ m. m.id) n.id)) rows ∙ by_id;
        first = ap (λ e. find (has_number n.id channel 1) e.attempts) frame ∙ sent.first;
        intended = ap (λ e. find_intent_of e sent.attempt.id) frame ∙ sent.intended;
        waits = sent.waits;
        of_template = sent.of_template;
      },
    )

module _ (now : Time) (params : CreateNotificationDispatchParams) (d : Database) (key : String)
    (keyed : params.notification.idempotency_key ≡ some key) where
  abbrev IsHere : Notification → Database → Type 0
  IsHere n e =
      IsSent params.notification.tenant_id key params.channel params.notification.template_id n e
      × (e.tenants ≡ d.tenants)
      × (e.templates ≡ d.templates)

  rolled_up :
      (n : Notification) (i : DispatchIntent) (e : Database)
      → IsHere n e
      → (m : Notification) × IsHere m (roll_up now n.id (some i) e).0
        × ((roll_up now n.id (some i) e).1 ≡ ok tt)
        × (find_notification (roll_up now n.id (some i) e).0 n.id ≡ some m)
  rolled_up n i e (sent, tenants, templates) = elim (Bool-cases (i.id == "")) [
    | inl none' ↦ rw none' (n, (sent, tenants, templates), refl, sent.by_id)
    | inr some' ↦
        let frame = recalculate-frame now n.id e in
        let (m, found, sent') =
          recalculate-IsSent now params.notification.tenant_id key params.channel
            params.notification.template_id n e sent in
        rw some' (
          m,
          (sent', ap (λ t. t.tenants) frame ∙ tenants, ap (λ t. t.templates) frame ∙ templates),
          recalculate-ok now n.id e n sent.by_id,
          found,
        )
  ]

  accept-returns :
      (n m : Notification) (a : DeliveryAttempt) (i : DispatchIntent) (e : Database)
      → insert_all now params d ≡ (e, ok (n, a, some i))
      → (roll_up now n.id (some i) e).1 ≡ ok tt
      → find_notification (roll_up now n.id (some i) e).0 n.id ≡ some m
      → create_notification_with_initial_dispatch now params d
        ≡ ((roll_up now n.id (some i) e).0, ok (m, a, some i))
  unfolding create_notification_with_initial_dispatch
  accept-returns n m a i e inserted fine found = ground (arith, inserted, fine, found)

  answered-IsHere :
      (m : Notification) (a : DeliveryAttempt) (i : DispatchIntent) (e : Database) (made : Accepted)
      → IsHere m e
      → create_notification_with_initial_dispatch now params d ≡ (e, ok (m, a, some i))
      → (create_notification_with_initial_dispatch now params d).1 ≡ ok made
      → IsHere made.0 (create_notification_with_initial_dispatch now params d).0
  answered-IsHere m a i e made here returns h =
      let same : ◌≡◌ {A = Result Accepted} (ok (m, a, some i)) (ok made) =
        sym (ap (λ r. r.1) returns) ∙ h in
      let same_row : m ≡ made.0 = ground (arith, same) in
      subst (λ x. IsHere made.0 x) (sym (ap (λ r. r.0) returns))
        (subst (λ x. IsHere x e) same_row here)

  -- What is accepted to be sent at once is there.
  pub accepted-IsSent :
      (made : Accepted)
      → params.notification.scheduled_for ≡ none
      → (create_notification_with_initial_dispatch now params d).1 ≡ ok made
      → IsHere made.0 (create_notification_with_initial_dispatch now params d).0
  unfolding create_notification_with_initial_dispatch
  accepted-IsSent made at_once h = elim (Result-cases (insert_all now params d).1) [
    | inr (x, failed) ↦ let never : true ≡ false = ground (arith, h, failed) in cc never
    | inl (made', done) ↦
        let (n, a, i, parts, inserted) =
          insert_all-Made now params d key keyed made' at_once done in
        let e = intended now params d key keyed n a in
        let here = Made-IsSent now params d key keyed n a i parts in
        let (m, there, fine, found) = rolled_up n i e here in
        let returns = accept-returns n m a i e inserted fine found in
        answered-IsHere m a i (roll_up now n.id (some i) e).0 made there returns h
  ]
