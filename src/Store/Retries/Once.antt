-- ===== src/Store/Retries/Once.antt =====
-- internal/store/postgres.go: preparing a retry or a replay a second time.
use notification_service.Base.{
  ◌≡◌, ◌≢◌, refl, sym, ap, ◌∙◌, subst, String, Bool, true, false, ◌&&◌, ◌==◌, some, arith, inl, inr,
  Option-cases, Bool-cases, eq_iff,
}
use notification_service.Base.Table.{find, by, find-update, find_key}
use notification_service.Store.Status.{is_retry_scheduled}
use notification_service.Store.Model.{Time, Notification, DeliveryAttempt, DispatchIntent, Database}
use notification_service.Store.Action.{ok}
use notification_service.Store.Rows.{find_notification, find_attempt}
use notification_service.Store.Outbox.{
  create_dispatch_intent, find_intent_of, CreateDispatchIntentParams,
}
use notification_service.Store.Outbox.Intents.{create-finds}
use notification_service.Store.Ingest.{create_delivery_attempt}
use notification_service.Store.Ingest.Inserted.{inserted-find, inserted-keeps}
use notification_service.Store.Ingest.Acceptance.{
  create_delivery_attempt-notifications, create_dispatch_intent-notifications,
}
use notification_service.Store.Retries.{
  RetryDueAttempt, get_retry, intent_of, followed_by, retry_child, set_retried, retire, retry_all,
  ensure_retry_attempt,
}

-- A retry that is there already.
pub retry-there :
    (later : Time) (s c : String) (d : Database)
    → (p a : DeliveryAttempt) (n : Notification) (i : DispatchIntent) → find_attempt d s ≡ some p
    → is_retry_scheduled p.status ≡ false
    → find_notification d p.notification_id ≡ some n
    → find_attempt d c ≡ some a
    → find_intent_of d a.id ≡ some i
    → ensure_retry_attempt later s c d ≡ (
      d,
      ok (record { attempt = a; notification_id = p.notification_id; tenant_id = n.tenant_id }),
    )
unfolding ensure_retry_attempt retry_all retry_child create_dispatch_intent
retry-there later s c d p a n i found over known there intended =
    ground (arith, found, over, known, there, intended)

module _ (now : Time) (p : DeliveryAttempt) (c : String) (d : Database) (a : DeliveryAttempt)
    (new : Bool) (h : (retry_child now p c d).1 ≡ ok (a, new)) where
  child-find : find_attempt (retry_child now p c d).0 c ≡ some a
  unfolding retry_child
  child-find = elim (Option-cases (find_attempt d c)) [
    | inr (b, e) ↦ ground (arith, e)
    | inl e ↦ ground (arith, e, inserted-find now (followed_by p c) d a)
  ]

  child-keeps :
      (id : String) (b : DeliveryAttempt)
      → find_attempt d id ≡ some b
      → find_attempt (retry_child now p c d).0 id ≡ some b
  unfolding retry_child
  child-keeps id b found = elim (Option-cases (find_attempt d c)) [
    | inr (b', e) ↦ ground (arith, e)
    | inl e ↦
        let keeps : (create_delivery_attempt now (followed_by p c) d).1 ≡ ok a
            → find_attempt (create_delivery_attempt now (followed_by p c) d).0 id ≡ some b =
          λ made. inserted-keeps now (followed_by p c) d a made id b found in
        ground (arith, e, keeps)
  ]

  child-notifications : (retry_child now p c d).0.notifications ≡ d.notifications
  unfolding retry_child
  child-notifications =
      ground (arith, create_delivery_attempt-notifications now (followed_by p c) d)

module _ (now : Time) (params : CreateDispatchIntentParams) (d : Database) where
  create_dispatch_intent-attempts : (create_dispatch_intent now params d).0.attempts ≡ d.attempts
  unfolding create_dispatch_intent
  create_dispatch_intent-attempts = ground arith

  create_dispatch_intent-find :
      (i : DispatchIntent)
      → (create_dispatch_intent now params d).1 ≡ ok i
      → find_intent_of (create_dispatch_intent now params d).0 params.attempt_id ≡ some i
  create_dispatch_intent-find i h =
      let d' = (create_dispatch_intent now params d).0 in
      create-finds now params d d' i (ap (λ r. (d', r)) h)

-- After the parent is retired its status is final, and other rows are as they were.
module _ (now : Time) (p : DeliveryAttempt) (d : Database) where
  retire-parent :
      find_attempt d p.id ≡ some p
      → (q : DeliveryAttempt) × (find_attempt (retire now p d).0 p.id ≡ some q)
        × (is_retry_scheduled q.status ≡ false)
        × (q.notification_id ≡ p.notification_id)
  retire-parent found = elim (Bool-cases (is_retry_scheduled p.status)) [
    | inl e ↦
        let hit : (p.id == p.id) ≡ true = (eq_iff p.id p.id).1 refl in
        let row =
          find-update (λ a. a.id) (λ a. a.id == p.id && is_retry_scheduled a.status)
            (set_retried now) p.id d.attempts (λ a. refl) in
        (set_retried now p, ground (arith, row, hit), refl, refl)
    | inr e ↦ (p, rw e found, e, refl)
  ]

  retire-other :
      (c : String) (a : DeliveryAttempt)
      → find_attempt d c ≡ some a
      → p.id ≢ c
      → find_attempt (retire now p d).0 c ≡ some a
  retire-other c a found apart =
      let row =
        find-update (λ a. a.id) (λ a. a.id == p.id && is_retry_scheduled a.status) (set_retried now)
          c d.attempts (λ a. refl) in
      ground (arith, row, find_key (λ a. a.id) c d.attempts a found, eq_iff a.id p.id)

  retire-rest :
      ((retire now p d).0.notifications ≡ d.notifications) × ((retire now p d).0.outbox ≡ d.outbox)
  retire-rest = (ground arith, ground arith)

get_retry-ok :
    (s : String) (d : Database) (item : RetryDueAttempt)
    → get_retry s d ≡ ok item
    → (n : Notification) × (find_attempt d s ≡ some item.attempt)
      × (find_notification d item.attempt.notification_id ≡ some n)
      × (item.notification_id ≡ item.attempt.notification_id)
      × (item.tenant_id ≡ n.tenant_id)
get_retry-ok s d item h = elim (Option-cases (find_attempt d s)) [
  | inl e ↦ let never : true ≡ false = ground (arith, e) in cc never
  | inr (p, e) ↦ elim (Option-cases (find_notification d p.notification_id)) [
    | inl m ↦ let never : true ≡ false = ground (arith, e, m) in cc never
    | inr (n, m) ↦
        (n, ground (arith, e, m), ground (arith, e, m), ground (arith, e, m), ground (arith, e, m))
  ]
]

-- What makes a retry that is there: the attempt that failed, retired, its notification, and the next
-- attempt with its intent.
abbrev pub IsPrepared : String → String → RetryDueAttempt → DeliveryAttempt → Database → Type 0
IsPrepared s c item a d =
    (q : DeliveryAttempt) × (n : Notification) × (i : DispatchIntent) × (find_attempt d s ≡ some q)
    × (is_retry_scheduled q.status ≡ false)
    × (q.notification_id ≡ item.notification_id)
    × (find_notification d item.notification_id ≡ some n)
    × (n.tenant_id ≡ item.tenant_id)
    × (find_attempt d c ≡ some a)
    × (find_intent_of d a.id ≡ some i)

module _ (now : Time) (s c : String) (d : Database) (item : RetryDueAttempt) (a : DeliveryAttempt)
    (new : Bool) (apart : s ≢ c) where
  pub retire-IsPrepared :
      (i : DispatchIntent)
      → get_retry s d ≡ ok item
      → (retry_child now item.attempt c d).1 ≡ ok (a, new)
      → (create_dispatch_intent now
          (intent_of "retry" item.tenant_id a)
          (retry_child now item.attempt c d).0).1
        ≡ ok i
      → IsPrepared s c item a
          (retire now item.attempt
            (create_dispatch_intent now
              (intent_of "retry" item.tenant_id a)
              (retry_child now item.attempt c d).0).0).0
  retire-IsPrepared i read made intended =
      let (n, found, known, same, tenant) = get_retry-ok s d item read in
      let p = item.attempt in
      let named : p.id ≡ s = find_key (λ b. b.id) s d.attempts p found in
      let d1 = (retry_child now p c d).0 in
      let params = intent_of "retry" item.tenant_id a in
      let d2 = (create_dispatch_intent now params d1).0 in
      let rows : d2.attempts ≡ d1.attempts = create_dispatch_intent-attempts now params d1 in
      let there : find_attempt d2 c ≡ some a =
        ap (find (by (λ b. b.id) c)) rows ∙ child-find now p c d a new made in
      let parent : find_attempt d2 p.id ≡ some p =
        ap (find (by (λ b. b.id) p.id)) rows
        ∙ child-keeps now p c d a new made p.id p
            (subst (λ k. find_attempt d k ≡ some p) (sym named) found) in
      let notes : d2.notifications ≡ d.notifications =
        create_dispatch_intent-notifications now params d1
        ∙ child-notifications now p c d a new made in
      let (q, retired, over, its) = retire-parent now p d2 parent in
      let (notes', outbox') = retire-rest now p d2 in
      let known' : find_notification d item.notification_id ≡ some n =
        subst (λ k. find_notification d k ≡ some n) (sym same) known in
      (
        q,
        n,
        i,
        subst (λ k. find_attempt (retire now p d2).0 k ≡ some q) named retired,
        over,
        its ∙ sym same,
        ap (find (by (λ b. b.id) item.notification_id)) (notes' ∙ notes) ∙ known',
        sym tenant,
        retire-other now p d2 c a there (λ e. apart (sym named ∙ e)),
        ap (find (by (λ b. b.attempt_id) a.id)) outbox'
            ∙ create_dispatch_intent-find now params d1 i intended,
      )
