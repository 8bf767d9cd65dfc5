-- ===== src/Store/Retries/Again.antt =====
-- internal/store/postgres.go: EnsureRetryAttempt asked twice for the same retry.
use notification_service.Base.{
  ◌≡◌, ◌≢◌, sym, ap, ◌∙◌, subst, String, Bool, true, false, some, arith, inl, inr, Bool-cases,
}
use notification_service.Base.Table.{find, by}
use notification_service.Store.Model.{Time, DeliveryAttempt, DispatchIntent, Database}
use notification_service.Store.Action.{ok, Result-cases}
use notification_service.Store.Rows.{find_notification}
use notification_service.Store.Attempts.{recalculate_notification_status}
use notification_service.Store.Attempts.Transitions.{
  recalculate-frame, recalculate-ok, recalculate-find,
}
use notification_service.Store.Outbox.{create_dispatch_intent}
use notification_service.Store.Retries.{
  RetryDueAttempt, get_retry, intent_of, retry_child, retire, retry_all, ensure_retry_attempt,
}
use notification_service.Store.Retries.Once.{IsPrepared, retry-there, retire-IsPrepared}

module _ (now : Time) (s c : String) (d : Database) where
  abbrev after_child : RetryDueAttempt → Database
  after_child item = (retry_child now item.attempt c d).0

  abbrev after_intent : RetryDueAttempt → DeliveryAttempt → Database
  after_intent item a =
      (create_dispatch_intent now (intent_of "retry" item.tenant_id a) (after_child item)).0

  retry_all-returns :
      (item : RetryDueAttempt) (a : DeliveryAttempt) (new : Bool) (i : DispatchIntent)
      → get_retry s d ≡ ok item
      → (retry_child now item.attempt c d).1 ≡ ok (a, new)
      → (create_dispatch_intent now (intent_of "retry" item.tenant_id a) (after_child item)).1
        ≡ ok i
      → retry_all now s c d ≡ ((retire now item.attempt (after_intent item a)).0, ok (item, a, new))
  unfolding retry_all
  retry_all-returns item a new i read made intended = ground (arith, read, made, intended)

  -- The transaction that succeeds has prepared the retry that it returns.
  retry_all-IsPrepared :
      (item : RetryDueAttempt) (a : DeliveryAttempt) (new : Bool)
      → s ≢ c
      → (retry_all now s c d).1 ≡ ok (item, a, new)
      → IsPrepared s c item a (retry_all now s c d).0
  unfolding retry_all
  retry_all-IsPrepared item a new apart h = elim (Result-cases (get_retry s d)) [
    | inr (e, read) ↦ let never : true ≡ false = ground (arith, read) in cc never
    | inl (item', read) ↦ elim (Result-cases (retry_child now item'.attempt c d).1) [
      | inr (e, made) ↦ let never : true ≡ false = ground (arith, read, made) in cc never
      | inl ((a', new'), made) ↦
          let params = intent_of "retry" item'.tenant_id a' in
          elim (Result-cases (create_dispatch_intent now params (after_child item')).1) [
            | inr (e, intended) ↦
                let never : true ≡ false = ground (arith, read, made, intended) in cc never
            | inl (i, intended) ↦
                let returns = retry_all-returns item' a' new' i read made intended in
                let same : ◌≡◌ {A = RetryDueAttempt × DeliveryAttempt × Bool} (item', a', new')
                    (item, a, new) =
                  cc (sym (ap (λ p. p.1) returns) ∙ h) in
                let prepared =
                  retire-IsPrepared now s c d item' a' new' apart i read made intended in
                subst (λ e. IsPrepared s c item a e) (sym (ap (λ p. p.0) returns))
                  (subst
                    (λ t.
                      IsPrepared s c t.0 t.1 (retire now item'.attempt (after_intent item' a')).0)
                    same prepared)
          ]
    ]
  ]

-- The rollup leaves it prepared.
recalculate-IsPrepared :
    (now : Time) (s c : String) (d : Database) (item : RetryDueAttempt) (a : DeliveryAttempt)
    → IsPrepared s c item a d
    → ((recalculate_notification_status now item.notification_id d).1 ≡ ok tt)
      × IsPrepared s c item a (recalculate_notification_status now item.notification_id d).0
recalculate-IsPrepared now s c d item a
      (q, n, i, found, over, same, known, tenant, there, intended) =
    let frame = recalculate-frame now item.notification_id d in
    let attempts : (recalculate_notification_status now item.notification_id d).0.attempts
        ≡ d.attempts =
      ap (λ e. e.attempts) frame in
    let outbox : (recalculate_notification_status now item.notification_id d).0.outbox ≡ d.outbox =
      ap (λ e. e.outbox) frame in
    let (m, known', tenant') = recalculate-find now item.notification_id d n known in
    (
      recalculate-ok now item.notification_id d n known,
      (
        q,
        m,
        i,
        ap (find (by (λ b. b.id) s)) attempts ∙ found,
        over,
        same,
        known',
        tenant' ∙ tenant,
        ap (find (by (λ b. b.id) c)) attempts ∙ there,
        ap (find (by (λ b. b.attempt_id) a.id)) outbox ∙ intended,
      ),
    )

prepared-again :
    (later : Time) (s c : String) (d : Database) (item : RetryDueAttempt) (a : DeliveryAttempt)
    → IsPrepared s c item a d
    → ensure_retry_attempt later s c d ≡ (d, ok (record item { attempt = a }))
prepared-again later s c d item a (q, n, i, found, over, same, known, tenant, there, intended) =
    let again =
      retry-there later s c d q a n i found over
        (subst (λ k. find_notification d k ≡ some n) (sym same) known) there intended in
    ground (arith, again, same, tenant)

-- The call that returns r and leaves e, where the retry is prepared.
repeats :
    (now later : Time) (s c : String) (d e : Database) (item r : RetryDueAttempt)
    (a : DeliveryAttempt)
    → IsPrepared s c item a e
    → ensure_retry_attempt now s c d ≡ (e, ok (record item { attempt = a }))
    → (ensure_retry_attempt now s c d).1 ≡ ok r
    → let d' = (ensure_retry_attempt now s c d).0 in ensure_retry_attempt later s c d' ≡ (d', ok r)
repeats now later s c d e item r a prepared first h =
    let same : ok (record item { attempt = a }) ≡ ok r = sym (ap (λ p. p.1) first) ∙ h in
    let again : ensure_retry_attempt later s c e ≡ (e, ok r) =
      prepared-again later s c e item a prepared ∙ ap (λ x. (e, x)) same in
    subst (λ x. ensure_retry_attempt later s c x ≡ (x, ok r)) (sym (ap (λ p. p.0) first)) again

-- Once a retry is prepared under an attempt id other than the failed attempt's, preparing it again
-- at any time gives the same answer and changes nothing.
pub ensure_retry-ensure_retry :
    (now later : Time) (s c : String) (d : Database) (r : RetryDueAttempt)
    → s ≢ c
    → (ensure_retry_attempt now s c d).1 ≡ ok r
    → let d' = (ensure_retry_attempt now s c d).0 in ensure_retry_attempt later s c d' ≡ (d', ok r)
unfolding ensure_retry_attempt
ensure_retry-ensure_retry now later s c d r apart h = elim (Result-cases (retry_all now s c d).1) [
  | inr (e, failed) ↦ let never : true ≡ false = ground (arith, failed) in cc never
  | inl ((item, a, new), done) ↦
      let prepared = retry_all-IsPrepared now s c d item a new apart done in
      let d' = (retry_all now s c d).0 in
      let d'' = (recalculate_notification_status now item.notification_id d').0 in
      let (recalculated, prepared') = recalculate-IsPrepared now s c d' item a prepared in
      elim (Bool-cases new) [
        | inl e ↦
            repeats now later s c d d'' item r a prepared' (ground (arith, done, e, recalculated)) h
        | inr e ↦ repeats now later s c d d' item r a prepared (ground (arith, done, e)) h
      ]
]
