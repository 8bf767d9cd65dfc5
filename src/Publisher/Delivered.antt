-- ===== src/Publisher/Delivered.antt =====
-- internal/outbox/publisher.go: RunOnce over a queue that takes every job.
use notification_service.Base.{
  ℕ, zero, suc, ◌≡◌, ◌≢◌, refl, sym, ap, ◌∙◌, String, Bool, true, false, ◌==◌, none, List, [], ◌∷◌,
  All, All-weaken, All-both, arith, inl, inr, Bool-cases,
}
use notification_service.Base.Table.{IsKeyed, find, by}
use notification_service.Store.Model.{Time, StoreError, Database, Variables}
use notification_service.Store.Action.{ok, err, Result-cases}
use notification_service.Store.Records.{record_audit_event}
use notification_service.Store.Outbox.{
  PendingDispatchIntent, claim_pending_dispatch_intents, mark_dispatch_intent_published,
}
use notification_service.Delivery.Service.{DispatchJob}
use notification_service.Publisher.{
  DispatchQueue, World, Ending, failed, claim_batch_size, claim_timeout, at_store, audit, publish,
  publish_claimed, publish_item, publish_batch, is_delayed, claim, go_on, round, run_once, job_of,
}
use notification_service.Publisher.Held.{intent_id, IsHeldIn, claim-held, mark-held, mark-others}
use notification_service.Publisher.Claimed.{claim-first}
use notification_service.Publisher.Batch.{publish_item-Proceeds, publish_batch-Proceeds}

record_audit_event-outbox :
    (now : Time) (id tenant_id actor action resource_type resource_id : String)
    (metadata : Variables) (d : Database)
    → (record_audit_event now id tenant_id actor action resource_type resource_id metadata
        d).0.outbox
      ≡ d.outbox
unfolding record_audit_event
record_audit_event-outbox now id tenant_id actor action resource_type resource_id metadata d =
    ground arith

same-IsHeldIn :
    (now : Time) (d d' : Database) (p : PendingDispatchIntent)
    → d'.outbox ≡ d.outbox
    → IsHeldIn now d p
    → IsHeldIn now d' p
same-IsHeldIn now d d' p e (at, found, holds) =
    (at, ap (find (by (λ i. i.id) p.intent.id)) e ∙ found, holds)

none-All : {A : Type 0} (p : A → Bool) (xs : List A) → find p xs ≡ none → All (λ x. p x ≡ false) xs
unfolding find
none-All p [] h = tt
none-All p (x ∷ xs) h = elim (Bool-cases (p x)) [
  | inl e ↦ let never : true ≡ false = ground (arith, e, h) in cc never
  | inr e ↦ (e, none-All p xs (ground (arith, e, h)))
]

module _ {Q : Type 0} (q : DispatchQueue Q) (clock : ℕ → Time) (generate_id : String → ℕ → String)
    (soft_limit : ℕ) (takes : (j : DispatchJob) (s : Q) → (q.enqueue_dispatch j s).1 ≡ none) where
  -- The tables after the publication of an intent, but for the audit event.
  abbrev marked_tables : Time → PendingDispatchIntent → World Q → Database
  marked_tables now p w =
      (mark_dispatch_intent_published (clock w.ticks) p.intent.id now w.tables).0

  item-delivered :
      (now : Time) (p : PendingDispatchIntent) (w : World Q)
      → IsKeyed (λ i. i.id) w.tables.outbox
      → IsHeldIn now w.tables p
      → ((publish_item q clock generate_id soft_limit p.intent w).1 ≡ ok false)
        × ((publish_item q clock generate_id soft_limit p.intent w).0.tables.outbox
            ≡ (marked_tables now p w).outbox)
  unfolding publish_item publish_claimed publish audit at_store
  item-delivered now p w keyed h =
      let w' : World Q = record w { ids = suc w.ids } in
      let marked = mark-held (clock w.ticks) now w.tables p keyed h in
      let taken = takes (job_of q clock generate_id soft_limit w p.intent) w.queue in
      let i = p.intent in
      let audited =
        record_audit_event-outbox (clock (suc w.ticks)) (generate_id "audit" (suc w.ids))
          i.tenant_id "outbox-publisher" "dispatch_published" "dispatch_intent" i.id
          (("notification_id", i.notification_id)
            ∷ (("attempt_id", i.attempt_id)
                ∷ (("channel", i.channel) ∷ (("source", i.source) ∷ []))))
          (marked_tables now p w) in
      (ground (arith, h.0, taken, marked), ground (arith, h.0, taken, marked, audited))

  batch-delivered :
      (now : Time) (ps : List PendingDispatchIntent) (w : World Q)
      → IsKeyed (λ i. i.id) w.tables.outbox
      → All (IsHeldIn now w.tables) ps
      → IsKeyed intent_id ps
      → (publish_batch q clock generate_id soft_limit ps w).1 ≡ ok false
  unfolding publish_batch
  batch-delivered now [] w keyed h k = refl
  batch-delivered now (p ∷ ps) w keyed h k =
      let (one, outbox) = item-delivered now p w keyed h.0 in
      let w' = (publish_item q clock generate_id soft_limit p.intent w).0 in
      let marked = mark-held (clock w.ticks) now w.tables p keyed h.0 in
      let others =
        All-weaken (λ r. IsHeldIn now w.tables r × ((r.intent.id == p.intent.id) ≡ false))
          (IsHeldIn now w'.tables)
          (λ r x.
            same-IsHeldIn now (marked_tables now p w) w'.tables r outbox
              (mark-others (clock w.ticks) now w.tables p r marked x.1 x.0))
          ps
          (All-both (IsHeldIn now w.tables) (λ r. (r.intent.id == p.intent.id) ≡ false) ps h.1
            (none-All (by intent_id p.intent.id) ps k.0)) in
      let rest =
        batch-delivered now ps w'
          ((publish_item-Proceeds q clock generate_id soft_limit p.intent w false one).keyed keyed)
          others k.1 in
      ground (arith, one, rest)

  claim-succeeds :
      (now : Time) (d : Database)
      → (ps : List PendingDispatchIntent) × ((claim_pending_dispatch_intents now claim_batch_size
            claim_timeout d).1
          ≡ ok ps)
  unfolding claim_pending_dispatch_intents
  claim-succeeds now d = (_, refl)

  round-succeeds :
      (next : World Q → World Q × Ending) (w : World Q) (e : StoreError)
      → IsKeyed (λ i. i.id) w.tables.outbox
      → ((w' : World Q) → IsKeyed (λ i. i.id) w'.tables.outbox → (next w').1 ≢ failed e)
      → (round q clock generate_id soft_limit next (claim q clock generate_id soft_limit w)).1
        ≢ failed e
  unfolding round go_on claim at_store
  round-succeeds next w e keyed succeeds =
      let now = clock w.ticks in
      let d' = (claim_pending_dispatch_intents now claim_batch_size claim_timeout w.tables).0 in
      let w' : World Q = record w { tables = d'; ticks = suc w.ticks } in
      elim (Result-cases
        (claim_pending_dispatch_intents now claim_batch_size claim_timeout w.tables).1) [
          | inr (f, failure) ↦
              let (ps, fine) = claim-succeeds now w.tables in
              let never : err f ≡ ok ps = sym failure ∙ fine in cc never
          | inl ([], claimed) ↦ ground (arith, claimed)
          | inl (p ∷ ps, claimed) ↦
              let (keyed', same, found, at, holds) =
                claim-first now claim_batch_size claim_timeout w.tables d' p ps keyed
                  (ap (λ r. (d', r)) claimed) in
              let (held, distinct) =
                claim-held now claim_batch_size claim_timeout w.tables d' (p ∷ ps) keyed
                  (ap (λ r. (d', r)) claimed) in
              let done = batch-delivered now (p ∷ ps) w' keyed' held distinct in
              let w'' = (publish_batch q clock generate_id soft_limit (p ∷ ps) w').0 in
              let on = succeeds w'' (
                (publish_batch-Proceeds q clock generate_id soft_limit (p ∷ ps) w' false done).keyed
                  keyed') in
              ground (arith, claimed, done, on)
        ]

  pub run_once-succeeds :
      (fuel : ℕ) (w : World Q) (e : StoreError)
      → IsKeyed (λ i. i.id) w.tables.outbox
      → (run_once q clock generate_id soft_limit fuel w).1 ≢ failed e
  unfolding run_once
  run_once-succeeds zero w e keyed = ground arith
  run_once-succeeds (suc fuel) w e keyed =
      let (queue, snapshot) = q.pressure_snapshot w.queue in
      let w' : World Q = record w { queue = queue } in
      let on =
        round-succeeds (run_once q clock generate_id soft_limit fuel) w' e keyed
          (λ w'' k. run_once-succeeds fuel w'' e k) in
      elim (Bool-cases (is_delayed q clock generate_id soft_limit snapshot)) [
        | inl f ↦ ground (arith, f)
        | inr f ↦ ground (arith, f, on)
      ]
