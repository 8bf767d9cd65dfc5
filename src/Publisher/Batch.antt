-- ===== src/Publisher/Batch.antt =====
-- internal/outbox/publisher.go: what the loop over a batch does to the number of unpublished intents.
use notification_service.Base.{
  ℕ, suc, ◌<◌, ◌≡◌, refl, sym, ap, ◌∙◌, subst, String, Bool, true, false, ◌||◌, ◌⊎◌, some, List, [],
  ◌∷◌, arith, inl, inr, Option-cases,
}
use notification_service.Base.Table.{IsKeyed}
use notification_service.Store.Model.{Time, DispatchIntent}
use notification_service.Store.Action.{ok, Result-cases}
use notification_service.Store.Outbox.{
  PendingDispatchIntent, find_intent, is_held, mark_dispatch_intent_published,
}
use notification_service.Publisher.{
  DispatchQueue, World, at_store, audit, publish, give_back, publish_claimed, publish_item,
  publish_batch, job_of,
}
use notification_service.Publisher.Progress.{
  unpublished, Proceeds, then-Proceeds, same-Proceeds, mark-Proceeds, mark-lt, release-Proceeds,
  audit-Proceeds,
}

module _ {Q : Type 0} (q : DispatchQueue Q) (clock : ℕ → Time) (generate_id : String → ℕ → String)
    (soft_limit : ℕ) where
  audit_tables :
      (i : DispatchIntent) (w : World Q)
      → Proceeds w.tables (audit q clock generate_id soft_limit i w).tables
  unfolding audit at_store
  audit_tables i w =
      audit-Proceeds (clock w.ticks) (generate_id "audit" w.ids) i.tenant_id "outbox-publisher"
        "dispatch_published" "dispatch_intent" i.id
        (("notification_id", i.notification_id)
          ∷ (("attempt_id", i.attempt_id) ∷ (("channel", i.channel) ∷ (("source", i.source) ∷ []))))
        w.tables

  -- A job that the queue took.
  publish-ok :
      (i : DispatchIntent) (claimed_at : Time) (w : World Q) (b : Bool)
      → (publish q clock generate_id soft_limit i claimed_at w).1 ≡ ok b
      → let d' = (mark_dispatch_intent_published (clock w.ticks) i.id claimed_at w.tables).0 in
        ((mark_dispatch_intent_published (clock w.ticks) i.id claimed_at w.tables).1 ≡ ok tt)
        × Proceeds d' (publish q clock generate_id soft_limit i claimed_at w).0.tables
  unfolding publish at_store
  publish-ok i claimed_at w b h =
      elim (Result-cases
        (mark_dispatch_intent_published (clock w.ticks) i.id claimed_at w.tables).1) [
          | inr (e, refused) ↦ let never : true ≡ false = ground (arith, refused, h) in cc never
          | inl (u, marked) ↦
              let w' = record w {
                tables =
                    (mark_dispatch_intent_published (clock w.ticks) i.id claimed_at w.tables).0;
                ticks = suc w.ticks;
              } in
              let same : (publish q clock generate_id soft_limit i claimed_at w).0
                  ≡ audit q clock generate_id soft_limit i w' =
                ground (arith, marked) in
              (marked, subst (λ x. Proceeds w'.tables x.tables) (sym same) (audit_tables i w'))
        ]

  publish_claimed-Proceeds :
      (i : DispatchIntent) (claimed_at : Time) (w : World Q) (b : Bool)
      → (publish_claimed q clock generate_id soft_limit i claimed_at w).1 ≡ ok b
      → Proceeds w.tables (publish_claimed q clock generate_id soft_limit i claimed_at w).0.tables
        × ((b ≡ true)
            ⊎ (IsKeyed (λ i. i.id) w.tables.outbox
                → find_intent w.tables i.id ≡ some i
                → is_held claimed_at i ≡ true
                → unpublished
                    (publish_claimed q clock generate_id soft_limit i claimed_at w).0.tables
                  < unpublished w.tables))
  unfolding publish_claimed give_back at_store
  publish_claimed-Proceeds i claimed_at w b h =
      let (queue, refusal) =
        q.enqueue_dispatch (job_of q clock generate_id soft_limit w i) w.queue in
      let w' : World Q = record w { queue = queue; ids = suc w.ids } in
      elim (Option-cases refusal) [
        | inl e ↦
            let same : publish_claimed q clock generate_id soft_limit i claimed_at w
                ≡ publish q clock generate_id soft_limit i claimed_at w' =
              ground (arith, e) in
            let published : (publish q clock generate_id soft_limit i claimed_at w').1 ≡ ok b =
              sym (ap (λ r. r.1) same) ∙ h in
            let (marked, later) = publish-ok i claimed_at w' b published in
            let d' = (mark_dispatch_intent_published (clock w.ticks) i.id claimed_at w.tables).0 in
            let end = (publish q clock generate_id soft_limit i claimed_at w').0.tables in
            let first = mark-Proceeds (clock w.ticks) i.id claimed_at w.tables tt marked in
            (
              subst (λ r. Proceeds w.tables r.0.tables) (sym same)
                  (then-Proceeds w.tables d' end first later),
              inr (λ keyed found held.
                  subst (λ r. unpublished r.0.tables < unpublished w.tables) (sym same)
                    (omega (
                      arith,
                      later.fewer,
                      mark-lt (clock w.ticks) i.id claimed_at w.tables tt i marked keyed found held,
                    ))),
            )
        | inr (why, e) ↦
            let same : publish_claimed q clock generate_id soft_limit i claimed_at w
                ≡ give_back q clock generate_id soft_limit i claimed_at why w' =
              ground (arith, e) in
            let refused : b ≡ true = ground (arith, e, h) in
            (
              subst (λ r. Proceeds w.tables r.0.tables) (sym same)
                  (release-Proceeds (clock w.ticks) i.id claimed_at w.tables why),
              inl refused,
            )
      ]

  publish_item-claimed :
      (i : DispatchIntent) (w : World Q) (b : Bool)
      → (publish_item q clock generate_id soft_limit i w).1 ≡ ok b
      → (claimed_at : Time) × (i.claimed_at ≡ some claimed_at)
        × (publish_item q clock generate_id soft_limit i w
            ≡ publish_claimed q clock generate_id soft_limit i claimed_at w)
  unfolding publish_item
  publish_item-claimed i w b h = elim (Option-cases i.claimed_at) [
    | inl e ↦ let never : true ≡ false = ground (arith, e, h) in cc never
    | inr (claimed_at, e) ↦ (claimed_at, e, ground (arith, e))
  ]

  pub publish_item-Proceeds :
      (i : DispatchIntent) (w : World Q) (b : Bool)
      → (publish_item q clock generate_id soft_limit i w).1 ≡ ok b
      → Proceeds w.tables (publish_item q clock generate_id soft_limit i w).0.tables
  publish_item-Proceeds i w b h =
      let (claimed_at, e, same) = publish_item-claimed i w b h in
      subst (λ r. Proceeds w.tables r.0.tables) (sym same)
        (publish_claimed-Proceeds i claimed_at w b (sym (ap (λ r. r.1) same) ∙ h)).0

  -- The steps of a batch.
  publish_batch-cons :
      (p : PendingDispatchIntent) (ps : List PendingDispatchIntent) (w : World Q) (b : Bool)
      → (publish_batch q clock generate_id soft_limit (p ∷ ps) w).1 ≡ ok b
      → let w' = (publish_item q clock generate_id soft_limit p.intent w).0 in
        (refused others : Bool) × ((publish_item q clock generate_id soft_limit p.intent w).1
          ≡ ok refused)
        × ((publish_batch q clock generate_id soft_limit ps w').1 ≡ ok others)
        × (publish_batch q clock generate_id soft_limit (p ∷ ps) w
            ≡ ((publish_batch q clock generate_id soft_limit ps w').0, ok (refused || others)))
  unfolding publish_batch
  publish_batch-cons p ps w b h =
      let w' = (publish_item q clock generate_id soft_limit p.intent w).0 in
      elim (Result-cases (publish_item q clock generate_id soft_limit p.intent w).1) [
        | inr (e, failure) ↦ let never : true ≡ false = ground (arith, failure, h) in cc never
        | inl (refused, one) ↦
            elim (Result-cases (publish_batch q clock generate_id soft_limit ps w').1) [
              | inr (e, failure) ↦
                  let never : true ≡ false = ground (arith, one, failure, h) in cc never
              | inl (others, rest) ↦ (refused, others, one, rest, ground (arith, one, rest))
            ]
      ]

  pub publish_batch-Proceeds :
      (ps : List PendingDispatchIntent) (w : World Q) (b : Bool)
      → (publish_batch q clock generate_id soft_limit ps w).1 ≡ ok b
      → Proceeds w.tables (publish_batch q clock generate_id soft_limit ps w).0.tables
  publish_batch-Proceeds [] w b h = unfold publish_batch in same-Proceeds w.tables w.tables refl
  publish_batch-Proceeds (p ∷ ps) w b h =
      let (refused, others, one, rest, same) = publish_batch-cons p ps w b h in
      let w' = (publish_item q clock generate_id soft_limit p.intent w).0 in
      subst (λ r. Proceeds w.tables r.0.tables) (sym same)
        (then-Proceeds w.tables w'.tables
          (publish_batch q clock generate_id soft_limit ps w').0.tables
          (publish_item-Proceeds p.intent w refused one) (publish_batch-Proceeds ps w' others rest))

  pub publish_batch-lt :
      (p : PendingDispatchIntent) (ps : List PendingDispatchIntent) (w : World Q)
      (claimed_at : Time)
      → (publish_batch q clock generate_id soft_limit (p ∷ ps) w).1 ≡ ok false
      → IsKeyed (λ i. i.id) w.tables.outbox
      → find_intent w.tables p.intent.id ≡ some p.intent
      → p.intent.claimed_at ≡ some claimed_at
      → is_held claimed_at p.intent ≡ true
      → unpublished (publish_batch q clock generate_id soft_limit (p ∷ ps) w).0.tables
        < unpublished w.tables
  publish_batch-lt p ps w claimed_at h keyed found at held =
      let (refused, others, one, rest, same) = publish_batch-cons p ps w false h in
      let (t, its, item) = publish_item-claimed p.intent w refused one in
      let w' = (publish_item q clock generate_id soft_limit p.intent w).0 in
      let when : some t ≡ some claimed_at = sym its ∙ at in
      let held' : is_held t p.intent ≡ true = ground (arith, when, held) in
      let taken : refused ≡ false =
        let both : ok (refused || others) ≡ ok false = sym (ap (λ r. r.1) same) ∙ h in
        ground (arith, both) in
      let later = publish_batch-Proceeds ps w' others rest in
      let first : unpublished w'.tables < unpublished w.tables =
        elim (publish_claimed-Proceeds p.intent t w refused (sym (ap (λ r. r.1) item) ∙ one)).1 [
          | inl failure ↦ let never : true ≡ false = sym failure ∙ taken in cc never
          | inr less ↦
              subst (λ r. unpublished r.0.tables < unpublished w.tables) (sym item)
                (less keyed found held')
        ] in
      subst (λ r. unpublished r.0.tables < unpublished w.tables) (sym same)
        (omega (arith, first, later.fewer))
