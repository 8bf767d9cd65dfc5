-- ===== src/Publisher/Termination.antt =====
-- internal/outbox/publisher.go: the loop of RunOnce, round by round.
use notification_service.Base.{
  ℕ, zero, suc, ◌<◌, ◌≢◌, ap, String, true, false, [], ◌∷◌, arith, inl, inr, Bool-cases,
}
use notification_service.Base.Table.{IsKeyed}
use notification_service.Store.Model.{Time}
use notification_service.Store.Action.{Result-cases}
use notification_service.Store.Outbox.{claim_pending_dispatch_intents}
use notification_service.Publisher.{
  DispatchQueue, World, Ending, out_of_fuel, claim_batch_size, claim_timeout, at_store,
  publish_batch, is_delayed, claim, go_on, round, run_once,
}
use notification_service.Publisher.Batch.{publish_batch-Proceeds, publish_batch-lt}
use notification_service.Publisher.Claimed.{claim-first}
use notification_service.Publisher.Progress.{unpublished}

module _ {Q : Type 0} (q : DispatchQueue Q) (clock : ℕ → Time) (generate_id : String → ℕ → String)
    (soft_limit : ℕ) where
  -- A round that goes on does so with fewer unpublished intents.
  round-next :
      (next : World Q → World Q × Ending) (w : World Q)
      → IsKeyed (λ i. i.id) w.tables.outbox
      → ((w' : World Q)
          → IsKeyed (λ i. i.id) w'.tables.outbox
          → unpublished w'.tables < unpublished w.tables
          → (next w').1 ≢ out_of_fuel)
      → (round q clock generate_id soft_limit next (claim q clock generate_id soft_limit w)).1
        ≢ out_of_fuel
  unfolding round go_on claim at_store
  round-next next w keyed ends =
      let now = clock w.ticks in
      let d' = (claim_pending_dispatch_intents now claim_batch_size claim_timeout w.tables).0 in
      elim (Result-cases
        (claim_pending_dispatch_intents now claim_batch_size claim_timeout w.tables).1) [
          | inr (e, failure) ↦ ground (arith, failure)
          | inl ([], claimed) ↦ ground (arith, claimed)
          | inl (p ∷ ps, claimed) ↦
              let w' : World Q = record w { tables = d'; ticks = suc w.ticks } in
              let (keyed', same, found, at, held) =
                claim-first now claim_batch_size claim_timeout w.tables d' p ps keyed
                  (ap (λ r. (d', r)) claimed) in
              elim (Result-cases (publish_batch q clock generate_id soft_limit (p ∷ ps) w').1) [
                | inr (e, failure) ↦ ground (arith, claimed, failure)
                | inl (true, done) ↦ ground (arith, claimed, done)
                | inl (false, done) ↦
                    let w'' = (publish_batch q clock generate_id soft_limit (p ∷ ps) w').0 in
                    let less =
                      publish_batch-lt q clock generate_id soft_limit p ps w' now done keyed' found
                        at held in
                    let on =
                      ends w''
                        ((publish_batch-Proceeds q clock generate_id soft_limit (p ∷ ps) w' false
                            done).keyed
                          keyed')
                        (omega (arith, same, less)) in
                    ground (arith, claimed, done, on)
              ]
        ]

  -- Where no two intents share a key, RunOnce ends, whatever the queue answers and the clock says:
  -- more rounds than there are unpublished intents are never used up.
  pub run_once-ends :
      (fuel : ℕ) (w : World Q)
      → IsKeyed (λ i. i.id) w.tables.outbox
      → unpublished w.tables < fuel
      → (run_once q clock generate_id soft_limit fuel w).1 ≢ out_of_fuel
  unfolding run_once
  run_once-ends zero w keyed enough = absurd (omega (arith, enough))
  run_once-ends (suc fuel) w keyed enough =
      let (queue, snapshot) = q.pressure_snapshot w.queue in
      let w' : World Q = record w { queue = queue } in
      let on =
        round-next (run_once q clock generate_id soft_limit fuel) w' keyed
          (λ w'' keyed'' less. run_once-ends fuel w'' keyed'' (omega (arith, less, enough))) in
      elim (Bool-cases (is_delayed q clock generate_id soft_limit snapshot)) [
        | inl e ↦ ground (arith, e)
        | inr e ↦ ground (arith, e, on)
      ]
