-- ===== src/Publisher.antt =====
-- internal/outbox/publisher.go: RunOnce, over the model of the store and a queue that is a parameter.
-- Each call of the store sees the next instant of a clock. Logs are left out.
pub mod Progress
pub mod Claimed
pub mod Held
pub mod Delivered
pub mod Batch
pub mod Termination
pub mod Drained
use notification_service.Base.{
  ℕ, zero, suc, ◌+◌, ◌*◌, String, Bool, true, false, ◌||◌, Option, none, some, List, [], ◌∷◌, ltb,
  if◌then◌else◌,
}
use notification_service.Store.Model.{Time, StoreError, DispatchIntent, Database, other}
use notification_service.Store.Action.{Action, Result, ok, err}
use notification_service.Store.Outbox.{
  PendingDispatchIntent, second, claim_pending_dispatch_intents, mark_dispatch_intent_published,
  record_dispatch_intent_error,
}
use notification_service.Store.Records.{record_audit_event}
use notification_service.Delivery.Service.{DispatchJob}
use notification_service.Queue.{PressureSnapshot, any_soft_limited}

-- The queue: the error of an operation, if it has one, and the state after it.
pub record DispatchQueue (Q : Type 0) : Type 0 where
  pub pressure_snapshot : Q → Q × Option PressureSnapshot
  pub enqueue_dispatch : DispatchJob → Q → Q × Option String

pub record World (Q : Type 0) : Type 0 where
  pub tables : Database
  pub queue : Q
  pub ticks : ℕ
  pub ids : ℕ

abbrev pub claim_batch_size : ℕ
claim_batch_size = 10

abbrev pub publish_timeout : Time
publish_timeout = 15 * second

abbrev pub claim_timeout : Time
claim_timeout = (claim_batch_size + 1) * publish_timeout

-- How a call of RunOnce ends.
pub data Ending : Type 0 where
  finished : Ending
  failed : StoreError → Ending
  out_of_fuel : Ending

module _ {Q : Type 0} (q : DispatchQueue Q) (clock : ℕ → Time) (generate_id : String → ℕ → String)
    (soft_limit : ℕ) where
  -- An operation of the store at the next instant.
  unfoldable pub at_store : {A : Type 0} → (Time → Action A) → World Q → World Q × Result A
  at_store act w =
      let (d, r) = act (clock w.ticks) w.tables in (record w { tables = d; ticks = suc w.ticks }, r)

  unfoldable pub job_of : World Q → DispatchIntent → DispatchJob
  job_of w i = record {
    job_id = generate_id "job" w.ids;
    notification_id = i.notification_id;
    attempt_id = i.attempt_id;
    tenant_id = i.tenant_id;
    channel = i.channel;
    created_at = clock w.ticks;
  }

  unfoldable pub audit : DispatchIntent → World Q → World Q
  unfolding at_store
  audit i w =
      (at_store
        (λ now.
          record_audit_event now (generate_id "audit" w.ids) i.tenant_id "outbox-publisher"
            "dispatch_published" "dispatch_intent" i.id
            (("notification_id", i.notification_id)
              ∷ (("attempt_id", i.attempt_id)
                  ∷ (("channel", i.channel) ∷ (("source", i.source) ∷ [])))))
        (record w { ids = suc w.ids })).0

  -- The queue took the job.
  unfoldable pub publish : DispatchIntent → Time → World Q → World Q × Result Bool
  unfolding at_store
  publish i claimed_at w =
      let (w', r) = at_store (λ now. mark_dispatch_intent_published now i.id claimed_at) w in
      elim r [ err e ↦ (w', err e) | ok u ↦ (audit i w', ok false) ]

  -- The queue refused it. The error of recording this is logged.
  unfoldable pub give_back : DispatchIntent → Time → String → World Q → World Q × Result Bool
  unfolding at_store
  give_back i claimed_at e w =
      ((at_store (λ now. record_dispatch_intent_error i.id claimed_at e) w).0, ok true)

  unfoldable pub publish_claimed : DispatchIntent → Time → World Q → World Q × Result Bool
  publish_claimed i claimed_at w =
      let (queue, refusal) = q.enqueue_dispatch (job_of w i) w.queue in
      let w' = record w { queue = queue; ids = suc w.ids } in
      elim refusal [ none ↦ publish i claimed_at w' | some e ↦ give_back i claimed_at e w' ]

  -- One item of the batch: whether its publication failed.
  unfoldable pub publish_item : DispatchIntent → World Q → World Q × Result Bool
  publish_item i w = elim i.claimed_at [
    | none ↦ (w, err (other "claimed dispatch intent missing claimed_at"))
    | some claimed_at ↦ publish_claimed i claimed_at w
  ]

  -- The loop over the batch: whether some publication failed.
  unfoldable pub publish_batch : List PendingDispatchIntent → World Q → World Q × Result Bool
  publish_batch [] w = (w, ok false)
  publish_batch (p ∷ ps) w =
      let (w', r) = publish_item p.intent w in
      elim r [
        | err e ↦ (w', err e)
        | ok refused ↦
            let (w'', rs) = publish_batch ps w' in
            elim rs [ err e ↦ (w'', err e) | ok others ↦ (w'', ok (refused || others)) ]
      ]

  unfoldable pub with_soft_limit : PressureSnapshot → PressureSnapshot
  with_soft_limit s = if ltb 0 soft_limit then record s { soft_limit = soft_limit } else s

  -- An error of the snapshot does not delay.
  unfoldable pub is_delayed : Option PressureSnapshot → Bool
  unfolding with_soft_limit
  is_delayed none = false
  is_delayed (some s) = any_soft_limited (with_soft_limit s)

  unfoldable pub claim : World Q → World Q × Result (List PendingDispatchIntent)
  unfolding at_store
  claim = at_store (λ now. claim_pending_dispatch_intents now claim_batch_size claim_timeout)

  -- What a round does with its batch, and with the world after it.
  unfoldable pub go_on : (World Q → World Q × Ending) → World Q × Result Bool → World Q × Ending
  go_on next (w, err e) = (w, failed e)
  go_on next (w, ok true) = (w, finished)
  go_on next (w, ok false) = next w

  unfoldable pub round :
      (World Q → World Q × Ending)
      → World Q × Result (List PendingDispatchIntent)
      → World Q × Ending
  round next (w, err e) = (w, failed e)
  round next (w, ok []) = (w, finished)
  round next (w, ok (p ∷ ps)) = go_on next (publish_batch (p ∷ ps) w)

  unfoldable pub run_once : ℕ → World Q → World Q × Ending
  run_once zero w = (w, out_of_fuel)
  run_once (suc fuel) w =
      let (queue, snapshot) = q.pressure_snapshot w.queue in
      let w' = record w { queue = queue } in
      if is_delayed snapshot then (w', finished) else round (run_once fuel) (claim w')
