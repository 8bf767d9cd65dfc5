-- ===== src/Queue/Jobs/Settled.antt =====
-- internal/queue/redis.go: a job that is reserved, and then acknowledged.
use notification_service.Base.{
  ◌≡◌, refl, sym, ◌∙◌, subst, ℕ, suc, String, false, ◌==◌, some, List, [], ◌∷◌, ◌++◌, arith,
  if◌then◌else◌, eq_iff, eq_refl, eqb, inl, inr, Bool-cases,
}
use notification_service.Delivery.Service.{DispatchJob}
use notification_service.Queue.Jobs.{
  Redis, done, ReservedJob, processing_queue_name, brpoplpush, lrem, reserve_loop, reserve_channel,
  ack_reserved, consume_channel,
}
use notification_service.Queue.Jobs.Laws.{ListLaws}
use notification_service.Queue.Jobs.Recovery.{processing-ne}

module _ (R : Redis) (laws : ListLaws R) (name : String) (s : R.State) (xs : List String)
    (payload : String) (job : DispatchJob) (waits : laws.list s name ≡ xs ++ payload ∷ [])
    (decodes : R.unmarshal payload ≡ some job) where
  abbrev processing : String
  processing = processing_queue_name name

  apart : (name == processing) ≡ false
  apart = ground (arith, processing-ne name, eq_iff name processing, eq_iff processing name)

  abbrev taken : ReservedJob
  taken = record { job = job; queue_name = name; processing_queue = processing; payload = payload }

  -- Reserving takes the last job of the queue to the head of the processing queue.
  module _ (rounds timeout : ℕ) where
    abbrev held : R.State
    held = (brpoplpush R name processing (if eqb timeout 0 then 1 else timeout) s).0

    reserve-takes :
        (reserve_channel R (suc rounds) name timeout s ≡ (held, done taken))
        × (laws.list held name ≡ xs)
        × (laws.list held processing ≡ payload ∷ laws.list s processing)
        × ((key : String)
            → (key == name) ≡ false
            → (key == processing) ≡ false
            → laws.list held key ≡ laws.list s key)
    unfolding reserve_channel reserve_loop
    reserve-takes =
        let seconds = if eqb timeout 0 then 1 else timeout in
        let (reply, lists) =
          laws.brpoplpush_moves name processing (R.itoa seconds) s xs payload apart waits in
        (
          ground (arith, reply, decodes),
          lists name ∙ rw (eq_refl name) refl,
          lists processing ∙ rw (processing-ne name, eq_refl processing) refl,
          λ key a b. lists key ∙ rw (a, b) refl,
        )

    abbrev settled : R.State
    settled = (lrem R processing 1 payload held).0

    ack-removes :
        (ack_reserved R taken held ≡ (settled, done tt))
        × (laws.list settled name ≡ xs)
        × (laws.list settled processing ≡ laws.list s processing)
        × ((key : String)
            → (key == name) ≡ false
            → (key == processing) ≡ false
            → laws.list settled key ≡ laws.list s key)
    unfolding ack_reserved
    ack-removes =
        let (reserved, at_name, at_processing, others) = reserve-takes in
        let (reply, lists) =
          laws.lrem_head processing payload held (laws.list s processing) at_processing in
        (
          ground (arith, reply),
          lists name ∙ rw apart at_name,
          lists processing ∙ rw (eq_refl processing) refl,
          λ key a b. lists key ∙ rw b (others key a b),
        )

    consume-returns : consume_channel R (suc rounds) name timeout s ≡ (settled, done job)
    unfolding consume_channel
    consume-returns = ground (arith, reserve-takes.0, ack-removes.0)

    -- Of the other lists, the processing queue included.
    settled-others :
        (key : String) → (key == name) ≡ false → laws.list settled key ≡ laws.list s key
    settled-others key a = elim (Bool-cases (key == processing)) [
      | inr b ↦ ack-removes.3 key a b
      | inl same ↦
          subst (λ k. laws.list settled k ≡ laws.list s k) (sym ((eq_iff key processing).0 same))
            ack-removes.2
    ]

-- Over a Redis that answers as documented, where the context lives for a round, consuming from a
-- queue that is not empty, whose last job can be decoded, gives that job and takes it and nothing
-- else off the lists: the processing queue is as it was.
pub consume-takes :
    (R : Redis) (laws : ListLaws R) (name : String) (s : R.State) (xs : List String)
    → (payload : String) (job : DispatchJob) (rounds timeout : ℕ)
    → laws.list s name ≡ xs ++ payload ∷ []
    → R.unmarshal payload ≡ some job
    → let (s', r) = consume_channel R (suc rounds) name timeout s in
      (r ≡ done job)
      × (laws.list s' name ≡ xs)
      × ((key : String) → (key == name) ≡ false → laws.list s' key ≡ laws.list s key)
consume-takes R laws name s xs payload job rounds timeout waits decodes =
    let returns = consume-returns R laws name s xs payload job waits decodes rounds timeout in
    let removed = ack-removes R laws name s xs payload job waits decodes rounds timeout in
    let others = settled-others R laws name s xs payload job waits decodes rounds timeout in
    subst
      (λ p.
        (p.1 ≡ done job)
        × (laws.list p.0 name ≡ xs)
        × ((key : String) → (key == name) ≡ false → laws.list p.0 key ≡ laws.list s key))
      (sym returns) (refl, removed.1, others)
