-- ===== src/Publisher/Drained.antt =====
-- internal/outbox/publisher.go: what RunOnce leaves for a claim, over a queue that takes every job.
use notification_service.Base.{
  ℕ, zero, suc, ◌<◌, ◌≡◌, ◌≢◌, refl, sym, ap, ◌∙◌, subst, ◌⊎◌, String, Bool, true, false, none,
  List, [], ◌∷◌, All, select, take, arith, inl, inr, Bool-cases, Option-cases,
}
use notification_service.Base.Table.{IsKeyed, count, update}
use notification_service.Base.Sort.{order_by, count-order_by}
use notification_service.Store.Model.{Time, StoreError, DispatchIntent, Database}
use notification_service.Store.Action.{ok, Result-cases}
use notification_service.Store.Outbox.{
  is_among, set_claimed, mark_dispatch_intent_published, PendingDispatchIntent, is_claimable,
  chosen, created_before, claim_pending_dispatch_intents, whole_seconds,
}
use notification_service.Store.Outbox.Leases.{claim-ok, leases}
use notification_service.Delivery.Service.{DispatchJob}
use notification_service.Publisher.{
  DispatchQueue, World, Ending, finished, failed, out_of_fuel, claim_batch_size, claim_timeout,
  at_store, publish, publish_claimed, publish_item, publish_batch, is_delayed, claim, go_on, round,
  run_once, job_of,
}
use notification_service.Publisher.Progress.{unpublished}
use notification_service.Publisher.Termination.{run_once-ends}
use notification_service.Publisher.Delivered.{run_once-succeeds}

select-nil :
    {A : Type 0} (p : A → Bool) (xs : List A) → select p xs ≡ [] → All (λ x. p x ≡ false) xs
select-nil p [] h = tt
select-nil p (x ∷ xs) h = elim (Bool-cases (p x)) [
  | inl e ↦ let never : true ≡ false = ground (arith, e, h) in cc never
  | inr e ↦ (e, select-nil p xs (ground (arith, e, h)))
]

order_by-nil :
    {A : Type 0} (before : A → A → Bool) (xs : List A) → order_by before xs ≡ [] → xs ≡ []
unfolding count
order_by-nil before [] h = refl
order_by-nil before (x ∷ xs) h =
    let rows = count-order_by before (λ _. true) (x ∷ xs) in
    let never : 0 ≡ suc (count (λ _. true) xs) = sym (ap (count (λ _. true)) h) ∙ rows in
    ground (arith, never)

take-nil : {A : Type 0} (n : ℕ) (xs : List A) → take (suc n) xs ≡ [] → xs ≡ []
take-nil n [] h = refl
take-nil n (x ∷ xs) h = cc h

-- No row of the outbox could be claimed.
abbrev pub IsDrained : Time → Database → Type 0
IsDrained now d = All (λ i. is_claimable now (whole_seconds claim_timeout) d i ≡ false) d.outbox

chosen-IsDrained :
    (now : Time) (d : Database)
    → chosen now 10 (whole_seconds claim_timeout) d ≡ []
    → IsDrained now d
unfolding chosen
chosen-IsDrained now d h = select-nil (is_claimable now (whole_seconds claim_timeout) d) d.outbox (
    order_by-nil created_before (select (is_claimable now (whole_seconds claim_timeout) d) d.outbox)
      (take-nil 9
        (order_by created_before
          (select (is_claimable now (whole_seconds claim_timeout) d) d.outbox))
        h))

leases-nil :
    (now : Time) (d : Database) (batch : List DispatchIntent) → [] ≡ leases now d batch → batch ≡ []
leases-nil now d [] h = refl
leases-nil now d (i ∷ batch) h = cc h

update-nobody :
    (f : DispatchIntent → DispatchIntent) (is : List DispatchIntent) → update (λ i. false) f is ≡ is
unfolding update
update-nobody f [] = refl
update-nobody f (i ∷ is) = ap (λ js. i ∷ js) (update-nobody f is)

claim-nothing :
    (now : Time) (d d' : Database)
    → claim_pending_dispatch_intents now claim_batch_size claim_timeout d ≡ (d', ok [])
    → IsDrained now d'
claim-nothing now d d' h =
    let batch = chosen now 10 (whole_seconds claim_timeout) d in
    let (rows, given) = claim-ok now claim_batch_size claim_timeout d d' [] h in
    let nothing : batch ≡ [] = leases-nil now d batch given in
    let same : d' ≡ d =
      rows
      ∙ ap (λ b. record d { outbox = update (is_among b) (set_claimed now) d.outbox }) nothing
      ∙ ap (λ o. record d { outbox = o }) (update-nobody (set_claimed now) d.outbox) in
    subst (IsDrained now) (sym same) (chosen-IsDrained now d nothing)

Ending-cases : (x : Ending) → x ≢ out_of_fuel → ((e : StoreError) × (x ≡ failed e)) ⊎ (x ≡ finished)
Ending-cases finished h = inr refl
Ending-cases (failed e) h = inl (e, refl)
Ending-cases out_of_fuel h = absurd (h refl)

module _ {Q : Type 0} (q : DispatchQueue Q) (clock : ℕ → Time) (generate_id : String → ℕ → String)
    (soft_limit : ℕ) (takes : (j : DispatchJob) (s : Q) → (q.enqueue_dispatch j s).1 ≡ none) where
  publish_item-taken :
      (i : DispatchIntent) (w : World Q) (b : Bool)
      → (publish_item q clock generate_id soft_limit i w).1 ≡ ok b
      → b ≡ false
  unfolding publish_item publish_claimed publish at_store
  publish_item-taken i w b h = elim (Option-cases i.claimed_at) [
    | inl e ↦ let never : true ≡ false = ground (arith, e, h) in cc never
    | inr (t, e) ↦
        let taken = takes (job_of q clock generate_id soft_limit w i) w.queue in
        elim (Result-cases (mark_dispatch_intent_published (clock w.ticks) i.id t w.tables).1) [
          | inl (u, marked) ↦ ground (arith, e, h, taken, marked)
          | inr (f, marked) ↦
              let never : true ≡ false = ground (arith, e, h, taken, marked) in cc never
        ]
  ]

  publish_batch-taken :
      (ps : List PendingDispatchIntent) (w : World Q) (b : Bool)
      → (publish_batch q clock generate_id soft_limit ps w).1 ≡ ok b
      → b ≡ false
  unfolding publish_batch
  publish_batch-taken [] w b h = ground (arith, h)
  publish_batch-taken (p ∷ ps) w b h =
      let w' = (publish_item q clock generate_id soft_limit p.intent w).0 in
      elim (Result-cases (publish_item q clock generate_id soft_limit p.intent w).1) [
        | inr (e, failure) ↦ let never : true ≡ false = ground (arith, failure, h) in cc never
        | inl (refused, one) ↦
            elim (Result-cases (publish_batch q clock generate_id soft_limit ps w').1) [
              | inr (e, failure) ↦
                  let never : true ≡ false = ground (arith, one, failure, h) in cc never
              | inl (others, rest) ↦
                  let first = publish_item-taken p.intent w refused one in
                  let last = publish_batch-taken ps w' others rest in
                  ground (arith, one, rest, h, first, last)
            ]
      ]

  round-drains :
      (next : World Q → World Q × Ending) (w : World Q)
      → ((w' : World Q) → (next w').1 ≡ finished → (t : Time) × IsDrained t (next w').0.tables)
      → (round q clock generate_id soft_limit next (claim q clock generate_id soft_limit w)).1
        ≡ finished
      → (t : Time) × IsDrained t
          (round q clock generate_id soft_limit next
            (claim q clock generate_id soft_limit w)).0.tables
  unfolding round go_on claim at_store
  round-drains next w drains h =
      let now = clock w.ticks in
      let d' = (claim_pending_dispatch_intents now claim_batch_size claim_timeout w.tables).0 in
      let w' : World Q = record w { tables = d'; ticks = suc w.ticks } in
      elim (Result-cases
        (claim_pending_dispatch_intents now claim_batch_size claim_timeout w.tables).1) [
          | inr (e, failure) ↦ let never : true ≡ false = ground (arith, failure, h) in cc never
          | inl ([], claimed) ↦
              let none_left = claim-nothing now w.tables d' (ap (λ r. (d', r)) claimed) in
              let end : d'
                  ≡ (round q clock generate_id soft_limit next
                      (claim q clock generate_id soft_limit w)).0.tables =
                ground (arith, claimed) in
              (now, subst (IsDrained now) end none_left)
          | inl (p ∷ ps, claimed) ↦
              elim (Result-cases (publish_batch q clock generate_id soft_limit (p ∷ ps) w').1) [
                | inr (e, failure) ↦
                    let never : true ≡ false = ground (arith, claimed, failure, h) in cc never
                | inl (b, done) ↦
                    let w'' = (publish_batch q clock generate_id soft_limit (p ∷ ps) w').0 in
                    let all = publish_batch-taken (p ∷ ps) w' b done in
                    let end : next w''
                        ≡ round q clock generate_id soft_limit next
                            (claim q clock generate_id soft_limit w) =
                      ground (arith, claimed, done, all) in
                    let (t, drained) = drains w'' (ap (λ r. r.1) end ∙ h) in
                    (t, subst (λ r. IsDrained t r.0.tables) end drained)
              ]
        ]

  run_once-finished :
      (fuel : ℕ) (w : World Q)
      → ((s : Q) → is_delayed q clock generate_id soft_limit (q.pressure_snapshot s).1 ≡ false)
      → (run_once q clock generate_id soft_limit fuel w).1 ≡ finished
      → (t : Time) × IsDrained t (run_once q clock generate_id soft_limit fuel w).0.tables
  unfolding run_once
  run_once-finished zero w calm h = cc h
  run_once-finished (suc fuel) w calm h =
      let w' : World Q = record w { queue = (q.pressure_snapshot w.queue).0 } in
      let end : round q clock generate_id soft_limit (run_once q clock generate_id soft_limit fuel)
            (claim q clock generate_id soft_limit w')
          ≡ run_once q clock generate_id soft_limit (suc fuel) w =
        ground (arith, calm w.queue) in
      let (t, drained) =
        round-drains (run_once q clock generate_id soft_limit fuel) w'
          (λ w'' k. run_once-finished fuel w'' calm k) (ap (λ r. r.1) end ∙ h) in
      (t, subst (λ r. IsDrained t r.0.tables) end drained)

  -- Over a queue that takes every job and is never under pressure, where no two intents share a
  -- key, and with more rounds than there are unpublished intents, RunOnce finishes without an
  -- error, and there is an instant at which no intent of the outbox could be claimed.
  pub run_once-drains :
      (fuel : ℕ) (w : World Q)
      → ((s : Q) → is_delayed q clock generate_id soft_limit (q.pressure_snapshot s).1 ≡ false)
      → IsKeyed (λ i. i.id) w.tables.outbox
      → unpublished w.tables < fuel
      → let (w', ending) = run_once q clock generate_id soft_limit fuel w in
        (ending ≡ finished) × ((t : Time) × IsDrained t w'.tables)
  run_once-drains fuel w calm keyed enough =
      elim (Ending-cases (run_once q clock generate_id soft_limit fuel w).1
        (run_once-ends q clock generate_id soft_limit fuel w keyed enough)) [
          | inl (e, failure) ↦
              absurd (run_once-succeeds q clock generate_id soft_limit takes fuel w e keyed failure)
          | inr done ↦ (done, run_once-finished fuel w calm done)
        ]
