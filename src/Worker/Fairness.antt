-- ===== src/Worker/Fairness.antt =====
-- internal/worker/runner.go: one search of the fair scheduler, and the jobs in flight over any calls.
use notification_service.Base.{
  ℕ, suc, zero, ◌+◌, ◌≤◌, ◌<◌, ◌≡◌, refl, subst, String, ◌||◌, Option, none, some, List, [], ◌∷◌,
  arith, length, ◌%◌, ◌⊎◌, inl, inr, Bool-cases,
}
use notification_service.Delivery.Service.{DispatchJob}
use notification_service.Worker.{
  FairScheduler, at_least_one, put, new_fair_scheduler, add, complete, item_at, is_blocked,
  is_spent, skip, take_job, search_job, next_job,
}

-- What one search does to the queues: it takes the oldest job of a tenant that may have another one in flight, or leaves the queues as they are.
abbrev pub Effect : FairScheduler → FairScheduler × Option DispatchJob → Type 0
Effect s (s', none) =
    (s'.pending ≡ s.pending) × (s'.inflight ≡ s.inflight) × (s'.max_flight ≡ s.max_flight)
Effect s (s', some job) =
    (t : String) × (jobs : List DispatchJob) × (s.pending t ≡ job ∷ jobs)
    × (s.inflight t < s.max_flight)
    × (s'.pending ≡ put t jobs s.pending)
    × (s'.inflight ≡ put t (s.inflight t + 1) s.inflight)
    × (s'.max_flight ≡ s.max_flight)

Effect-skip :
    (idx : ℕ) (s : FairScheduler) (r : FairScheduler × Option DispatchJob)
    → Effect (skip idx s) r
    → Effect s r
Effect-skip idx s (s', none) h = h
Effect-skip idx s (s', some job) h = h

take_job-frame :
    (idx : ℕ) (t : String) (jobs : List DispatchJob) (s : FairScheduler)
    → let s' = take_job idx t jobs s in
      (s'.pending ≡ put t jobs s.pending)
      × (s'.inflight ≡ put t (s.inflight t + 1) s.inflight)
      × (s'.max_flight ≡ s.max_flight)
unfolding take_job
take_job-frame idx t jobs s = (ground arith, ground arith, ground arith)

List-cases :
    (xs : List DispatchJob)
    → (xs ≡ []) ⊎ ((x : DispatchJob) × (ys : List DispatchJob) × (xs ≡ x ∷ ys))
List-cases [] = inl refl
List-cases (x ∷ xs) = inr (x, xs, refl)

search_job-Effect : (rounds : ℕ) (s : FairScheduler) → Effect s (search_job rounds s)
unfolding search_job
search_job-Effect zero s = (refl, refl, refl)
search_job-Effect (suc n) s =
    let idx = s.next % length s.order in
    let t = item_at idx s.order in
    let later = Effect-skip idx s (search_job n (skip idx s)) (search_job-Effect n (skip idx s)) in
    elim (Bool-cases (is_blocked s t || is_spent s t)) [
      | inl b ↦ rw b later
      | inr b ↦ elim (List-cases (s.pending t)) [
        | inl e ↦ rw (b, e) later
        | inr (job, jobs, e) ↦
            let (queues, flights, most) = take_job-frame idx t jobs s in
            rw (b, e) (t, jobs, e, ground arith, queues, flights, most)
      ]
    ]

-- A call for the next job takes the oldest job of some tenant that has fewer jobs in flight than
-- it may, removes it from that queue alone and counts it, or it finds none and leaves the queues
-- and the counts as they are.
pub next_job-Effect : (s : FairScheduler) → Effect s (next_job s)
unfolding next_job
next_job-Effect s = search_job-Effect (length s.order) s

-- The calls that a worker makes.
pub data Event : Type 0 where
  arrives : DispatchJob → Event
  finishes : String → Event
  takes : Event

unfoldable pub step : Event → FairScheduler → FairScheduler
step (arrives job) s = add job s
step (finishes tenant) s = complete tenant s
step takes s = (next_job s).0

unfoldable pub run_events : List Event → FairScheduler → FairScheduler
run_events [] s = s
run_events (e ∷ es) s = run_events es (step e s)

abbrev IsWithin : FairScheduler → Type 0
IsWithin s = (t : String) → s.inflight t ≤ s.max_flight

Effect-IsWithin :
    (s : FairScheduler) (r : FairScheduler × Option DispatchJob)
    → Effect s r
    → IsWithin s
    → IsWithin r.0 × (r.0.max_flight ≡ s.max_flight)
Effect-IsWithin s (s', none) (queues, flights, most) h = (λ t. rw (flights, most) (h t), most)
Effect-IsWithin s (s', some job) (t, jobs, head, room, queues, flights, most) h =
    (λ u. rw (flights, most) (ground (arith, h u)), most)

step-IsWithin :
    (e : Event) (s : FairScheduler)
    → IsWithin s
    → IsWithin (step e s) × ((step e s).max_flight ≡ s.max_flight)
unfolding step add complete
step-IsWithin (arrives job) s h = (h, refl)
step-IsWithin (finishes tenant) s h = (λ t. ground (arith, h t, h tenant), ground arith)
step-IsWithin takes s h = Effect-IsWithin s (next_job s) (next_job-Effect s) h

run_events-IsWithin :
    (es : List Event) (s : FairScheduler)
    → IsWithin s
    → (t : String) → (run_events es s).inflight t ≤ s.max_flight
unfolding run_events
run_events-IsWithin [] s h t = h t
run_events-IsWithin (e ∷ es) s h t =
    let (within, most) = step-IsWithin e s h in
    subst (λ m. (run_events es (step e s)).inflight t ≤ m) most
      (run_events-IsWithin es (step e s) within t)

-- No count of jobs in flight passes the limit that the scheduler was made with.
pub inflight-le :
    (es : List Event) (burst max_flight : ℕ) (t : String)
    → (run_events es (new_fair_scheduler burst max_flight)).inflight t ≤ at_least_one max_flight
unfolding new_fair_scheduler
inflight-le es burst max_flight t =
    run_events-IsWithin es (new_fair_scheduler burst max_flight) (λ u. omega arith) t
