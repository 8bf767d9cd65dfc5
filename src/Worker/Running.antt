-- ===== src/Worker/Running.antt =====
-- internal/worker/runner.go: the jobs of a tenant that run at once.
use notification_service.Base.{
  ℕ, ◌≤◌, ◌≡◌, sym, subst, ◌∙◌, ◌+◌, ◌-◌, String, true, false, ◌==◌, Option, none, some, List, [],
  ◌∷◌, arith, All, inl, inr, Bool-cases, eq_iff, if◌then◌else◌,
}
use notification_service.Delivery.Service.{DispatchJob}
use notification_service.Worker.{
  FairScheduler, at_least_one, add, complete, next_job, new_fair_scheduler,
}
use notification_service.Worker.Fairness.{
  Effect, next_job-Effect, Event, arrives, finishes, takes, step, run_events, inflight-le,
}
use notification_service.Worker.Order.{IsOwned, add-IsOwned, Effect-IsOwned, complete-IsOwned}

-- A job that was taken runs, if it is the tenant's.
abbrev pub started : String → Option DispatchJob → ℕ → ℕ
started t none n = n
started t (some job) n = if job.tenant_id == t then n + 1 else n

-- The jobs of the tenant that were taken and have not finished, from n of them on.
pub running : String → ℕ → List Event → FairScheduler → ℕ
running t n [] s = n
running t n (arrives job ∷ es) s = running t n es (add job s)
running t n (finishes u ∷ es) s = running t (if u == t then n - 1 else n) es (complete u s)
running t n (takes ∷ es) s = running t (started t (next_job s).1 n) es (next_job s).0

Effect-started :
    (t : String) (n : ℕ) (s : FairScheduler) (r : FairScheduler × Option DispatchJob)
    → Effect s r
    → IsOwned s
    → n ≤ s.inflight t
    → started t r.1 n ≤ r.0.inflight t
Effect-started t n s (s', none) (queues, flights, most) owned h = rw flights h
Effect-started t n s (s', some job) (u, jobs, head, room, queues, flights, most) owned h =
    let whole : All (λ j. j.tenant_id ≡ u) (job ∷ jobs) =
      subst (All (λ j. j.tenant_id ≡ u)) head (owned u) in
    rw (flights, whole.0) (ground (arith, h, eq_iff u t, eq_iff t u))

complete-inflight :
    (t u : String) (n : ℕ) (s : FairScheduler)
    → n ≤ s.inflight t
    → (if u == t then n - 1 else n) ≤ (complete u s).inflight t
unfolding complete
complete-inflight t u n s h = elim (Bool-cases (u == t)) [
  | inl e ↦
      let same : u ≡ t = (eq_iff u t).0 e in
      let mine : (t == u) ≡ true = (eq_iff t u).1 (sym same) in
      let h' : n ≤ s.inflight u = subst (λ v. n ≤ s.inflight v) (sym same) h in
      ground (arith, e, mine, h')
  | inr e ↦ elim (Bool-cases (t == u)) [
    | inl f ↦
        let never : true ≡ false = sym ((eq_iff u t).1 (sym ((eq_iff t u).0 f))) ∙ e in cc never
    | inr f ↦ ground (arith, e, f, h)
  ]
]

add-inflight :
    (job : DispatchJob) (s : FairScheduler) (t : String) (n : ℕ)
    → n ≤ s.inflight t
    → n ≤ (add job s).inflight t
unfolding add
add-inflight job s t n h = h

running-le-inflight :
    (es : List Event) (s : FairScheduler) (t : String) (n : ℕ)
    → IsOwned s
    → n ≤ s.inflight t
    → running t n es s ≤ (run_events es s).inflight t
unfolding running run_events step
running-le-inflight [] s t n owned h = h
running-le-inflight (arrives job ∷ es) s t n owned h =
    running-le-inflight es (add job s) t n (add-IsOwned job s owned) (add-inflight job s t n h)
running-le-inflight (finishes u ∷ es) s t n owned h =
    running-le-inflight es (complete u s) t (if u == t then n - 1 else n)
      (complete-IsOwned u s owned) (complete-inflight t u n s h)
running-le-inflight (takes ∷ es) s t n owned h =
    running-le-inflight es (next_job s).0 t (started t (next_job s).1 n)
      (Effect-IsOwned s (next_job s) (next_job-Effect s) owned)
      (Effect-started t n s (next_job s) (next_job-Effect s) owned h)

-- Whatever jobs arrive, finish and are taken, in any order, the jobs of a tenant that were taken
-- and have not finished are never more than the limit that the scheduler was made with, where a
-- limit below one counts as one.
pub running-le :
    (es : List Event) (burst max_flight : ℕ) (t : String)
    → running t 0 es (new_fair_scheduler burst max_flight) ≤ at_least_one max_flight
unfolding new_fair_scheduler
running-le es burst max_flight t =
    let s = new_fair_scheduler burst max_flight in
    let counted : running t 0 es s ≤ (run_events es s).inflight t =
      running-le-inflight es s t 0 (λ u. tt) (omega arith) in
    let most : (run_events es s).inflight t ≤ at_least_one max_flight =
      inflight-le es burst max_flight t in
    omega (arith, counted, most)
