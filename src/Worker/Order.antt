-- ===== src/Worker/Order.antt =====
-- internal/worker/runner.go: the order of each tenant's jobs through the fair scheduler.
use notification_service.Base.{
  ℕ, ◌≡◌, refl, sym, ap, subst, ◌∙◌, String, true, false, ◌==◌, Option, none, some, List, [], ◌∷◌,
  ◌++◌, arith, select, All, inl, inr, Bool-cases, eq_iff, All-append,
}
use mathlib.Core.List.{append_assoc, append-nil}
use notification_service.Delivery.Service.{DispatchJob}
use notification_service.Worker.{FairScheduler, put, add, complete, next_job, new_fair_scheduler}
use notification_service.Worker.Fairness.{
  Effect, next_job-Effect, Event, arrives, finishes, takes, step, run_events,
}

-- The jobs of a tenant among those of a list.
abbrev pub of_tenant : String → List DispatchJob → List DispatchJob
of_tenant t = select (λ j. j.tenant_id == t)

abbrev also : Option DispatchJob → List DispatchJob → List DispatchJob
also none js = js
also (some j) js = j ∷ js

-- The jobs that arrive and those that are taken, in order.
pub arrived : List Event → List DispatchJob
arrived [] = []
arrived (arrives job ∷ es) = job ∷ arrived es
arrived (finishes t ∷ es) = arrived es
arrived (takes ∷ es) = arrived es

pub taken : List Event → FairScheduler → List DispatchJob
taken [] s = []
taken (arrives job ∷ es) s = taken es (add job s)
taken (finishes t ∷ es) s = taken es (complete t s)
taken (takes ∷ es) s = also (next_job s).1 (taken es (next_job s).0)

-- Each queue holds jobs of its tenant.
abbrev pub IsOwned : FairScheduler → Type 0
IsOwned s = (t : String) → All (λ j. j.tenant_id ≡ t) (s.pending t)

pub add-IsOwned : (job : DispatchJob) (s : FairScheduler) → IsOwned s → IsOwned (add job s)
unfolding add
add-IsOwned job s h t = elim (Bool-cases (t == job.tenant_id)) [
  | inl e ↦
      let same : t ≡ job.tenant_id = (eq_iff t job.tenant_id).0 e in
      rw e (
        All-append (λ j. j.tenant_id ≡ t) (s.pending job.tenant_id) (job ∷ []) (rw (sym same) (h t))
          (sym same, tt))
  | inr e ↦ rw e (h t)
]

pub Effect-IsOwned :
    (s : FairScheduler) (r : FairScheduler × Option DispatchJob)
    → Effect s r
    → IsOwned s
    → IsOwned r.0
Effect-IsOwned s (s', none) (queues, flights, most) h t = rw queues (h t)
Effect-IsOwned s (s', some job) (u, jobs, head, room, queues, flights, most) h t =
    elim (Bool-cases (t == u)) [
      | inl e ↦
          let same : t ≡ u = (eq_iff t u).0 e in
          let whole : All (λ j. j.tenant_id ≡ u) (job ∷ jobs) =
            subst (All (λ j. j.tenant_id ≡ u)) head (h u) in
          rw (queues, e, same) whole.1
      | inr e ↦ rw (queues, e) (h t)
    ]

complete-pending : (t : String) (s : FairScheduler) → (complete t s).pending ≡ s.pending
unfolding complete
complete-pending t s = ground arith

pub complete-IsOwned : (t : String) (s : FairScheduler) → IsOwned s → IsOwned (complete t s)
complete-IsOwned t s h u = rw (complete-pending t s) (h u)

add-of_tenant :
    (t : String) (job : DispatchJob) (s : FairScheduler) (js : List DispatchJob)
    → (add job s).pending t ++ of_tenant t js ≡ s.pending t ++ of_tenant t (job ∷ js)
unfolding add
add-of_tenant t job s js = elim (Bool-cases (t == job.tenant_id)) [
  | inl e ↦
      let same : t ≡ job.tenant_id = (eq_iff t job.tenant_id).0 e in
      let mine : (job.tenant_id == t) ≡ true = (eq_iff job.tenant_id t).1 (sym same) in
      rw (e, mine)
        (append_assoc (s.pending job.tenant_id) (job ∷ []) (of_tenant t js)
          ∙ ap (λ u. s.pending u ++ job ∷ of_tenant t js) (sym same))
  | inr e ↦ elim (Bool-cases (job.tenant_id == t)) [
    | inl f ↦
        let never : true ≡ false =
          sym ((eq_iff t job.tenant_id).1 (sym ((eq_iff job.tenant_id t).0 f))) ∙ e in
        cc never
    | inr f ↦ rw (e, f) refl
  ]
]

Effect-of_tenant :
    (t : String) (s : FairScheduler) (r : FairScheduler × Option DispatchJob)
    → Effect s r
    → IsOwned s
    → (js xs ys : List DispatchJob) → of_tenant t js ++ xs ≡ r.0.pending t ++ ys
    → of_tenant t (also r.1 js) ++ xs ≡ s.pending t ++ ys
Effect-of_tenant t s (s', none) (queues, flights, most) h js xs ys e =
    e ∙ ap (λ q. q t ++ ys) queues
Effect-of_tenant t s (s', some job) (u, jobs, head, room, queues, flights, most) h js xs ys e =
    let whole : All (λ j. j.tenant_id ≡ u) (job ∷ jobs) =
      subst (All (λ j. j.tenant_id ≡ u)) head (h u) in
    let rest : of_tenant t js ++ xs ≡ put u jobs s.pending t ++ ys =
      e ∙ ap (λ q. q t ++ ys) queues in
    elim (Bool-cases (t == u)) [
      | inl d ↦
          let same : t ≡ u = (eq_iff t u).0 d in
          let mine : (job.tenant_id == t) ≡ true =
            (eq_iff job.tenant_id t).1 (whole.0 ∙ sym same) in
          let headed : s.pending t ≡ job ∷ jobs = ap s.pending same ∙ head in
          let left : of_tenant t js ++ xs ≡ jobs ++ ys = rw d at rest in
          rw (mine, headed) (ap (λ l. job ∷ l) left)
      | inr d ↦ elim (Bool-cases (job.tenant_id == t)) [
        | inl f ↦
            let never : true ≡ false =
              sym ((eq_iff t u).1 (sym ((eq_iff job.tenant_id t).0 f) ∙ whole.0)) ∙ d in
            cc never
        | inr f ↦ let left : of_tenant t js ++ xs ≡ s.pending t ++ ys = rw d at rest in rw f left
      ]
    ]

run_events-order :
    (es : List Event) (s : FairScheduler) (t : String)
    → IsOwned s
    → of_tenant t (taken es s) ++ (run_events es s).pending t
      ≡ s.pending t ++ of_tenant t (arrived es)
unfolding taken arrived run_events step
run_events-order [] s t h = sym (append-nil (s.pending t))
run_events-order (arrives job ∷ es) s t h =
    run_events-order es (add job s) t (add-IsOwned job s h) ∙ add-of_tenant t job s (arrived es)
run_events-order (finishes u ∷ es) s t h =
    run_events-order es (complete u s) t (complete-IsOwned u s h)
    ∙ ap (λ q. q t ++ of_tenant t (arrived es)) (complete-pending u s)
run_events-order (takes ∷ es) s t h =
    Effect-of_tenant t s (next_job s) (next_job-Effect s) h (taken es (next_job s).0)
      ((run_events es (next_job s).0).pending t) (of_tenant t (arrived es))
      (run_events-order es (next_job s).0 t (Effect-IsOwned s (next_job s) (next_job-Effect s) h))

-- Whatever jobs arrive, finish and are taken, in any order, for each tenant its jobs that were
-- taken, in the order of taking, followed by those that still wait in its queue, are its jobs that
-- arrived, in the order of arrival: none is lost, taken twice or overtaken by another of its
-- tenant.
pub taken-order :
    (es : List Event) (burst max_flight : ℕ) (t : String)
    → let s = new_fair_scheduler burst max_flight in
      of_tenant t (taken es s) ++ (run_events es s).pending t ≡ of_tenant t (arrived es)
unfolding new_fair_scheduler
taken-order es burst max_flight t =
    run_events-order es (new_fair_scheduler burst max_flight) t (λ u. tt)
