-- ===== src/Examples/Worker.antt =====
-- The fair scheduler on the jobs of two tenants.
use notification_service.Base.{◌≤◌, ◌≡◌, refl, List, [], ◌∷◌, ◌++◌, some}
use notification_service.Worker.{
  FairScheduler, new_fair_scheduler, next_job, search_job, add, at_least_one, item_at,
}
use notification_service.Worker.Fairness.{
  Event, arrives, finishes, takes, run_events, Effect, next_job-Effect,
}
use notification_service.Worker.Running.{running, running-le}
use notification_service.Worker.Order.{of_tenant, taken, arrived, taken-order}
use notification_service.Examples.Fixtures.{job}

abbrev events : List Event
events =
    arrives job
    ∷ (arrives (record job { tenant_id = "other" })
        ∷ (arrives job ∷ (takes ∷ (takes ∷ (takes ∷ (finishes "acme" ∷ (takes ∷ [])))))))

running-le_example : running "acme" 0 events (new_fair_scheduler 2 1) ≤ at_least_one 1
running-le_example = running-le events 2 1 "acme"

taken-order_example :
    of_tenant "acme" (taken events (new_fair_scheduler 2 1))
      ++ (run_events events (new_fair_scheduler 2 1)).pending "acme"
    ≡ of_tenant "acme" (arrived events)
taken-order_example = taken-order events 2 1 "acme"

abbrev waiting : FairScheduler
waiting = add job (add (record job { tenant_id = "other" }) (new_fair_scheduler 2 1))

next_job-Effect_example : Effect waiting (next_job waiting)
next_job-Effect_example = next_job-Effect waiting

-- The first tenant that came is served first.
first_served : (next_job waiting).1 ≡ some (record job { tenant_id = "other" })
unfolding next_job search_job add new_fair_scheduler item_at
first_served = refl
