-- ===== src/Examples/Publisher.antt =====
-- One publisher, two intents that wait, and a queue that takes every job.
use notification_service.Base.{◌≡◌, ◌≢◌, refl, none, [], ◌∷◌, ◌++◌, ◌*◌, List, ℕ, String, arith}
use notification_service.Base.Table.{find, count}
use notification_service.Store.Model.{Time}
use notification_service.Store.Outbox.{second}
use notification_service.Delivery.Service.{DispatchJob}
use notification_service.Publisher.{
  DispatchQueue, World, finished, out_of_fuel, is_delayed, run_once,
}
use notification_service.Publisher.Termination.{run_once-ends}
use notification_service.Publisher.Drained.{IsDrained, run_once-drains}
use notification_service.Examples.Fixtures.{two_ready}

abbrev accepting : DispatchQueue (List DispatchJob)
accepting = record {
  pressure_snapshot = λ jobs. (jobs, none);
  enqueue_dispatch = λ j jobs. (jobs ++ j ∷ [], none);
}

abbrev clock : ℕ → Time
clock tick = tick * second

abbrev generate_id : String → ℕ → String
generate_id prefix n = prefix

abbrev start : World (List DispatchJob)
start = record { tables = two_ready; queue = []; ticks = 1; ids = 0 }

run_once-ends_example : (run_once accepting clock generate_id 100 3 start).1 ≢ out_of_fuel
unfolding find count
run_once-ends_example =
    run_once-ends accepting clock generate_id 100 3 start (refl, (refl, tt)) (omega arith)

run_once-drains_example :
    let (w', ending) = run_once accepting clock generate_id 100 3 start in
    (ending ≡ finished) × ((t : Time) × IsDrained t w'.tables)
unfolding find count is_delayed
run_once-drains_example =
    run_once-drains accepting clock generate_id 100 (λ j jobs. refl) 3 start (λ jobs. refl)
      (refl, (refl, tt)) (omega arith)
