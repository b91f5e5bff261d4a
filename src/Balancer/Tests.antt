-- ===== src/Balancer/Tests.antt =====
-- The load balancer on concrete histories.
use flowcoro.Base.{◌≤◌, ◌≢◌, List, [], ◌∷◌, arith}
use flowcoro.Balancer.{
  init, Event, counts, selects, updates, increments, completes, set_scheduler_count,
  select_scheduler, update_load, increment_load, decrement_load, on_task_completed, step, run,
}
use flowcoro.Balancer.Choice.{select_scheduler-least}

-- Three schedulers, of which the second has no work.
abbrev working : List Event
working =
    counts 3
    ∷ increments 0
    ∷ increments 0
    ∷ updates 2 7
    ∷ increments 1
    ∷ completes 1
    ∷ selects
    ∷ selects
    ∷ selects
    ∷ []

three-ne-zero : (run init working).scheduler_count ≢ 0
unfolding init run step set_scheduler_count select_scheduler update_load increment_load
    on_task_completed
three-ne-zero = omega arith

select_scheduler-least_example :
    let b = run init working in b.queue_loads (select_scheduler b).0 ≤ 0
unfolding init run step set_scheduler_count select_scheduler update_load increment_load
    on_task_completed decrement_load
select_scheduler-least_example =
    select_scheduler-least working 1 (omega arith) (omega arith) (omega arith)
