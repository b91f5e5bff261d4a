-- ===== src/Scheduler/Tests.antt =====
-- A scheduler with two threads that schedule, its worker, and a stop.
use flowcoro.Base.{
  ℕ, ◌-◌, ◌%◌, ◌≡◌, refl, true, false, List, [], ◌∷◌, ◌++◌, length, has, word, update, arith,
}
use flowcoro.Scheduler.{
  enqueues, has_ended, collects, resumed, new_scheduler, Event, schedules, works, stops, step, run,
  schedule_coroutine, resume_one, collect, worker_step, drain, stop_step,
}
use flowcoro.Scheduler.Handles.{handles, all_served, in_batch}
use flowcoro.Scheduler.Order.{leaves_in_order}
use flowcoro.Scheduler.Sizes.{size_settles}
use flowcoro.Scheduler.Stops.{worker_ends, early_worker_wraps}
use flowcoro.Scheduler.Deserted.{late_enqueue_stays}

abbrev scheduled : ℕ → ℕ → List Event
scheduled p h =
    schedules p h false
    ∷ schedules p 0 false
    ∷ schedules p 0 false
    ∷ schedules p 0 false
    ∷ schedules p 0 false
    ∷ []

abbrev worked : List Event
worked = works false ∷ works false ∷ works false ∷ works false ∷ works false ∷ []

-- Thread 1 enqueues while the worker has the handle of thread 0.
abbrev busy : List Event
busy = scheduled 0 5000 ++ worked ++ scheduled 1 6000 ++ worked ++ worked ++ worked

-- Thread 1 is about to enqueue when the queue has been drained.
abbrev stopped : List Event
stopped =
    scheduled 0 5000
    ++ (schedules 1 6000 false ∷ schedules 1 0 false ∷ stops false ∷ stops false ∷ [])
    ++ (stops false ∷ stops false ∷ stops false ∷ [])

leaves_in_order_example :
    let s = run new_scheduler busy in
    (handles s.outcomes ++ (in_batch s.worker ++ s.coroutine_queue) ≡ s.enqueued)
    × (s.stop_flag ≡ false → all_served s.outcomes ≡ true)
unfolding run step new_scheduler
leaves_in_order_example = leaves_in_order busy

both_resumed :
    (run new_scheduler busy).outcomes
    ≡ (record { handle = 5000; fate = resumed }) ∷ (record { handle = 6000; fate = resumed }) ∷ []
unfolding run step new_scheduler schedule_coroutine resume_one collect worker_step drain stop_step
both_resumed = refl

abbrev settled : List Event
settled = scheduled 0 5000 ++ (works false ∷ works false ∷ works false ∷ works false ∷ [])

all_counted : (run new_scheduler settled).counted ≡ length (run new_scheduler settled).enqueued
unfolding run step new_scheduler schedule_coroutine resume_one collect worker_step drain stop_step
all_counted = omega arith

size_settles_example :
    (run new_scheduler settled).queue_size
    ≡ length (run new_scheduler settled).coroutine_queue % word
unfolding run step new_scheduler schedule_coroutine resume_one collect worker_step drain stop_step
size_settles_example = size_settles settled all_counted (omega arith) (omega arith)

worker_ends_example :
    (run (run new_scheduler (works false ∷ stops false ∷ [])) worked).worker ≡ has_ended
unfolding run step new_scheduler worker_step stop_step
worker_ends_example = worker_ends (works false ∷ stops false ∷ []) worked refl (omega arith)

late_enqueue_stays_example :
    has 6000 (run (run new_scheduler stopped) (schedules 1 0 false ∷ worked)).coroutine_queue ≡ true
unfolding run step new_scheduler schedule_coroutine resume_one collect worker_step drain stop_step
late_enqueue_stays_example = late_enqueue_stays stopped worked 1 6000 refl refl

worker_wraps_size :
    let waiting = record (run new_scheduler busy) {
      coroutine_queue = [];
      queue_size = 0;
      worker = collects [];
      producer = update (run new_scheduler busy).producer 2 (enqueues 7000);
    } in
    (run waiting (schedules 2 0 false ∷ works false ∷ works false ∷ [])).queue_size ≡ word - 1
worker_wraps_size = early_worker_wraps (run new_scheduler busy) 2 7000
