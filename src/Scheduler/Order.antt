-- ===== src/Scheduler/Order.antt =====
-- Handles leave the queue in the order in which they came, and none is lost before a stop.
use flowcoro.Base.{
  ℕ, ◌≡◌, refl, sym, ap, ◌∙◌, Bool, true, false, List, [], ◌∷◌, ◌++◌, if◌then◌else◌, arith,
}
use mathlib.Core.Path.{subst}
use flowcoro.Scheduler.{
  Worker, not_started, tests_stop, collects, subtracts, resumes, has_ended, Stopper, not_stopping,
  joins, drains, drain_subtracts, has_stopped, was_skipped, destroyed, Scheduler, new_scheduler,
  at_rest, drain, stop_step, Event, schedules, works, stops, step, run,
}
use flowcoro.Scheduler.Handles.{
  handles, all_served, in_batch, is_quiet, Stopping, IsSound, out_in_order,
  schedule_coroutine-IsSound,
}
use flowcoro.Scheduler.Work.{worker_step-IsSound}

-- A thread that rests has no batch.
rest_quiet : (w : Worker) → at_rest w ≡ true → is_quiet w ≡ true
rest_quiet not_started e = refl
rest_quiet has_ended e = refl
rest_quiet tests_stop e = refl
rest_quiet (collects batch) e = absurd (cc)
rest_quiet (subtracts batch) e = absurd (cc)
rest_quiet (resumes left) e = absurd (cc)

quiet_batch : (w : Worker) → is_quiet w ≡ true → in_batch w ≡ []
quiet_batch not_started e = refl
quiet_batch has_ended e = refl
quiet_batch tests_stop e = refl
quiet_batch (collects batch) e = absurd (cc)
quiet_batch (subtracts batch) e = absurd (cc)
quiet_batch (resumes left) e = absurd (cc)

drain-IsSound :
    (s : Scheduler) (done : Bool) (queue : List ℕ)
    → s.coroutine_queue ≡ queue
    → s.stop_flag ≡ true
    → is_quiet s.worker ≡ true
    → IsSound s
    → IsSound (drain s done queue)
unfolding drain
drain-IsSound s done [] q flag quiet v = record {
  in_order = v.in_order;
  served = v.served;
  stopping = (flag, quiet);
  room = v.room;
}
drain-IsSound s done (h ∷ queue) q flag quiet v =
    let none = quiet_batch s.worker quiet in
    record {
      in_order =
          out_in_order s.outcomes h (if done then was_skipped else destroyed)
            (in_batch s.worker ++ queue) s.enqueued
            (ap (λ b. handles s.outcomes ++ h ∷ (b ++ queue)) none
              ∙ sym (
                  ap (λ b. handles s.outcomes ++ (b ++ s.coroutine_queue)) none
                  ∙ ap (λ ys. handles s.outcomes ++ ys) q)
              ∙ v.in_order);
      served = λ e. absurd (ground (arith, e, flag));
      stopping = (flag, quiet);
      room = v.room;
    }

stop_step-IsSound :
    (s : Scheduler) (done : Bool) (k : Stopper)
    → s.stopper ≡ k
    → IsSound s
    → IsSound (stop_step s done k)
unfolding stop_step
stop_step-IsSound s done not_stopping at v =
    either s.stop_flag s (record s { stop_flag = true; stopper = joins }) v
      record { in_order = v.in_order; served = λ e. absurd (cc); stopping = refl; room = v.room }
  where
    either : (b : Bool) (x y : Scheduler) → IsSound x → IsSound y → IsSound (if b then x else y)
    either true x y p q = p
    either false x y p q = q
stop_step-IsSound s done joins at v = joined (at_rest s.worker) refl
  where
    joined :
        (b : Bool) → at_rest s.worker ≡ b → IsSound (if b then record s { stopper = drains } else s)
    joined true e = record {
      in_order = v.in_order;
      served = v.served;
      stopping =
          (subst (λ k. Stopping s.stop_flag s.worker k) at v.stopping, rest_quiet s.worker e);
      room = v.room;
    }
    joined false e = v
stop_step-IsSound s done drains at v =
    let (flag, quiet) = subst (λ k. Stopping s.stop_flag s.worker k) at v.stopping in
    drain-IsSound s done s.coroutine_queue refl flag quiet v
stop_step-IsSound s done drain_subtracts at v = record {
  in_order = v.in_order;
  served = v.served;
  stopping = subst (λ k. Stopping s.stop_flag s.worker k) at v.stopping;
  room = v.room;
}
stop_step-IsSound s done has_stopped at v = v

pub step-IsSound : (s : Scheduler) (e : Event) → IsSound s → IsSound (step s e)
unfolding step
step-IsSound s (schedules p h done) v = schedule_coroutine-IsSound s p h done (s.producer p) v
step-IsSound s (works done) v = worker_step-IsSound s done s.worker refl v
step-IsSound s (stops done) v = stop_step-IsSound s done s.stopper refl v

run-IsSound : (es : List Event) (s : Scheduler) → IsSound s → IsSound (run s es)
unfolding run
run-IsSound [] s v = v
run-IsSound (e ∷ es) s v = run-IsSound es (step s e) (step-IsSound s e v)

pub run-new-IsSound : (es : List Event) → IsSound (run new_scheduler es)
unfolding new_scheduler
run-new-IsSound es =
    run-IsSound es new_scheduler
      record { in_order = refl; served = λ e. refl; stopping = tt; room = omega arith }

-- In every interleaving of the threads that schedule, the worker and a stop, on a new scheduler:
-- the handles that have come to their end, those in the worker's batch and those in the queue
-- are, in this order, those that were enqueued; and while no stop has been asked for, each that
-- has come to its end was resumed, or was found done or to be no address.
pub leaves_in_order :
    (es : List Event)
    → let s = run new_scheduler es in
      (handles s.outcomes ++ (in_batch s.worker ++ s.coroutine_queue) ≡ s.enqueued)
      × (s.stop_flag ≡ false → all_served s.outcomes ≡ true)
leaves_in_order es = let v = run-new-IsSound es in (v.in_order, v.served)
