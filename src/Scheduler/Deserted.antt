-- ===== src/Scheduler/Deserted.antt =====
-- A handle that is enqueued after a stop stays in the queue.
use flowcoro.Base.{
  ℕ, ◌≡◌, refl, sym, ap, ◌∙◌, Bool, true, false, not, ◌||◌, List, [], ◌∷◌, ◌==◌, has,
  has-append_right, has-append_left, has_self, Bool-cases, inl, inr,
}
use mathlib.Core.Path.{subst}
use flowcoro.Scheduler.{
  Producer, is_idle, counts_total, enqueues, counts, loads_size, Worker, not_started, tests_stop,
  collects, subtracts, resumes, has_ended, has_stopped, Scheduler, new_scheduler, is_address,
  schedule_coroutine, worker_step, stop_step, Event, schedules, works, stops, step, run,
}
use flowcoro.Scheduler.Handles.{is_quiet, Stopping}
use flowcoro.Scheduler.Order.{run-new-IsSound}
use flowcoro.Scheduler.Stops.{schedule_coroutine_apart, worker_step_apart, tests_moves}

-- Nobody takes from the queue any more.
record IsDeserted (h : ℕ) (s : Scheduler) : Type 0 where
  pub flag : s.stop_flag ≡ true
  pub over : s.stopper ≡ has_stopped
  pub quiet : is_quiet s.worker ≡ true
  pub there : has h s.coroutine_queue ≡ true

quiet_step :
    (s : Scheduler) (done : Bool) (w : Worker)
    → s.worker ≡ w
    → s.stop_flag ≡ true
    → is_quiet w ≡ true
    → (is_quiet (worker_step s done w).worker ≡ true)
      × ((worker_step s done w).coroutine_queue ≡ s.coroutine_queue)
unfolding worker_step
quiet_step s done not_started at f q = (refl, refl)
quiet_step s done tests_stop at f q = (rw (tests_moves s.stop_flag f) refl, refl)
quiet_step s done (collects batch) at f q = absurd (cc)
quiet_step s done (subtracts batch) at f q = absurd (cc)
quiet_step s done (resumes left) at f q = absurd (cc)
quiet_step s done has_ended at f q = (rw at refl, refl)

queue_grows :
    (s : Scheduler) (p i : ℕ) (done : Bool) (k : Producer) (h : ℕ)
    → has h s.coroutine_queue ≡ true
    → has h (schedule_coroutine s p i done k).coroutine_queue ≡ true
unfolding schedule_coroutine
queue_grows s p i done is_idle h e =
    elim (Bool-cases (i == 0 || done || s.stop_flag || not (is_address i))) [
      | inl b ↦ rw (b, schedule_coroutine) e
      | inr b ↦ rw (b, schedule_coroutine) e
    ]
queue_grows s p i done (counts_total g) h e = e
queue_grows s p i done (enqueues g) h e = has-append_left h s.coroutine_queue (g ∷ []) e
queue_grows s p i done counts h e = e
queue_grows s p i done loads_size h e = e

step-IsDeserted : (h : ℕ) (s : Scheduler) (e : Event) → IsDeserted h s → IsDeserted h (step s e)
unfolding step stop_step
step-IsDeserted h s (schedules p i done) v =
    let (w, f, k) = schedule_coroutine_apart s p i done (s.producer p) in
    record {
      flag = f ∙ v.flag;
      over = k ∙ v.over;
      quiet = ap is_quiet w ∙ v.quiet;
      there = queue_grows s p i done (s.producer p) h v.there;
    }
step-IsDeserted h s (works done) v =
    let (f, k) = worker_step_apart s done s.worker in
    let (quiet, same) = quiet_step s done s.worker refl v.flag v.quiet in
    record {
      flag = f ∙ v.flag;
      over = k ∙ v.over;
      quiet = quiet;
      there = ap (has h) same ∙ v.there;
    }
step-IsDeserted h s (stops done) v =
    subst (λ r. IsDeserted h r) (sym (ap (stop_step s done) v.over)) v

run-IsDeserted :
    (h : ℕ) (es : List Event) (s : Scheduler) → IsDeserted h s → IsDeserted h (run s es)
unfolding run
run-IsDeserted h [] s v = v
run-IsDeserted h (e ∷ es) s v = run-IsDeserted h es (step s e) (step-IsDeserted h s e v)

-- If a stop has finished, in any interleaving on a new scheduler, while a thread is in
-- `schedule_coroutine` behind the test of the flag and before it enqueues, the handle that it
-- then enqueues stays in the queue whatever follows.
pub late_enqueue_stays :
    (es fs : List Event) (p h : ℕ)
    → let s = run new_scheduler es in
      s.stopper ≡ has_stopped
      → s.producer p ≡ enqueues h
      → has h (run s (schedules p 0 false ∷ fs)).coroutine_queue ≡ true
unfolding run step schedule_coroutine
late_enqueue_stays es fs p h over at =
    let s = run new_scheduler es in
    let (flag, quiet) =
      subst (λ k. Stopping s.stop_flag s.worker k) over (run-new-IsSound es).stopping in
    (run-IsDeserted h fs (step s (schedules p 0 false)) (
      rw (at, step, schedule_coroutine)
        record {
          flag = flag;
          over = over;
          quiet = quiet;
          there = has-append_right h s.coroutine_queue (h ∷ []) (has_self h []);
        })).there
