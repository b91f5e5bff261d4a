-- ===== src/Scheduler/Stops.antt =====
-- The worker ends after a stop.
use flowcoro.Base.{
  ℕ, suc, ◌+◌, ◌-◌, ◌*◌, ◌≡◌, ◌≤◌, ◌<◌, refl, ap, ◌∙◌, Bool, true, false, List, [], ◌∷◌, ltb,
  length, eq→==, if◌then◌else◌, update, word, arith, Bool-cases, inl, inr,
}
use flowcoro.Scheduler.{
  Producer, enqueues, Worker, not_started, tests_stop, collects, subtracts, resumes, has_ended,
  Stopper, not_stopping, joins, drains, drain_subtracts, has_stopped, Scheduler, new_scheduler,
  batch_limit, schedule_coroutine, resume_one, collect, worker_step, drain, stop_step, Event,
  schedules, works, stops, step, run,
}
use flowcoro.Scheduler.Handles.{in_batch, length-append_one, IsSound}
use flowcoro.Scheduler.Order.{step-IsSound, run-new-IsSound}

-- How many steps the worker has left once the flag is set.
abbrev pub steps_left : Worker → ℕ
steps_left not_started = 2
steps_left tests_stop = 1
steps_left (collects batch) = 2 * (batch_limit - length batch) + batch_limit + 3
steps_left (subtracts batch) = 2 * (batch_limit - length batch) + batch_limit + 4
steps_left (resumes left) = length left + 2
steps_left has_ended = 0

-- How many of the events are steps of the worker.
abbrev pub worker_steps : List Event → ℕ
worker_steps [] = 0
worker_steps (works done ∷ es) = suc (worker_steps es)
worker_steps (schedules p h done ∷ es) = worker_steps es
worker_steps (stops done ∷ es) = worker_steps es

collect_moves :
    (s : Scheduler) (batch queue : List ℕ)
    → length batch ≤ batch_limit
    → steps_left (collect s batch queue).worker < steps_left (collects batch)
unfolding collect
collect_moves s [] [] few = omega arith
collect_moves s (b ∷ bs) [] few = omega (arith, few)
collect_moves s batch (h ∷ queue) few = elim (Bool-cases (ltb (length batch) batch_limit)) [
  | inl e ↦ rw (e, collect) (ground (arith, e, length-append_one batch h))
  | inr e ↦ rw (e, collect) (omega (arith, few))
]

resume_one_moves :
    (s : Scheduler) (done : Bool) (h : ℕ) (hs : List ℕ)
    → (resume_one s done h hs).worker ≡ resumes hs
unfolding resume_one
resume_one_moves s done h hs = ground arith

pub tests_moves : (b : Bool) → b ≡ true → (if b then has_ended else collects []) ≡ has_ended
tests_moves true e = refl
tests_moves false e = absurd (cc)

worker_moves :
    (s : Scheduler) (done : Bool) (w : Worker)
    → s.stop_flag ≡ true
    → s.worker ≡ w
    → length (in_batch w) ≤ batch_limit
    → steps_left (worker_step s done w).worker ≤ steps_left w - 1
unfolding worker_step
worker_moves s done not_started flag at few = omega arith
worker_moves s done tests_stop flag at few = rw (tests_moves s.stop_flag flag) (omega arith)
worker_moves s done (collects batch) flag at few =
    let less = collect_moves s batch s.coroutine_queue few in omega (arith, less)
worker_moves s done (subtracts batch) flag at few = omega arith
worker_moves s done (resumes []) flag at few = omega arith
worker_moves s done (resumes (h ∷ hs)) flag at few = rw (resume_one_moves s done h hs) (omega arith)
worker_moves s done has_ended flag at few = rw at (omega arith)

pub schedule_coroutine_apart :
    (s : Scheduler) (p h : ℕ) (done : Bool) (k : Producer)
    → let r = schedule_coroutine s p h done k in
      (r.worker ≡ s.worker) × (r.stop_flag ≡ s.stop_flag) × (r.stopper ≡ s.stopper)
unfolding schedule_coroutine
schedule_coroutine_apart s p h done k = ground arith

stop_step_apart :
    (s : Scheduler) (done : Bool) (k : Stopper)
    → let r = stop_step s done k in
      (r.worker ≡ s.worker) × (s.stop_flag ≡ true → r.stop_flag ≡ true)
unfolding stop_step
stop_step_apart s done not_stopping = ground arith
stop_step_apart s done joins = ground arith
stop_step_apart s done drains = drain_apart s.coroutine_queue
  where
    drain_apart :
        (queue : List ℕ)
        → ((drain s done queue).worker ≡ s.worker)
          × (s.stop_flag ≡ true → (drain s done queue).stop_flag ≡ true)
    drain_apart [] = (refl, λ e. e)
    drain_apart (h ∷ queue) = (refl, λ e. e)
stop_step_apart s done drain_subtracts = (refl, λ e. e)
stop_step_apart s done has_stopped = (refl, λ e. e)

collect_apart :
    (s : Scheduler) (batch queue : List ℕ)
    → ((collect s batch queue).stop_flag ≡ s.stop_flag)
      × ((collect s batch queue).stopper ≡ s.stopper)
unfolding collect
collect_apart s [] [] = (refl, refl)
collect_apart s (b ∷ bs) [] = (refl, refl)
collect_apart s batch (h ∷ queue) = ground arith

pub worker_step_apart :
    (s : Scheduler) (done : Bool) (w : Worker)
    → let r = worker_step s done w in (r.stop_flag ≡ s.stop_flag) × (r.stopper ≡ s.stopper)
unfolding worker_step resume_one
worker_step_apart s done not_started = (refl, refl)
worker_step_apart s done tests_stop = (refl, refl)
worker_step_apart s done (collects batch) = collect_apart s batch s.coroutine_queue
worker_step_apart s done (subtracts batch) = (refl, refl)
worker_step_apart s done (resumes []) = (refl, refl)
worker_step_apart s done (resumes (h ∷ hs)) = ground arith
worker_step_apart s done has_ended = (refl, refl)

flag_stays : (s : Scheduler) (e : Event) → s.stop_flag ≡ true → (step s e).stop_flag ≡ true
unfolding step
flag_stays s (schedules p h done) f = (schedule_coroutine_apart s p h done (s.producer p)).1 ∙ f
flag_stays s (works done) f = (worker_step_apart s done s.worker).0 ∙ f
flag_stays s (stops done) f = (stop_step_apart s done s.stopper).1 f

steps_run_out :
    (es : List Event) (s : Scheduler)
    → IsSound s
    → s.stop_flag ≡ true
    → steps_left (run s es).worker ≤ steps_left s.worker - worker_steps es
unfolding run
steps_run_out [] s v f = omega arith
steps_run_out (schedules p h done ∷ es) s v f =
    let later =
      steps_run_out es (step s (schedules p h done)) (step-IsSound s (schedules p h done) v)
        (flag_stays s (schedules p h done) f) in
    let same : steps_left (step s (schedules p h done)).worker ≡ steps_left s.worker =
      ap steps_left (schedule_coroutine_apart s p h done (s.producer p)).0 in
    omega (arith, later, same)
steps_run_out (stops done ∷ es) s v f =
    let later =
      steps_run_out es (step s (stops done)) (step-IsSound s (stops done) v)
        (flag_stays s (stops done) f) in
    let same : steps_left (step s (stops done)).worker ≡ steps_left s.worker =
      ap steps_left (stop_step_apart s done s.stopper).0 in
    omega (arith, later, same)
steps_run_out (works done ∷ es) s v f =
    let later =
      steps_run_out es (step s (works done)) (step-IsSound s (works done) v)
        (flag_stays s (works done) f) in
    let one : steps_left (step s (works done)).worker ≤ steps_left s.worker - 1 =
      worker_moves s done s.worker f refl v.room in
    omega (arith, later, one)

none_left : (w : Worker) → steps_left w ≡ 0 → w ≡ has_ended
none_left not_started e = absurd (omega (arith, e))
none_left tests_stop e = absurd (omega (arith, e))
none_left (collects batch) e = absurd (omega (arith, e))
none_left (subtracts batch) e = absurd (omega (arith, e))
none_left (resumes left) e = absurd (omega (arith, e))
none_left has_ended e = refl

-- In every interleaving on a new scheduler, once the stop flag is set, the worker has ended when
-- it has made as many further steps as `steps_left` counts, whatever the other threads do between
-- them.
pub worker_ends :
    (es fs : List Event)
    → let s = run new_scheduler es in
      s.stop_flag ≡ true → steps_left s.worker ≤ worker_steps fs → (run s fs).worker ≡ has_ended
worker_ends es fs f enough =
    let s = run new_scheduler es in
    let out = steps_run_out fs s (run-new-IsSound es) f in
    none_left (run s fs).worker (omega (arith, out, enough))

-- A worker that takes a handle before its call has counted it makes the size of an empty queue wrap.
pub early_worker_wraps :
    (s : Scheduler) (p h : ℕ)
    → let waiting = record s {
      coroutine_queue = [];
      queue_size = 0;
      worker = collects [];
      producer = update s.producer p (enqueues h);
    } in
      (run waiting (schedules p 0 false ∷ works false ∷ works false ∷ [])).queue_size ≡ word - 1
unfolding run step schedule_coroutine worker_step collect
early_worker_wraps s p h = rw (eq→== p p refl) refl
