-- ===== src/Scheduler.antt =====
-- `CoroutineScheduler` of src/coroutine_pool.cpp: the threads that schedule coroutines, the worker and the
-- thread that stops it, one atomic operation at a time, in any order. A handle is its address.
pub mod Handles
pub mod Work
pub mod Order
pub mod Sizes
pub mod Stops
pub mod Deserted
mod Tests
use flowcoro.Base.{
  ℕ, zero, suc, ◌-◌, ◌^◌, Bool, true, false, not, ◌&&◌, ◌||◌, List, [], ◌∷◌, ◌++◌, ◌==◌, ltb,
  length, if◌then◌else◌, update, word, add64, sub64,
}
use flowcoro.Balancer
use flowcoro.Balancer.{Balancer, update_load, on_task_completed}

-- A thread in `schedule_coroutine`, by the operation that comes next.
pub data Producer : Type 0 where
  is_idle : Producer
  counts_total : (h : ℕ) → Producer
  enqueues : (h : ℕ) → Producer
  counts : Producer
  loads_size : Producer

-- The worker, with its batch or what is left of it.
pub data Worker : Type 0 where
  not_started : Worker
  tests_stop : Worker
  collects : (batch : List ℕ) → Worker
  subtracts : (batch : List ℕ) → Worker
  resumes : (left : List ℕ) → Worker
  has_ended : Worker

-- The thread in `stop`.
pub data Stopper : Type 0 where
  not_stopping : Stopper
  joins : Stopper
  drains : Stopper
  drain_subtracts : Stopper
  has_stopped : Stopper

-- What became of a handle that left the queue.
pub data Fate : Type 0 where
  resumed : Fate
  was_skipped : Fate  -- done already, or no address
  left_at_stop : Fate  -- neither resumed nor destroyed
  destroyed : Fate

pub record Outcome : Type 0 where
  pub handle : ℕ
  pub fate : Fate

pub record Scheduler : Type 0 where
  pub coroutine_queue : List ℕ
  pub queue_size : ℕ
  pub total_coroutines : ℕ
  pub completed_coroutines : ℕ
  pub stop_flag : Bool
  pub balancer : Balancer
  pub producer : ℕ → Producer
  pub worker : Worker
  pub stopper : Stopper
  pub enqueued : List ℕ  -- read by no step, as are the next two
  pub outcomes : List Outcome
  pub counted : ℕ  -- how many calls have added to `queue_size`

pub new_scheduler : Scheduler
new_scheduler = record {
  coroutine_queue = [];
  queue_size = 0;
  total_coroutines = 0;
  completed_coroutines = 0;
  stop_flag = false;
  balancer = Balancer.init;
  producer = λ _. is_idle;
  worker = not_started;
  stopper = not_stopping;
  enqueued = [];
  outcomes = [];
  counted = 0;
}

abbrev pub is_address : ℕ → Bool
is_address h = not (ltb h 4096) && not (h == word - 1)

abbrev pub batch_limit : ℕ
batch_limit = 256

abbrev pub ended : Scheduler → ℕ → Fate → Scheduler
ended s h fate = record s { outcomes = s.outcomes ++ (record { handle = h; fate = fate }) ∷ [] }

-- `schedule_coroutine`: the tests, then the operations in their order.
pub schedule_coroutine : Scheduler → ℕ → ℕ → Bool → Producer → Scheduler
schedule_coroutine s p h done is_idle =
    if h == 0 || done || s.stop_flag || not (is_address h)
    then s
    else record s { producer = update s.producer p (counts_total h) }
schedule_coroutine s p h done (counts_total g) = record s {
  total_coroutines = add64 s.total_coroutines 1;
  producer = update s.producer p (enqueues g);
}
schedule_coroutine s p h done (enqueues g) = record s {
  coroutine_queue = s.coroutine_queue ++ g ∷ [];
  enqueued = s.enqueued ++ g ∷ [];
  producer = update s.producer p counts;
}
schedule_coroutine s p h done counts = record s {
  queue_size = add64 s.queue_size 1;
  counted = suc s.counted;
  producer = update s.producer p loads_size;
}
schedule_coroutine s p h done loads_size = record s {
  balancer = update_load s.balancer 0 s.queue_size;
  producer = update s.producer p is_idle;
}

-- The body of the loop over the batch.
pub resume_one : Scheduler → Bool → ℕ → List ℕ → Scheduler
resume_one s done h hs =
    if not (h == 0) && not done && not s.stop_flag
    then record (if is_address h then ended s h resumed else ended s h was_skipped) {
      completed_coroutines = add64 s.completed_coroutines 1;
      balancer = on_task_completed s.balancer 0;
      worker = resumes hs;
    }
    else record (ended s h (if s.stop_flag then left_at_stop else was_skipped)) {
      worker = resumes hs;
    }

-- `dequeue` into the batch, or the end of the batch.
pub collect : Scheduler → List ℕ → List ℕ → Scheduler
collect s [] [] = record s { worker = tests_stop }
collect s (b ∷ bs) [] = record s { worker = resumes (b ∷ bs) }
collect s batch (h ∷ queue) =
    if ltb (length batch) batch_limit
    then record s { coroutine_queue = queue; worker = subtracts (batch ++ h ∷ []) }
    else record s { worker = resumes batch }

-- `worker_loop`; whether the coroutine at hand is done is an argument.
pub worker_step : Scheduler → Bool → Worker → Scheduler
unfolding resume_one collect
worker_step s done not_started = record s { worker = tests_stop }
worker_step s done tests_stop = record s { worker = if s.stop_flag then has_ended else collects [] }
worker_step s done (collects batch) = collect s batch s.coroutine_queue
worker_step s done (subtracts batch) = record s {
  queue_size = sub64 s.queue_size 1;
  worker = collects batch;
}
worker_step s done (resumes []) = record s {
  balancer = update_load s.balancer 0 s.queue_size;
  worker = tests_stop;
}
worker_step s done (resumes (h ∷ hs)) = resume_one s done h hs
worker_step s done has_ended = s

abbrev pub at_rest : Worker → Bool
at_rest not_started = true
at_rest has_ended = true
at_rest _ = false

pub drain : Scheduler → Bool → List ℕ → Scheduler
drain s done [] = record s { stopper = has_stopped }
drain s done (h ∷ queue) = record (ended s h (if done then was_skipped else destroyed)) {
  coroutine_queue = queue;
  stopper = drain_subtracts;
}

-- `stop`: the flag, the join, then the rest of the queue.
pub stop_step : Scheduler → Bool → Stopper → Scheduler
unfolding drain
stop_step s done not_stopping =
    if s.stop_flag then s else record s { stop_flag = true; stopper = joins }
stop_step s done joins = if at_rest s.worker then record s { stopper = drains } else s
stop_step s done drains = drain s done s.coroutine_queue
stop_step s done drain_subtracts = record s { queue_size = sub64 s.queue_size 1; stopper = drains }
stop_step s done has_stopped = s

pub data Event : Type 0 where
  schedules : (p h : ℕ) → (done : Bool) → Event
  works : (done : Bool) → Event
  stops : (done : Bool) → Event

pub step : Scheduler → Event → Scheduler
unfolding schedule_coroutine worker_step stop_step
step s (schedules p h done) = schedule_coroutine s p h done (s.producer p)
step s (works done) = worker_step s done s.worker
step s (stops done) = stop_step s done s.stopper

pub run : Scheduler → List Event → Scheduler
unfolding step
run s [] = s
run s (e ∷ es) = run (step s e) es
