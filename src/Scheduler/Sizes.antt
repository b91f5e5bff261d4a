-- ===== src/Scheduler/Sizes.antt =====
-- What `queue_size` counts.
use flowcoro.Base.{
  ℕ, suc, ◌+◌, ◌%◌, ◌≡◌, ◌<◌, refl, sym, Bool, true, false, not, ◌&&◌, ◌||◌, List, [], ◌∷◌, ◌++◌,
  ◌==◌, ltb, length, if◌then◌else◌, word, add64, sub64, arith, Bool-cases, inl, inr,
}
use mathlib.Core.Path.{subst}
use flowcoro.Scheduler.{
  Producer, is_idle, counts_total, enqueues, counts, loads_size, Worker, not_started, tests_stop,
  collects, subtracts, resumes, has_ended, Stopper, not_stopping, joins, drains, drain_subtracts,
  has_stopped, Scheduler, new_scheduler, is_address, batch_limit, schedule_coroutine, resume_one,
  collect, worker_step, at_rest, drain, stop_step, Event, schedules, works, stops, step, run,
}
use flowcoro.Scheduler.Handles.{length-append_one}

-- What the worker and the stopping thread have taken and not yet subtracted.
abbrev pub worker_owes : Worker → ℕ
worker_owes (subtracts batch) = 1
worker_owes _ = 0

abbrev pub stopper_owes : Stopper → ℕ
stopper_owes drain_subtracts = 1
stopper_owes _ = 0

abbrev Counted : ℕ → ℕ → ℕ → ℕ → ℕ → ℕ → Type 0
Counted size entered queued w k counted =
    (size < word) × ((size + entered) % word ≡ (queued + w + k + counted) % word)

abbrev IsCounted : Scheduler → Type 0
IsCounted s =
    Counted s.queue_size (length s.enqueued) (length s.coroutine_queue) (worker_owes s.worker)
      (stopper_owes s.stopper) s.counted

added :
    (size entered queued w k counted : ℕ)
    → Counted size entered queued w k counted
    → Counted (add64 size 1) entered queued w k (suc counted)
added size entered queued w k counted (a, b) = (omega arith, omega (arith, a, b))

subtracted :
    (size entered queued w k counted : ℕ)
    → Counted size entered queued (suc w) k counted
    → Counted (sub64 size 1) entered queued w k counted
subtracted size entered queued w k counted (a, b) = (omega arith, omega (arith, a, b))

entered_one :
    (size entered queued w k counted : ℕ) (xs ys : List ℕ) (g : ℕ)
    → length xs ≡ entered
    → length ys ≡ queued
    → Counted size entered queued w k counted
    → Counted size (length (xs ++ g ∷ [])) (length (ys ++ g ∷ [])) w k counted
entered_one size entered queued w k counted xs ys g e q (a, b) =
    (a, rw (length-append_one xs g, length-append_one ys g, e, q) (omega (arith, a, b)))

left_one :
    (size entered queued w k counted : ℕ)
    → Counted size entered (suc queued) w k counted
    → Counted size entered queued (suc w) k counted
left_one size entered queued w k counted (a, b) = (a, omega (arith, b))

schedule_coroutine-IsCounted :
    (s : Scheduler) (p h : ℕ) (done : Bool) (k : Producer)
    → IsCounted s
    → IsCounted (schedule_coroutine s p h done k)
unfolding schedule_coroutine
schedule_coroutine-IsCounted s p h done is_idle v =
    elim (Bool-cases (h == 0 || done || s.stop_flag || not (is_address h))) [
      | inl e ↦ rw (e, schedule_coroutine) v
      | inr e ↦ rw (e, schedule_coroutine) v
    ]
schedule_coroutine-IsCounted s p h done (counts_total g) v = v
schedule_coroutine-IsCounted s p h done (enqueues g) v =
    entered_one s.queue_size (length s.enqueued) (length s.coroutine_queue) (worker_owes s.worker)
      (stopper_owes s.stopper) s.counted s.enqueued s.coroutine_queue g refl refl v
schedule_coroutine-IsCounted s p h done counts v =
    added s.queue_size (length s.enqueued) (length s.coroutine_queue) (worker_owes s.worker)
      (stopper_owes s.stopper) s.counted v
schedule_coroutine-IsCounted s p h done loads_size v = v

-- What counts, with the worker at a place that is known.
abbrev At : Scheduler → ℕ → List ℕ → Type 0
At s w queue =
    Counted s.queue_size (length s.enqueued) (length queue) w (stopper_owes s.stopper) s.counted

collect-IsCounted :
    (s : Scheduler) (batch queue : List ℕ)
    → At s 0 queue
    → s.coroutine_queue ≡ queue
    → IsCounted (collect s batch queue)
unfolding collect
collect-IsCounted s [] [] v q = subst (At s 0) (sym q) v
collect-IsCounted s (b ∷ bs) [] v q = subst (At s 0) (sym q) v
collect-IsCounted s batch (h ∷ queue) v q = elim (Bool-cases (ltb (length batch) batch_limit)) [
  | inl e ↦
      rw (e, collect)
        (left_one s.queue_size (length s.enqueued) (length queue) 0 (stopper_owes s.stopper)
          s.counted v)
  | inr e ↦ rw (e, collect) (subst (At s 0) (sym q) v)
]

tests_owes : (b : Bool) → worker_owes (if b then has_ended else collects []) ≡ 0
tests_owes true = refl
tests_owes false = refl

resume_one-IsCounted :
    (s : Scheduler) (done : Bool) (h : ℕ) (hs : List ℕ)
    → At s 0 s.coroutine_queue
    → IsCounted (resume_one s done h hs)
unfolding resume_one
resume_one-IsCounted s done h hs v =
    elim (Bool-cases (not (h == 0) && not done && not s.stop_flag)) [
      | inl e ↦ elim (Bool-cases (is_address h)) [ inl a ↦ rw (e, a) v | inr a ↦ rw (e, a) v ]
      | inr e ↦ rw e v
    ]

worker_step-IsCounted :
    (s : Scheduler) (done : Bool) (w : Worker)
    → s.worker ≡ w
    → At s (worker_owes w) s.coroutine_queue
    → IsCounted (worker_step s done w)
unfolding worker_step
worker_step-IsCounted s done not_started at v = v
worker_step-IsCounted s done tests_stop at v =
    subst (λ n. At s n s.coroutine_queue) (sym (tests_owes s.stop_flag)) v
worker_step-IsCounted s done (collects batch) at v =
    collect-IsCounted s batch s.coroutine_queue v refl
worker_step-IsCounted s done (subtracts batch) at v =
    subtracted s.queue_size (length s.enqueued) (length s.coroutine_queue) 0
      (stopper_owes s.stopper) s.counted v
worker_step-IsCounted s done (resumes []) at v = v
worker_step-IsCounted s done (resumes (h ∷ hs)) at v = resume_one-IsCounted s done h hs v
worker_step-IsCounted s done has_ended at v = rw at v

-- What counts, with the stopping thread at a place that is known.
abbrev StoppedAt : Scheduler → ℕ → List ℕ → Type 0
StoppedAt s k queue =
    Counted s.queue_size (length s.enqueued) (length queue) (worker_owes s.worker) k s.counted

drain-IsCounted :
    (s : Scheduler) (done : Bool) (queue : List ℕ)
    → StoppedAt s 0 queue
    → s.coroutine_queue ≡ queue
    → IsCounted (drain s done queue)
unfolding drain
drain-IsCounted s done [] v q = subst (StoppedAt s 0) (sym q) v
drain-IsCounted s done (h ∷ queue) (a, b) q = (a, omega (arith, b))

either : (b : Bool) (x y : Scheduler) → IsCounted x → IsCounted y → IsCounted (if b then x else y)
either true x y p q = p
either false x y p q = q

stop_step-IsCounted :
    (s : Scheduler) (done : Bool) (k : Stopper)
    → s.stopper ≡ k
    → StoppedAt s (stopper_owes k) s.coroutine_queue
    → IsCounted (stop_step s done k)
unfolding stop_step
stop_step-IsCounted s done not_stopping at v =
    either s.stop_flag s (record s { stop_flag = true; stopper = joins }) (rw at v) v
stop_step-IsCounted s done joins at v =
    either (at_rest s.worker) (record s { stopper = drains }) s v (rw at v)
stop_step-IsCounted s done drains at v = drain-IsCounted s done s.coroutine_queue v refl
stop_step-IsCounted s done drain_subtracts at (a, b) = (omega arith, omega (arith, a, b))
stop_step-IsCounted s done has_stopped at v = rw at v

step-IsCounted : (s : Scheduler) (e : Event) → IsCounted s → IsCounted (step s e)
unfolding step
step-IsCounted s (schedules p h done) v = schedule_coroutine-IsCounted s p h done (s.producer p) v
step-IsCounted s (works done) v = worker_step-IsCounted s done s.worker refl v
step-IsCounted s (stops done) v = stop_step-IsCounted s done s.stopper refl v

run-IsCounted : (es : List Event) (s : Scheduler) → IsCounted s → IsCounted (run s es)
unfolding run
run-IsCounted [] s v = v
run-IsCounted (e ∷ es) s v = run-IsCounted es (step s e) (step-IsCounted s e v)

-- In every interleaving on a new scheduler, when each call that has enqueued has also counted,
-- and neither the worker nor the stop is between a `dequeue` and its subtraction, `queue_size` is
-- the length of the queue as a 64-bit number.
pub size_settles :
    (es : List Event)
    → let s = run new_scheduler es in
      s.counted ≡ length s.enqueued
      → worker_owes s.worker ≡ 0
      → stopper_owes s.stopper ≡ 0
      → s.queue_size ≡ length s.coroutine_queue % word
unfolding new_scheduler
size_settles es all w k =
    let (a, b) = run-IsCounted es new_scheduler (omega arith, refl) in
    omega (arith, a, b, all, w, k)
