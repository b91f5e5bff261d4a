-- ===== src/Scheduler/Work.antt =====
-- The steps of the worker keep what holds of the handles.
use flowcoro.Base.{
  ℕ, ◌≡◌, ◌≤◌, refl, sym, ap, ◌∙◌, Bool, true, false, not, ◌&&◌, List, [], ◌∷◌, ◌++◌, ◌==◌, ltb,
  length, if◌then◌else◌, append_assoc, add64, arith, Bool-cases, inl, inr,
}
use mathlib.Core.Path.{subst}
use flowcoro.Balancer.{on_task_completed}
use flowcoro.Scheduler.{
  Worker, not_started, tests_stop, collects, subtracts, resumes, has_ended, Stopper, not_stopping,
  joins, drains, drain_subtracts, has_stopped, Fate, resumed, was_skipped, left_at_stop, Scheduler,
  is_address, batch_limit, ended, resume_one, collect, worker_step,
}
use flowcoro.Scheduler.Handles.{
  handles, is_served, in_batch, is_quiet, Stopping, IsSound, out_in_order, all_served-ended,
  length-append_one,
}

pub Stopping-moved :
    (flag : Bool) (w x : Worker) (k : Stopper)
    → (is_quiet w ≡ true → flag ≡ true → is_quiet x ≡ true)
    → Stopping flag w k
    → Stopping flag x k
Stopping-moved flag w x not_stopping q v = v
Stopping-moved flag w x joins q v = v
Stopping-moved flag w x drains q (a, b) = (a, q b a)
Stopping-moved flag w x drain_subtracts q (a, b) = (a, q b a)
Stopping-moved flag w x has_stopped q (a, b) = (a, q b a)

-- The worker moves on with the same batch.
place-IsSound :
    (s : Scheduler) (w x : Worker)
    → s.worker ≡ w
    → in_batch x ≡ in_batch w
    → (is_quiet w ≡ true → s.stop_flag ≡ true → is_quiet x ≡ true)
    → IsSound s
    → IsSound (record s { worker = x })
place-IsSound s w x at same quiet v = record {
  in_order =
      ap (λ b. handles s.outcomes ++ (b ++ s.coroutine_queue)) (same ∙ sym (ap in_batch at))
      ∙ v.in_order;
  served = v.served;
  stopping =
      Stopping-moved s.stop_flag w x s.stopper quiet
        (subst (λ y. Stopping s.stop_flag y s.stopper) at v.stopping);
  room = rw same (subst (λ y. length (in_batch y) ≤ batch_limit) at v.room);
}

tests_batch : (b : Bool) → in_batch (if b then has_ended else collects []) ≡ []
tests_batch true = refl
tests_batch false = refl

tests_quiet : (b : Bool) → b ≡ true → is_quiet (if b then has_ended else collects []) ≡ true
tests_quiet true e = refl
tests_quiet false e = absurd (cc)

collect-IsSound :
    (s : Scheduler) (batch queue : List ℕ)
    → s.worker ≡ collects batch
    → s.coroutine_queue ≡ queue
    → IsSound s
    → IsSound (collect s batch queue)
unfolding collect
collect-IsSound s [] [] at q v = place-IsSound s (collects []) tests_stop at refl (λ a f. refl) v
collect-IsSound s (b ∷ bs) [] at q v =
    place-IsSound s (collects (b ∷ bs)) (resumes (b ∷ bs)) at refl (λ a f. absurd (cc)) v
collect-IsSound s batch (h ∷ queue) at q v = elim (Bool-cases (ltb (length batch) batch_limit)) [
  | inl e ↦ rw (e, collect) (taken-IsSound e)
  | inr e ↦
      rw (e, collect)
        (place-IsSound s (collects batch) (resumes batch) at refl (λ a f. absurd (cc)) v)
]
  where
    order : handles s.outcomes ++ (batch ++ h ∷ queue) ≡ s.enqueued
    order =
        sym (
          ap (λ w. handles s.outcomes ++ (in_batch w ++ s.coroutine_queue)) at
          ∙ ap (λ ys. handles s.outcomes ++ (batch ++ ys)) q)
        ∙ v.in_order

    taken-IsSound :
        ltb (length batch) batch_limit ≡ true
        → IsSound (record s { coroutine_queue = queue; worker = subtracts (batch ++ h ∷ []) })
    taken-IsSound e = record {
      in_order = ap (λ ys. handles s.outcomes ++ ys) (append_assoc batch (h ∷ []) queue) ∙ order;
      served = v.served;
      stopping =
          Stopping-moved s.stop_flag (collects batch) (subtracts (batch ++ h ∷ [])) s.stopper
            (λ a f. absurd (cc)) (subst (λ y. Stopping s.stop_flag y s.stopper) at v.stopping);
      room = ground (arith, length-append_one batch h, e);
    }

-- The first of the batch has come to its end.
left_batch-IsSound :
    (s : Scheduler) (h : ℕ) (hs : List ℕ) (f : Fate)
    → s.worker ≡ resumes (h ∷ hs)
    → (s.stop_flag ≡ false → is_served f ≡ true)
    → IsSound s
    → IsSound (record (ended s h f) { worker = resumes hs })
left_batch-IsSound s h hs f at fine v = record {
  in_order =
      out_in_order s.outcomes h f (hs ++ s.coroutine_queue) s.enqueued
        (sym (ap (λ w. handles s.outcomes ++ (in_batch w ++ s.coroutine_queue)) at) ∙ v.in_order);
  served = λ e. all_served-ended s.outcomes h f (v.served e) (fine e);
  stopping =
      Stopping-moved s.stop_flag (resumes (h ∷ hs)) (resumes hs) s.stopper (λ a f. absurd (cc))
        (subst (λ y. Stopping s.stop_flag y s.stopper) at v.stopping);
  room =
      let was : length (h ∷ hs) ≤ batch_limit =
        subst (λ y. length (in_batch y) ≤ batch_limit) at v.room in
      omega (arith, was);
}

-- Counters and loads are no part of what holds.
pub counted-IsSound :
    (s r : Scheduler)
    → r.outcomes ≡ s.outcomes
    → r.worker ≡ s.worker
    → r.coroutine_queue ≡ s.coroutine_queue
    → r.enqueued ≡ s.enqueued
    → r.stop_flag ≡ s.stop_flag
    → r.stopper ≡ s.stopper
    → IsSound s
    → IsSound r
counted-IsSound s r o w q e f k v = record {
  in_order = rw (o, w, q, e) v.in_order;
  served = λ x. rw o (v.served (rw (← f) x));
  stopping = rw (f, w, k) v.stopping;
  room = rw w v.room;
}

resume_one-IsSound :
    (s : Scheduler) (done : Bool) (h : ℕ) (hs : List ℕ)
    → s.worker ≡ resumes (h ∷ hs)
    → IsSound s
    → IsSound (resume_one s done h hs)
unfolding resume_one
resume_one-IsSound s done h hs at v =
    elim (Bool-cases (not (h == 0) && not done && not s.stop_flag)) [
      | inl e ↦ elim (Bool-cases (is_address h)) [
        | inl a ↦
            rw (e, a)
              (counted-IsSound (record (ended s h resumed) { worker = resumes hs })
                (record (ended s h resumed) {
                  completed_coroutines = add64 s.completed_coroutines 1;
                  balancer = on_task_completed s.balancer 0;
                  worker = resumes hs;
                })
                refl refl refl refl refl refl (left_batch-IsSound s h hs resumed at (λ f. refl) v))
        | inr a ↦
            rw (e, a)
              (counted-IsSound (record (ended s h was_skipped) { worker = resumes hs })
                (record (ended s h was_skipped) {
                  completed_coroutines = add64 s.completed_coroutines 1;
                  balancer = on_task_completed s.balancer 0;
                  worker = resumes hs;
                })
                refl refl refl refl refl refl
                (left_batch-IsSound s h hs was_skipped at (λ f. refl) v))
      ]
      | inr e ↦ rw e (
          left_batch-IsSound s h hs (if s.stop_flag then left_at_stop else was_skipped) at
            (λ f. rw f refl) v)
    ]

pub worker_step-IsSound :
    (s : Scheduler) (done : Bool) (w : Worker)
    → s.worker ≡ w
    → IsSound s
    → IsSound (worker_step s done w)
unfolding worker_step
worker_step-IsSound s done not_started at v =
    place-IsSound s not_started tests_stop at refl (λ a f. refl) v
worker_step-IsSound s done tests_stop at v =
    place-IsSound s tests_stop (if s.stop_flag then has_ended else collects []) at
      (tests_batch s.stop_flag) (λ a f. tests_quiet s.stop_flag f) v
worker_step-IsSound s done (collects batch) at v =
    collect-IsSound s batch s.coroutine_queue at refl v
worker_step-IsSound s done (subtracts batch) at v =
    counted-IsSound (record s { worker = collects batch }) (worker_step s done (subtracts batch))
      refl refl refl refl refl refl
      (place-IsSound s (subtracts batch) (collects batch) at refl (λ a f. absurd (cc)) v)
worker_step-IsSound s done (resumes []) at v =
    counted-IsSound (record s { worker = tests_stop }) (worker_step s done (resumes [])) refl refl
      refl refl refl refl (place-IsSound s (resumes []) tests_stop at refl (λ a f. refl) v)
worker_step-IsSound s done (resumes (h ∷ hs)) at v = resume_one-IsSound s done h hs at v
worker_step-IsSound s done has_ended at v = v
