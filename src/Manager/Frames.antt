-- ===== src/Manager/Frames.antt =====
-- The handles of the two queues, while calls that have popped their batches resume or destroy them
-- (`process_ready_queue` and `process_pending_tasks` of include/flowcoro/coroutine_manager.h).
use flowcoro.Base.{
  ℕ, zero, suc, ◌+◌, ◌-◌, ◌≡◌, refl, Bool, true, false, not, ◌||◌, Option, none, some, List, [],
  ◌∷◌, ◌++◌, ◌==◌, ltb, length, take, drop, has, if◌then◌else◌, Bool-cases, inl, inr, arith,
  occurrences, occurrences-append,
}
use flowcoro.Manager.{
  TimerEntry, Popped, Manager, init, add_timer, add_timer_enhanced, cancel_timer, pop_top,
  is_wanted, dispatch, fire_due, timer_batch, batch_size, with_batch, next_popped,
  process_ready_queue, schedule_destroy, process_pending_tasks, expire, filter_first,
  filter_expired, hand_on, take_due, is_empty, timer_thread_step, Event, adds, adds_enhanced,
  cancels, processes_timers, processes_ready, abandons, processes_pending, timer_thread, stops,
  step, run,
}

abbrev pub handles : List Popped → List ℕ
handles [] = []
handles (x ∷ xs) = x.popped ∷ handles xs

-- A batch holds what it was made of.
with_batch-occurrences :
    (h call : ℕ) (hs : List ℕ) (others : List Popped)
    → occurrences h (handles (with_batch call hs others))
      ≡ occurrences h hs + occurrences h (handles others)
unfolding with_batch
with_batch-occurrences h call [] others = omega arith
with_batch-occurrences h call (x ∷ hs) others =
    omega (arith, with_batch-occurrences h call hs others)

take-drop-occurrences :
    (h n : ℕ) (xs : List ℕ)
    → occurrences h (take n xs) + occurrences h (drop n xs) ≡ occurrences h xs
take-drop-occurrences h zero [] = refl
take-drop-occurrences h zero (x ∷ xs) = omega arith
take-drop-occurrences h (suc n) [] = refl
take-drop-occurrences h (suc n) (x ∷ xs) = omega (arith, take-drop-occurrences h n xs)

-- The next handle leaves the batches, and nothing else does.
abbrev Left : ℕ → List Popped → Option (ℕ × List Popped) → Type 0
Left h xs none = Unit {0}
Left h xs (some (y, rest)) =
    occurrences h (handles xs) ≡ (if y == h then 1 else 0) + occurrences h (handles rest)

past :
    (h : ℕ) (x : Popped) (xs : List Popped) (o : Option (ℕ × List Popped))
    → Left h xs o
    → Left h (x ∷ xs) (elim o [ none ↦ none | some (y, rest) ↦ some (y, x ∷ rest) ])
past h x xs none v = tt
past h x xs (some (y, rest)) v = omega (arith, v)

next_popped-Left : (h call : ℕ) (xs : List Popped) → Left h xs (next_popped call xs)
unfolding next_popped
next_popped-Left h call [] = tt
next_popped-Left h call (x ∷ xs) = elim (Bool-cases (x.call == call)) [
  | inl e ↦ rw (e, next_popped) refl
  | inr e ↦ rw (e, next_popped) (past h x xs (next_popped call xs) (next_popped-Left h call xs))
]

-- Every handle that was put into a queue is in the queue, in a batch, or dealt with.
record IsCounted (h : ℕ) (m : Manager) : Type 0 where
  pub ready :
      occurrences h m.taken + occurrences h (handles m.resuming) + occurrences h m.ready_queue
      ≡ occurrences h m.readied
  pub frames :
      occurrences h m.destroyed
        + occurrences h (handles m.destroying)
        + occurrences h m.destroy_queue
      ≡ occurrences h m.abandoned

dispatch-IsCounted :
    (h : ℕ) (m : Manager) (now : ℕ) (done : ℕ → Bool) (e : TimerEntry) (rest : List TimerEntry)
    → IsCounted h m
    → IsCounted h (dispatch m now done e rest)
unfolding dispatch
dispatch-IsCounted h m now done e rest v = elim (Bool-cases (is_wanted m done e)) [
  | inl w ↦ rw w record {
    ready = omega (
      arith,
      v.ready,
      occurrences-append h m.ready_queue (e.handle ∷ []),
      occurrences-append h m.readied (e.handle ∷ []),
    );
    frames = v.frames;
  }
  | inr w ↦ rw w record { ready = v.ready; frames = v.frames }
]

fire_due-IsCounted_at :
    (h : ℕ) (fuel : ℕ) (m : Manager) (now : ℕ) (done : ℕ → Bool) (room : ℕ)
    → ((m : Manager) (room : ℕ) → IsCounted h m → IsCounted h (fire_due fuel m now done room))
    → (o : Option (TimerEntry × List TimerEntry)) → pop_top m.timer_queue ≡ o
    → IsCounted h m
    → IsCounted h (fire_due (suc fuel) m now done room)
unfolding fire_due
fire_due-IsCounted_at h fuel m now done room ih none at v = rw (at, fire_due) v
fire_due-IsCounted_at h fuel m now done room ih (some (e, rest)) at v =
    elim (Bool-cases (ltb now e.when || room == 0)) [
      | inl over ↦ rw (at, fire_due, over) v
      | inr come ↦
          rw (at, fire_due, come)
            (ih (dispatch m now done e rest) (if is_wanted m done e then room - 1 else room)
              (dispatch-IsCounted h m now done e rest v))
    ]

fire_due-IsCounted :
    (h : ℕ) (fuel : ℕ) (m : Manager) (now : ℕ) (done : ℕ → Bool) (room : ℕ)
    → IsCounted h m
    → IsCounted h (fire_due fuel m now done room)
unfolding fire_due
fire_due-IsCounted h zero m now done room v = v
fire_due-IsCounted h (suc fuel) m now done room v =
    fire_due-IsCounted_at h fuel m now done room (λ r. fire_due-IsCounted h fuel r now done)
      (pop_top m.timer_queue) refl v

expire-IsCounted_at :
    (h : ℕ) (fuel : ℕ) (m : Manager) (now : ℕ)
    → ((m : Manager) → IsCounted h m → IsCounted h (expire fuel m now))
    → (o : Option (TimerEntry × List TimerEntry)) → pop_top m.timer_queue ≡ o
    → IsCounted h m
    → IsCounted h (expire (suc fuel) m now)
unfolding expire
expire-IsCounted_at h fuel m now ih none at v = rw (at, expire) v
expire-IsCounted_at h fuel m now ih (some (e, rest)) at v = elim (Bool-cases (ltb now e.when)) [
  | inl over ↦ rw (at, expire, over) v
  | inr come ↦
      rw (at, expire, come)
        (ih (record m { timer_queue = rest; expired = m.expired ++ e ∷ []; now = now })
          record { ready = v.ready; frames = v.frames })
]

expire-IsCounted :
    (h : ℕ) (fuel : ℕ) (m : Manager) (now : ℕ) → IsCounted h m → IsCounted h (expire fuel m now)
unfolding expire
expire-IsCounted h zero m now v = v
expire-IsCounted h (suc fuel) m now v =
    expire-IsCounted_at h fuel m now (λ r. expire-IsCounted h fuel r now) (pop_top m.timer_queue)
      refl v

filter_first-IsCounted :
    (h : ℕ) (m : Manager) (e : TimerEntry) (rest : List TimerEntry)
    → IsCounted h m
    → IsCounted h (filter_first m e rest)
unfolding filter_first
filter_first-IsCounted h m e rest v = elim (Bool-cases (has e.timer_id m.cancelled_timers)) [
  | inl w ↦ rw w record { ready = v.ready; frames = v.frames }
  | inr w ↦ rw w record { ready = v.ready; frames = v.frames }
]

filter_expired-IsCounted :
    (h : ℕ) (es : List TimerEntry) (m : Manager) → IsCounted h m → IsCounted h (filter_expired es m)
unfolding filter_expired
filter_expired-IsCounted h [] m v = v
filter_expired-IsCounted h (e ∷ es) m v =
    filter_expired-IsCounted h es (filter_first m e es) (filter_first-IsCounted h m e es v)

hand_on-IsCounted : (h : ℕ) (m : Manager) (hs : List ℕ) → IsCounted h m → IsCounted h (hand_on m hs)
unfolding hand_on
hand_on-IsCounted h m [] v = v
hand_on-IsCounted h m (x ∷ hs) v = record { ready = v.ready; frames = v.frames }

either :
    (h : ℕ) (b : Bool) (x y : Manager)
    → IsCounted h x
    → IsCounted h y
    → IsCounted h (if b then x else y)
either h true x y p q = p
either h false x y p q = q

timer_thread_step-IsCounted :
    (h : ℕ) (m : Manager) (now : ℕ) → IsCounted h m → IsCounted h (timer_thread_step m now)
unfolding timer_thread_step take_due
timer_thread_step-IsCounted h m now v =
    either h (not (is_empty m.to_resume)) (hand_on m m.to_resume)
      (if not (is_empty m.expired) then filter_expired m.expired m else take_due m now)
      (hand_on-IsCounted h m m.to_resume v)
      (either h (not (is_empty m.expired)) (filter_expired m.expired m) (take_due m now)
        (filter_expired-IsCounted h m.expired m v)
        (either h m.timer_thread_stop m (expire (length m.timer_queue) m now) v
          (expire-IsCounted h (length m.timer_queue) m now v)))

process_ready_queue-IsCounted :
    (h : ℕ) (m : Manager) (call : ℕ) (o : Option (ℕ × List Popped))
    → next_popped call m.resuming ≡ o
    → Left h m.resuming o
    → IsCounted h m
    → IsCounted h (process_ready_queue m call)
unfolding process_ready_queue
process_ready_queue-IsCounted h m call none at left v =
    rw (at, process_ready_queue)
      record {
        ready = omega (
          arith,
          v.ready,
          with_batch-occurrences h call (take batch_size m.ready_queue) m.resuming,
          take-drop-occurrences h batch_size m.ready_queue,
        );
        frames = v.frames;
      }
process_ready_queue-IsCounted h m call (some (y, rest)) at left v =
    rw (at, process_ready_queue)
      record {
        ready = omega (arith, v.ready, left, occurrences-append h m.taken (y ∷ []));
        frames = v.frames;
      }

process_pending_tasks-IsCounted :
    (h : ℕ) (m : Manager) (call : ℕ) (o : Option (ℕ × List Popped))
    → next_popped call m.destroying ≡ o
    → Left h m.destroying o
    → IsCounted h m
    → IsCounted h (process_pending_tasks m call)
unfolding process_pending_tasks
process_pending_tasks-IsCounted h m call none at left v =
    rw (at, process_pending_tasks)
      record {
        ready = v.ready;
        frames = omega (
          arith,
          v.frames,
          with_batch-occurrences h call (take batch_size m.destroy_queue) m.destroying,
          take-drop-occurrences h batch_size m.destroy_queue,
        );
      }
process_pending_tasks-IsCounted h m call (some (y, rest)) at left v =
    rw (at, process_pending_tasks)
      record {
        ready = v.ready;
        frames = omega (arith, v.frames, left, occurrences-append h m.destroyed (y ∷ []));
      }

step-IsCounted : (h : ℕ) (m : Manager) (e : Event) → IsCounted h m → IsCounted h (step m e)
unfolding step
step-IsCounted h m (adds when handle) v = record { ready = v.ready; frames = v.frames }
step-IsCounted h m (adds_enhanced when handle) v = elim (Bool-cases (handle == 0)) [
  | inl e ↦ rw (e, step, add_timer_enhanced) v
  | inr e ↦
      rw (e, step, add_timer_enhanced, add_timer) record { ready = v.ready; frames = v.frames }
]
step-IsCounted h m (cancels id) v = elim (Bool-cases (id == 0)) [
  | inl e ↦ rw (e, step, cancel_timer) v
  | inr e ↦ rw (e, step, cancel_timer) record { ready = v.ready; frames = v.frames }
]
step-IsCounted h m (processes_timers now done) v =
    fire_due-IsCounted h (length m.timer_queue) m now done timer_batch v
step-IsCounted h m (processes_ready call) v =
    process_ready_queue-IsCounted h m call (next_popped call m.resuming) refl
      (next_popped-Left h call m.resuming) v
step-IsCounted h m (abandons handle) v = elim (Bool-cases (handle == 0)) [
  | inl e ↦ rw (e, step, schedule_destroy) v
  | inr e ↦
      rw (e, step, schedule_destroy)
        record {
          ready = v.ready;
          frames = omega (
            arith,
            v.frames,
            occurrences-append h m.destroy_queue (handle ∷ []),
            occurrences-append h m.abandoned (handle ∷ []),
          );
        }
]
step-IsCounted h m (processes_pending call) v =
    process_pending_tasks-IsCounted h m call (next_popped call m.destroying) refl
      (next_popped-Left h call m.destroying) v
step-IsCounted h m (timer_thread now) v = timer_thread_step-IsCounted h m now v
step-IsCounted h m stops v = record { ready = v.ready; frames = v.frames }

run-IsCounted : (h : ℕ) (es : List Event) (m : Manager) → IsCounted h m → IsCounted h (run m es)
unfolding run
run-IsCounted h [] m v = v
run-IsCounted h (e ∷ es) m v = run-IsCounted h es (step m e) (step-IsCounted h m e v)

-- After any history of a new manager, in which any number of calls pop their batches and come to
-- their handles between the steps of the others, and in which a frame may be abandoned at any
-- point, also while another one is destroyed: every handle is as often among those that were put
-- into the ready queue as it is in that queue, in the batch of a call, or among those that a call
-- has come to; and a frame was abandoned as often as it waits, is in the batch of a call, or was
-- destroyed.
pub handles_accounted :
    (es : List Event) (h : ℕ)
    → let m = run init es in
      (occurrences h m.taken + occurrences h (handles m.resuming) + occurrences h m.ready_queue
        ≡ occurrences h m.readied)
      × (occurrences h m.destroyed
            + occurrences h (handles m.destroying)
            + occurrences h m.destroy_queue
          ≡ occurrences h m.abandoned)
unfolding init
handles_accounted es h =
    let v = run-IsCounted h es init record { ready = refl; frames = refl } in (v.ready, v.frames)
