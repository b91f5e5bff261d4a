-- ===== src/Manager/Keeps.antt =====
-- What each section keeps is kept by every history.
use flowcoro.Base.{
  take, drop, ℕ, zero, suc, ◌+◌, ◌-◌, ◌≡◌, ◌≤◌, ◌<◌, refl, Bool, true, false, ◌||◌, Option, none,
  some, List, [], ◌∷◌, ◌++◌, ◌==◌, ltb, length, occurrences, if◌then◌else◌, word, arith, Bool-cases,
  inl, inr,
}
use flowcoro.Manager.{
  TimerEntry, Manager, add_timer, add_timer_enhanced, inserted, cancel_timer, pop_top, is_wanted,
  dispatch, fire_due, timer_batch, process_ready_queue, schedule_destroy, process_pending_tasks,
  Popped, batch_size, with_batch, next_popped, stop_timer_thread, expire, filter_first,
  filter_expired, hand_on, take_due, is_empty, timer_thread_step, Event, adds, adds_enhanced,
  cancels, processes_timers, processes_ready, abandons, processes_pending, timer_thread, stops,
  step, run,
}
use flowcoro.Manager.Heap.{ids, all_by, all_by-append_one, popped}

-- That `P` is kept by what happens to each entry, and by all that does not touch the timers.
pub record Kept (P : Manager → Type 0) : Type 0 where
  pub by_cancel :
      (m : Manager) (id : ℕ)
      → P m
      → P (record m { cancelled_timers = inserted id m.cancelled_timers })
  pub by_dispatch :
      (m : Manager) (now : ℕ) (done : ℕ → Bool) (e : TimerEntry) (rest : List TimerEntry)
      → ((i : ℕ) → occurrences i (ids m.timer_queue) ≡ occurrences i (e.timer_id ∷ ids rest))
      → e.when ≤ now
      → P m
      → P (dispatch m now done e rest)
  pub by_expiry :
      (m : Manager) (now : ℕ) (e : TimerEntry) (rest : List TimerEntry)
      → ((i : ℕ) → occurrences i (ids m.timer_queue) ≡ occurrences i (e.timer_id ∷ ids rest))
      → e.when ≤ now
      → all_by now m.expired ≡ true
      → P m
      → P (record m { timer_queue = rest; expired = m.expired ++ e ∷ []; now = now })
  pub by_filter :
      (m : Manager) (e : TimerEntry) (rest : List TimerEntry)
      → m.expired ≡ e ∷ rest
      → P m
      → P (filter_first m e rest)
  pub by_rest :
      (m r : Manager)
      → r.timer_queue ≡ m.timer_queue
      → r.expired ≡ m.expired
      → r.cancelled_timers ≡ m.cancelled_timers
      → r.fired ≡ m.fired
      → r.dropped ≡ m.dropped
      → r.timer_id_generator ≡ m.timer_id_generator
      → r.now ≡ m.now
      → P m
      → P r

expired-filter_first :
    (m : Manager) (e : TimerEntry) (rest : List TimerEntry) → (filter_first m e rest).expired ≡ rest
unfolding filter_first
expired-filter_first m e rest = ground arith

is_empty→nil : (ts : List TimerEntry) → is_empty ts ≡ true → ts ≡ []
is_empty→nil [] e = refl
is_empty→nil (t ∷ ts) e = absurd (cc)

dispatch-generator :
    (m : Manager) (now : ℕ) (done : ℕ → Bool) (e : TimerEntry) (rest : List TimerEntry)
    → (dispatch m now done e rest).timer_id_generator ≡ m.timer_id_generator
unfolding dispatch
dispatch-generator m now done e rest = ground arith

filter_first-generator :
    (m : Manager) (e : TimerEntry) (rest : List TimerEntry)
    → (filter_first m e rest).timer_id_generator ≡ m.timer_id_generator
unfolding filter_first
filter_first-generator m e rest = ground arith

add_timer-generator :
    (m : Manager) (when handle : ℕ)
    → suc m.timer_id_generator < word
    → (add_timer m when handle).1.timer_id_generator ≤ suc m.timer_id_generator
unfolding add_timer
add_timer-generator m when handle few = omega (arith, few)

module _ (P : Manager → Type 0) (k : Kept P) where
  fire_due_at :
      (fuel : ℕ) (m : Manager) (now : ℕ) (done : ℕ → Bool) (room : ℕ)
      → ((m : Manager) (room : ℕ) → P m → P (fire_due fuel m now done room))
      → (o : Option (TimerEntry × List TimerEntry)) → pop_top m.timer_queue ≡ o
      → P m
      → P (fire_due (suc fuel) m now done room)
  unfolding fire_due
  fire_due_at fuel m now done room ih none at p = rw (at, fire_due) p
  fire_due_at fuel m now done room ih (some (e, rest)) at p =
      let (_, _, same) = popped m.timer_queue (some (e, rest)) at in
      elim (Bool-cases (ltb now e.when || room == 0)) [
        | inl over ↦ rw (at, fire_due, over) p
        | inr come ↦
            rw (at, fire_due, come)
              (ih (dispatch m now done e rest) (if is_wanted m done e then room - 1 else room)
                (k.by_dispatch m now done e rest same (ground (arith, come)) p))
      ]

  fire_due_keeps :
      (fuel : ℕ) (m : Manager) (now : ℕ) (done : ℕ → Bool) (room : ℕ)
      → P m
      → P (fire_due fuel m now done room)
  unfolding fire_due
  fire_due_keeps zero m now done room p = p
  fire_due_keeps (suc fuel) m now done room p =
      fire_due_at fuel m now done room (λ r. fire_due_keeps fuel r now done) (pop_top m.timer_queue)
        refl p

  expire_at :
      (fuel : ℕ) (m : Manager) (now : ℕ)
      → ((m : Manager) → all_by now m.expired ≡ true → P m → P (expire fuel m now))
      → (o : Option (TimerEntry × List TimerEntry)) → pop_top m.timer_queue ≡ o
      → all_by now m.expired ≡ true
      → P m
      → P (expire (suc fuel) m now)
  unfolding expire
  expire_at fuel m now ih none at due p = rw (at, expire) p
  expire_at fuel m now ih (some (e, rest)) at due p =
      let (_, _, same) = popped m.timer_queue (some (e, rest)) at in
      elim (Bool-cases (ltb now e.when)) [
        | inl over ↦ rw (at, expire, over) p
        | inr come ↦
            let reached : e.when ≤ now = ground (arith, come) in
            rw (at, expire, come)
              (ih (record m { timer_queue = rest; expired = m.expired ++ e ∷ []; now = now })
                (all_by-append_one now e m.expired due reached)
                (k.by_expiry m now e rest same reached due p))
      ]

  expire_keeps :
      (fuel : ℕ) (m : Manager) (now : ℕ) → all_by now m.expired ≡ true → P m → P (expire fuel m now)
  unfolding expire
  expire_keeps zero m now due p = p
  expire_keeps (suc fuel) m now due p =
      expire_at fuel m now (λ r. expire_keeps fuel r now) (pop_top m.timer_queue) refl due p

  filter_expired_keeps :
      (es : List TimerEntry) (m : Manager) → m.expired ≡ es → P m → P (filter_expired es m)
  unfolding filter_expired
  filter_expired_keeps [] m at p = p
  filter_expired_keeps (e ∷ es) m at p =
      filter_expired_keeps es (filter_first m e es) (expired-filter_first m e es)
        (k.by_filter m e es at p)

  hand_on_keeps : (m : Manager) (hs : List ℕ) → P m → P (hand_on m hs)
  unfolding hand_on
  hand_on_keeps m [] p = p
  hand_on_keeps m (h ∷ hs) p = k.by_rest m (hand_on m (h ∷ hs)) refl refl refl refl refl refl refl p

  either : (b : Bool) (x y : Manager) → P x → P y → P (if b then x else y)
  either true x y p q = p
  either false x y p q = q

  take_due_keeps : (m : Manager) (now : ℕ) → m.expired ≡ [] → P m → P (take_due m now)
  unfolding take_due
  take_due_keeps m now gone p =
      either m.timer_thread_stop m (expire (length m.timer_queue) m now) p
        (expire_keeps (length m.timer_queue) m now (rw gone refl) p)

  timer_thread_step_keeps : (m : Manager) (now : ℕ) → P m → P (timer_thread_step m now)
  unfolding timer_thread_step
  timer_thread_step_keeps m now p = elim (Bool-cases (is_empty m.to_resume)) [
    | inr e ↦ rw e (hand_on_keeps m m.to_resume p)
    | inl e ↦ elim (Bool-cases (is_empty m.expired)) [
      | inr f ↦ rw (e, f) (filter_expired_keeps m.expired m refl p)
      | inl f ↦ rw (e, f) (take_due_keeps m now (is_empty→nil m.expired f) p)
    ]
  ]

  process_ready_queue_keeps :
      (m : Manager) (call : ℕ) (o : Option (ℕ × List Popped))
      → next_popped call m.resuming ≡ o
      → P m
      → P (process_ready_queue m call)
  unfolding process_ready_queue
  process_ready_queue_keeps m call none at p =
      rw (at, process_ready_queue)
        (k.by_rest m
          (record m {
            ready_queue = drop batch_size m.ready_queue;
            resuming = with_batch call (take batch_size m.ready_queue) m.resuming;
          })
          refl refl refl refl refl refl refl p)
  process_ready_queue_keeps m call (some (h, rest)) at p =
      rw (at, process_ready_queue)
        (k.by_rest m (record m { resuming = rest; taken = m.taken ++ h ∷ [] }) refl refl refl refl
          refl refl refl p)

  process_pending_tasks_keeps :
      (m : Manager) (call : ℕ) (o : Option (ℕ × List Popped))
      → next_popped call m.destroying ≡ o
      → P m
      → P (process_pending_tasks m call)
  unfolding process_pending_tasks
  process_pending_tasks_keeps m call none at p =
      rw (at, process_pending_tasks)
        (k.by_rest m
          (record m {
            destroy_queue = drop batch_size m.destroy_queue;
            destroying = with_batch call (take batch_size m.destroy_queue) m.destroying;
          })
          refl refl refl refl refl refl refl p)
  process_pending_tasks_keeps m call (some (h, rest)) at p =
      rw (at, process_pending_tasks)
        (k.by_rest m (record m { destroying = rest; destroyed = m.destroyed ++ h ∷ [] }) refl refl
          refl refl refl refl refl p)

  pub step_keeps :
      (m : Manager) (e : Event)
      → ((when handle : ℕ) → P (add_timer m when handle).1)
      → P m
      → P (step m e)
  unfolding step
  step_keeps m (adds when handle) adding p = adding when handle
  step_keeps m (adds_enhanced when handle) adding p = elim (Bool-cases (handle == 0)) [
    | inl e ↦ rw (e, step, add_timer_enhanced) p
    | inr e ↦ rw (e, step, add_timer_enhanced) (adding when handle)
  ]
  step_keeps m (cancels id) adding p = elim (Bool-cases (id == 0)) [
    | inl e ↦ rw (e, step, cancel_timer) p
    | inr e ↦ rw (e, step, cancel_timer) (k.by_cancel m id p)
  ]
  step_keeps m (processes_timers now done) adding p =
      fire_due_keeps (length m.timer_queue) m now done timer_batch p
  step_keeps m (processes_ready call) adding p =
      process_ready_queue_keeps m call (next_popped call m.resuming) refl p
  step_keeps m (abandons handle) adding p = elim (Bool-cases (handle == 0)) [
    | inl e ↦ rw (e, step, schedule_destroy) p
    | inr e ↦
        rw (e, step, schedule_destroy)
          (k.by_rest m
            (record m {
              destroy_queue = m.destroy_queue ++ handle ∷ [];
              abandoned = m.abandoned ++ handle ∷ [];
            })
            refl refl refl refl refl refl refl p)
  ]
  step_keeps m (processes_pending call) adding p =
      process_pending_tasks_keeps m call (next_popped call m.destroying) refl p
  step_keeps m (timer_thread now) adding p = timer_thread_step_keeps m now p
  step_keeps m stops adding p =
      k.by_rest m (stop_timer_thread m) refl refl refl refl refl refl refl p

pub step-generator :
    (m : Manager) (e : Event)
    → suc m.timer_id_generator < word
    → (step m e).timer_id_generator ≤ suc m.timer_id_generator
step-generator m e few =
    step_keeps (λ r. r.timer_id_generator ≤ suc m.timer_id_generator)
      (record {
        by_cancel = λ r id p. p;
        by_dispatch = λ r now done e rest same come p. rw (dispatch-generator r now done e rest) p;
        by_expiry = λ r now e rest same come due p. p;
        by_filter = λ r e rest at p. rw (filter_first-generator r e rest) p;
        by_rest = λ r s a b c d e f g p. rw f p;
      })
      m e (λ when handle. add_timer-generator m when handle few) (omega arith)

pub run_keeps :
    (P : Manager → Type 0)
    → Kept P
    → ((m : Manager) (when handle : ℕ)
        → suc m.timer_id_generator < word
        → P m
        → P (add_timer m when handle).1)
    → (es : List Event) (m : Manager) → m.timer_id_generator + length es < word
    → P m
    → P (run m es)
unfolding run
run_keeps P k adding [] m few p = p
run_keeps P k adding (e ∷ es) m few p =
    let fewer : suc m.timer_id_generator < word = omega (arith, few) in
    run_keeps P k adding es (step m e) (omega (arith, few, step-generator m e fewer))
      (step_keeps P k m e (λ when handle. adding m when handle fewer p) p)

pub run-generator :
    (es : List Event) (m : Manager)
    → m.timer_id_generator + length es < word
    → (run m es).timer_id_generator ≤ m.timer_id_generator + length es
unfolding run
run-generator [] m few = omega arith
run-generator (e ∷ es) m few =
    let one = step-generator m e (omega (arith, few)) in
    omega (arith, one, run-generator es (step m e) (omega (arith, few, one)))
