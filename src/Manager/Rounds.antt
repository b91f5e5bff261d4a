-- ===== src/Manager/Rounds.antt =====
-- What one round takes: all timers that are due.
use flowcoro.Base.{
  ℕ, zero, suc, ◌-◌, ◌≡◌, ◌≤◌, refl, ap, Bool, true, false, ◌||◌, Option, none, some, List, [], ◌∷◌,
  ◌++◌, ◌==◌, ltb, length, if◌then◌else◌, arith, Bool-cases, inl, inr,
}
use flowcoro.Manager.{
  TimerEntry, Manager, pop_top, is_wanted, dispatch, fire_due, timer_batch, process_timer_queue,
  expire, take_due,
}
use flowcoro.Manager.Heap.{popped, all_from, all_from_trans}

timer_queue-dispatch :
    (m : Manager) (now : ℕ) (done : ℕ → Bool) (e : TimerEntry) (rest : List TimerEntry)
    → (dispatch m now done e rest).timer_queue ≡ rest
unfolding dispatch
timer_queue-dispatch m now done e rest = ground arith

fire_due_clears_at :
    (fuel : ℕ) (m : Manager) (now : ℕ) (done : ℕ → Bool) (room : ℕ)
    → ((m : Manager) (room : ℕ)
        → length m.timer_queue ≤ fuel
        → length m.timer_queue ≤ room
        → all_from (suc now) (fire_due fuel m now done room).timer_queue ≡ true)
    → (o : Option (TimerEntry × List TimerEntry)) → pop_top m.timer_queue ≡ o
    → length m.timer_queue ≤ suc fuel
    → length m.timer_queue ≤ room
    → all_from (suc now) (fire_due (suc fuel) m now done room).timer_queue ≡ true
unfolding fire_due
fire_due_clears_at fuel m now done room ih none at a b =
    let gone = popped m.timer_queue none at in rw (at, fire_due, gone) refl
fire_due_clears_at fuel m now done room ih (some (e, rest)) at a b =
    let (len, all, _) = popped m.timer_queue (some (e, rest)) at in
    elim (Bool-cases (ltb now e.when || room == 0)) [
      | inl over ↦
          rw (at, fire_due, over)
            (all_from_trans (suc now) e.when m.timer_queue (ground (arith, over, len, b)) all)
      | inr come ↦
          let left : (dispatch m now done e rest).timer_queue ≡ rest =
            timer_queue-dispatch m now done e rest in
          rw (at, fire_due, come)
            (ih (dispatch m now done e rest) (if is_wanted m done e then room - 1 else room)
              (rw left (omega (arith, len, a))) (rw left (ground (arith, len, b))))
    ]

fire_due_clears :
    (fuel : ℕ) (m : Manager) (now : ℕ) (done : ℕ → Bool) (room : ℕ)
    → length m.timer_queue ≤ fuel
    → length m.timer_queue ≤ room
    → all_from (suc now) (fire_due fuel m now done room).timer_queue ≡ true
unfolding fire_due
fire_due_clears zero m now done room a b = nothing_left m.timer_queue a
  where
    nothing_left : (ts : List TimerEntry) → length ts ≤ 0 → all_from (suc now) ts ≡ true
    nothing_left [] a = refl
    nothing_left (t ∷ ts) a = absurd (omega arith)
fire_due_clears (suc fuel) m now done room a b =
    fire_due_clears_at fuel m now done room (λ r. fire_due_clears fuel r now done)
      (pop_top m.timer_queue) refl a b

expire_clears_at :
    (fuel : ℕ) (m : Manager) (now : ℕ)
    → ((m : Manager)
        → length m.timer_queue ≤ fuel
        → all_from (suc now) (expire fuel m now).timer_queue ≡ true)
    → (o : Option (TimerEntry × List TimerEntry)) → pop_top m.timer_queue ≡ o
    → length m.timer_queue ≤ suc fuel
    → all_from (suc now) (expire (suc fuel) m now).timer_queue ≡ true
unfolding expire
expire_clears_at fuel m now ih none at a =
    let gone = popped m.timer_queue none at in rw (at, expire, gone) refl
expire_clears_at fuel m now ih (some (e, rest)) at a =
    let (len, all, _) = popped m.timer_queue (some (e, rest)) at in
    elim (Bool-cases (ltb now e.when)) [
      | inl over ↦
          rw (at, expire, over)
            (all_from_trans (suc now) e.when m.timer_queue (ground (arith, over)) all)
      | inr come ↦
          rw (at, expire, come)
            (ih (record m { timer_queue = rest; expired = m.expired ++ e ∷ []; now = now })
              (omega (arith, len, a)))
    ]

expire_clears :
    (fuel : ℕ) (m : Manager) (now : ℕ)
    → length m.timer_queue ≤ fuel
    → all_from (suc now) (expire fuel m now).timer_queue ≡ true
unfolding expire
expire_clears zero m now a = nothing_left m.timer_queue a
  where
    nothing_left : (ts : List TimerEntry) → length ts ≤ 0 → all_from (suc now) ts ≡ true
    nothing_left [] a = refl
    nothing_left (t ∷ ts) a = absurd (omega arith)
expire_clears (suc fuel) m now a =
    expire_clears_at fuel m now (λ r. expire_clears fuel r now) (pop_top m.timer_queue) refl a

-- `process_timer_queue` on a queue of at most 32 timers, and one round of the timer thread on any
-- queue unless it has been stopped, leave no timer in the queue whose time has come.
pub due_leave_queue :
    (m : Manager) (now : ℕ) (done : ℕ → Bool)
    → (length m.timer_queue ≤ timer_batch
        → all_from (suc now) (process_timer_queue m now done).timer_queue ≡ true)
      × (m.timer_thread_stop ≡ false → all_from (suc now) (take_due m now).timer_queue ≡ true)
unfolding process_timer_queue take_due
due_leave_queue m now done = (
  λ few. fire_due_clears (length m.timer_queue) m now done timer_batch (omega arith) few,
  λ on. on_clears on,
)
  where
    on_clears : m.timer_thread_stop ≡ false → all_from (suc now) (take_due m now).timer_queue ≡ true
    on_clears on =
        rw (ap (λ b. if b then m else expire (length m.timer_queue) m now) on)
          (expire_clears (length m.timer_queue) m now (omega arith))
